-- ===== src/Policy/Tests.antt =====
-- runtime/crates/engine/src/policy.rs: the rules for one member.
use polyvisor.Common.{◌≡◌, ◌↔◌, [], ◌∷◌, false}
use polyvisor.Policy.{GroupPolicy, remote, allow, authorize}
use polyvisor.Policy.Rules.{Permitted, authorize_lem}

abbrev group : GroupPolicy
group = record {
  members = (9 ∷ []) ∷ [];
  lifecycle = record { registers = []; ready_peers = [] };
  shared = [];
}

authorize_lem_example :
    (authorize group (remote (9 ∷ [])) (1 ∷ []) false ≡ allow)
    ↔ Permitted group (1 ∷ []) false (remote (9 ∷ []))
authorize_lem_example = authorize_lem group (1 ∷ []) false (remote (9 ∷ []))
