-- ===== src/Opaque/Tests.antt =====
-- runtime/crates/engine/src/opaque.rs: the theorems at one register.
use polyvisor.Common.{ℕ, ◌≡◌, refl, List, [], ◌∷◌, some, replicate, bytes_eq}
use polyvisor.Opaque.{group_sealed, RegisterValue, Lifecycle, lookup}

abbrev value : RegisterValue
value = record { sequence = 258; nonce = replicate 16 7; mode = some group_sealed }

abbrev slot : List ℕ
slot = replicate 12 1

abbrev lifecycle : Lifecycle
lifecycle = record { registers = (slot, value) ∷ []; ready_peers = [] }

found : lookup slot lifecycle.registers ≡ some value
unfolding lookup bytes_eq
found = refl
