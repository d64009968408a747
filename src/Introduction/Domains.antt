-- ===== src/Introduction/Domains.antt =====
-- runtime/crates/contacts-model/src/lib.rs: the domains keep the signed messages apart.
use polyvisor.Common.{
  ℕ, ◌≡◌, refl, sym, ap, ◌∙◌, List, get_or, drop, length, drop-append_length, arith,
}
use polyvisor.Introduction.{
  Domain, binding_domain, profile_domain, introduction_domain, domain_bytes, domain_message,
}

-- The letter at which the three domains differ.
mark : Domain → ℕ
mark binding_domain = 114
mark profile_domain = 115
mark introduction_domain = 105

letter : (d : Domain) (p : List ℕ) → get_or (domain_message d p) 10 0 ≡ mark d
unfolding domain_message domain_bytes mark
letter binding_domain p = refl
letter profile_domain p = refl
letter introduction_domain p = refl

mark-inj : (d e : Domain) → mark d ≡ mark e → d ≡ e
unfolding mark
mark-inj binding_domain binding_domain h = refl
mark-inj profile_domain profile_domain h = refl
mark-inj introduction_domain introduction_domain h = refl
mark-inj binding_domain profile_domain h = absurd (omega arith)
mark-inj binding_domain introduction_domain h = absurd (omega arith)
mark-inj profile_domain binding_domain h = absurd (omega arith)
mark-inj profile_domain introduction_domain h = absurd (omega arith)
mark-inj introduction_domain binding_domain h = absurd (omega arith)
mark-inj introduction_domain profile_domain h = absurd (omega arith)

payload_of : (d : Domain) (p : List ℕ) → drop (length (domain_bytes d)) (domain_message d p) ≡ p
unfolding domain_message
payload_of d p = drop-append_length (length (domain_bytes d)) (domain_bytes d) p refl

-- A message is signed for one domain and one payload: equal messages have both equal, so a
-- signature of one kind never stands for another kind.
pub domain_message-inj :
    (d e : Domain) (p q : List ℕ) → domain_message d p ≡ domain_message e q → (d ≡ e) × (p ≡ q)
domain_message-inj d e p q h =
    let same : d ≡ e = mark-inj d e (sym (letter d p) ∙ ap (λ l. get_or l 10 0) h ∙ letter e q) in
    (
      same,
      sym (payload_of d p)
          ∙ ap (λ l. drop (length (domain_bytes d)) l) h
          ∙ ap (λ x. drop (length (domain_bytes x)) (domain_message e q)) same
          ∙ payload_of e q,
    )
