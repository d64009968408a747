-- ===== src/Introduction/Toy.antt =====
-- A signature scheme and message codecs that meet the laws, for the witnesses.
mod Tests
use polyvisor.Common.{
  ℕ, zero, suc, ◌≡◌, refl, sym, ap, ◌∙◌, List, [], ◌∷◌, Option, some, none, Bool, true, false,
  length, replicate, get_or, ◌==◌, bytes_eq, bytes_eq_refl, arith,
}
use polyvisor.Introduction.{
  ℤ, pos, negsuc, Claim, Party, AuthenticatedIdentity, Timestamp, Envelope, WireBinding,
  WireProfile, WireIntroduction, Proto, Messages, MessagesLaws, Ed25519, Ed25519Laws,
}

-- A key is its seed's first byte and 31 nines; a signature is that byte and the message's length.
abbrev pub toy_ed25519 : Ed25519
toy_ed25519 = record {
  is_key = λ k. length k == 32;
  is_weak = λ k. false;
  verifying_key = λ s. get_or s 0 0 ∷ replicate 31 9;
  sign = λ s m. get_or s 0 0 ∷ length m ∷ [];
  is_signature = λ s. true;
  verify_strict = λ k m s. bytes_eq s (get_or k 0 0 ∷ length m ∷ []);
}

pub toy_ed25519_laws : Ed25519Laws toy_ed25519
toy_ed25519_laws = record {
  is_key_length = λ k h. ground (arith);
  verifying_key-is_key = λ s. refl;
  verifying_key-is_weak = λ s. refl;
  sign-is_signature = λ s m. refl;
  verify_strict-sign = λ s m. bytes_eq_refl (get_or s 0 0 ∷ length m ∷ []);
}

-- A way to write a value in front of a text, and to read it back.
record Part (A : Type 0) : Type 0 where
  write : A → List ℕ → List ℕ
  read : List ℕ → Option (A × List ℕ)
  law : (a : A) (rest : List ℕ) → read (write a rest) ≡ some (a, rest)

read_nat : List ℕ → Option (ℕ × List ℕ)
read_nat [] = none
read_nat (n ∷ rest) = some (n, rest)

nat_part : Part ℕ
unfolding read_nat
nat_part = record { write = λ n rest. n ∷ rest; read = read_nat; law = λ n rest. refl }

module _ {A B : Type 0} where
  and_then : Option (A × List ℕ) → (A → List ℕ → Option (B × List ℕ)) → Option (B × List ℕ)
  and_then none f = none
  and_then (some (a, rest)) f = f a rest

module _ {A B : Type 0} (p : Part A) where
  -- Through two functions, one back from the other.
  along : (f : B → A) (g : A → B) → ((b : B) → g (f b) ≡ b) → Part B
  unfolding and_then
  along f g back = record {
    write = λ b rest. p.write (f b) rest;
    read = λ l. and_then (p.read l) (λ a rest. some (g a, rest));
    law = λ b rest. rw (p.law (f b) rest) (ap (λ x. some (x, rest)) (back b));
  }

  pair_part : Part B → Part (A × B)
  unfolding and_then
  pair_part q = record {
    write = λ ab rest. p.write (ab.0) (q.write (ab.1) rest);
    read =
        λ l. and_then (p.read l) (λ a rest. and_then (q.read rest) (λ b last. some ((a, b), last)));
    law = λ ab rest. rw (p.law (ab.0) (q.write (ab.1) rest), q.law (ab.1) rest) refl;
  }

module _ {A : Type 0} (p : Part A) where
  write_all : List A → List ℕ → List ℕ
  write_all [] rest = rest
  write_all (x ∷ xs) rest = p.write x (write_all xs rest)

  read_all : ℕ → List ℕ → Option (List A × List ℕ)
  read_all zero l = some ([], l)
  read_all (suc n) l =
      and_then (p.read l) (λ x rest. and_then (read_all n rest) (λ xs last. some (x ∷ xs, last)))

  read_all-write_all :
      (xs : List A) (rest : List ℕ) → read_all (length xs) (write_all xs rest) ≡ some (xs, rest)
  unfolding read_all write_all and_then
  read_all-write_all [] rest = refl
  read_all-write_all (x ∷ xs) rest =
      rw (p.law x (write_all xs rest), read_all-write_all xs rest) refl

  list_part : Part (List A)
  unfolding and_then read_nat
  list_part = record {
    write = λ xs rest. length xs ∷ write_all xs rest;
    read = λ l. and_then (read_nat l) (λ n rest. read_all n rest);
    law = λ xs rest. read_all-write_all xs rest;
  }

  option_write : Option A → List ℕ → List ℕ
  option_write none rest = 0 ∷ rest
  option_write (some a) rest = 1 ∷ p.write a rest

  option_read : List ℕ → Option (Option A × List ℕ)
  option_read [] = none
  option_read (zero ∷ rest) = some (none, rest)
  option_read (suc n ∷ rest) = and_then (p.read rest) (λ a last. some (some a, last))

  option_law : (o : Option A) (rest : List ℕ) → option_read (option_write o rest) ≡ some (o, rest)
  unfolding option_read option_write and_then
  option_law none rest = refl
  option_law (some a) rest = rw (p.law a rest) refl

  option_part : Part (Option A)
  option_part = record { write = option_write; read = option_read; law = option_law }

  -- A codec of a whole message.
  only : Option (A × List ℕ) → Option A
  only none = none
  only (some (a, rest)) = some a

  whole_message : Proto A
  whole_message = record { encode = λ a. p.write a []; decode = λ l. only (p.read l) }

  whole_law : (a : A) → whole_message.decode (whole_message.encode a) ≡ some a
  unfolding whole_message only
  whole_law a = rw (p.law a []) refl

bytes_part : Part (List ℕ)
bytes_part = list_part nat_part

int_of : ℕ × ℕ → ℤ
int_of (zero, n) = pos n
int_of (suc k, n) = negsuc n

of_int : ℤ → ℕ × ℕ
of_int (pos n) = (0, n)
of_int (negsuc n) = (1, n)

int_back : (z : ℤ) → int_of (of_int z) ≡ z
unfolding int_of of_int
int_back (pos n) = refl
int_back (negsuc n) = refl

int_part : Part ℤ
int_part = along (pair_part nat_part nat_part) of_int int_of int_back

claim_part : Part Claim
claim_part =
    along (pair_part bytes_part bytes_part) (λ c. (c.name, c.value))
      (λ t. record { name = t.0; value = t.1 }) (λ c. refl)

party_part : Part Party
party_part =
    along (pair_part bytes_part (list_part claim_part)) (λ p. (p.public_key, p.observations))
      (λ t. record { public_key = t.0; observations = t.1 }) (λ p. refl)

identity_part : Part AuthenticatedIdentity
identity_part =
    along
      (pair_part bytes_part (pair_part (list_part bytes_part) (pair_part bytes_part bytes_part)))
      (λ i. (i.binding, (i.profiles, (i.authority_device, i.keyhive_authority_proof))))
      (λ t. record {
        binding = t.0;
        profiles = t.1.0;
        authority_device = t.1.1.0;
        keyhive_authority_proof = t.1.1.1;
      })
      (λ i. refl)

time_part : Part Timestamp
time_part =
    along (pair_part int_part int_part) (λ t. (t.seconds, t.nanos))
      (λ t. record { seconds = t.0; nanos = t.1 }) (λ t. refl)

envelope_part : Part Envelope
envelope_part =
    along (pair_part bytes_part bytes_part) (λ e. (e.payload, e.signature))
      (λ t. record { payload = t.0; signature = t.1 }) (λ e. refl)

binding_part : Part WireBinding
binding_part =
    along (pair_part nat_part (pair_part bytes_part bytes_part))
      (λ b. (b.version, (b.root_public_key, b.group_id)))
      (λ t. record { version = t.0; root_public_key = t.1.0; group_id = t.1.1 }) (λ b. refl)

profile_part : Part WireProfile
profile_part =
    along (pair_part nat_part (pair_part bytes_part (pair_part bytes_part (list_part claim_part))))
      (λ p. (p.version, (p.subject_root, (p.issuer_root, p.claims))))
      (λ t. record { version = t.0; subject_root = t.1.0; issuer_root = t.1.1.0; claims = t.1.1.1 })
      (λ p. refl)

introduction_part : Part WireIntroduction
introduction_part =
    along
      (pair_part nat_part (
        pair_part (option_part identity_part) (
          pair_part bytes_part (
            pair_part (list_part identity_part)
              (pair_part (list_part party_part) (option_part time_part))))))
      (λ i. (
        i.version,
        (i.issuer, (i.device_signing_key, (i.authenticated_identities, (i.parties, i.issued_at)))),
      ))
      (λ t. record {
        version = t.0;
        issuer = t.1.0;
        device_signing_key = t.1.1.0;
        authenticated_identities = t.1.1.1.0;
        parties = t.1.1.1.1.0;
        issued_at = t.1.1.1.1.1;
      })
      (λ i. refl)

pub toy_messages : Messages
toy_messages = record {
  envelope = whole_message envelope_part;
  binding = whole_message binding_part;
  profile = whole_message profile_part;
  introduction = whole_message introduction_part;
}

pub toy_messages_laws : MessagesLaws toy_messages
unfolding toy_messages
toy_messages_laws = record {
  envelope_law = whole_law envelope_part;
  binding_law = whole_law binding_part;
  profile_law = whole_law profile_part;
  introduction_law = whole_law introduction_part;
}
