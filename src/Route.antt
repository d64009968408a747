-- ===== src/Route.antt =====
-- runtime/crates/kernel/src/route.rs: the fragment `app/<token>` of a page at a route, and the
-- plaintext kind `launch/<app>`. A `str` is the list of its UTF-8 bytes.
pub mod Layout
pub mod Parse
pub mod Rebuild
pub mod RoundTrip
mod Tests
use polyvisor.Common.{
  ℕ, ◌+◌, ◌-◌, ◌*◌, ◌/◌, ◌%◌, ◌≡◌, refl, List, [], ◌∷◌, ◌++◌, Option, none, some, Bool, true, false,
  Result, ok, err, ok_or, guard, ◌>>=◌, ◌>>◌, ◌&&◌, not, length, take, drop, get_or, replicate, leb,
  ltb, ◌==◌, if◌then◌else◌, bytes_eq, strip_prefix, copy_at, all_zero, codes,
}
use polyvisor.Primitives.{Aead, AeadLaws, Mac, MacLaws, Encoding, EncodingLaws, CanonicalLaws, Utf8}

abbrev pub kind : List ℕ
kind = codes "app/"

abbrev pub version : ℕ
version = 1

abbrev pub aad : List ℕ
aad = codes "polyvisor:route:v1"

abbrev pub install_len : ℕ
install_len = 16

abbrev pub nonce_len : ℕ
nonce_len = 12

abbrev pub plaintext_len : ℕ
plaintext_len = 256

abbrev pub instance_cap : ℕ
instance_cap = 32

abbrev pub max_route : ℕ
max_route = plaintext_len - install_len - 1 - instance_cap - 2

pub data RouteError : Type 0 where
  too_long unreadable : RouteError

-- `install`, `instance`, `route` of a fragment.
pub record Target : Type 0 where
  pub install : List ℕ
  pub inst : Option (List ℕ)
  pub route : List ℕ

-- `instance.unwrap_or_default()`.
abbrev pub or_empty : Option (List ℕ) → List ℕ
or_empty none = []
or_empty (some i) = i

-- `(!instance.is_empty()).then(|| instance)`.
abbrev pub non_empty : List ℕ → Option (List ℕ)
non_empty [] = none
non_empty (c ∷ i) = some (c ∷ i)

abbrev pub route_len_at : ℕ
route_len_at = install_len + 1 + instance_cap

-- The zeroed buffer and the five writes into it.
pub plaintext : List ℕ → List ℕ → List ℕ → List ℕ
plaintext install inst route =
    let p0 = replicate plaintext_len 0 in
    let p1 = copy_at 0 install p0 in
    let p2 = copy_at install_len (length inst % 256 ∷ []) p1 in
    let p3 = copy_at (install_len + 1) inst p2 in
    let p4 = copy_at route_len_at (length route / 256 % 256 ∷ length route % 256 ∷ []) p3 in
    copy_at (route_len_at + 2) route p4

-- The tests of `decode_instance` on the slices that it cuts from the plaintext.
pub check_fields : Utf8 → List ℕ → ℕ → List ℕ → ℕ → List ℕ → Result RouteError Target
check_fields utf8 install instance_len instance_body len body = do
  guard (leb instance_len instance_cap) unreadable
  guard (all_zero (drop instance_len instance_body)) unreadable
  let inst = take instance_len instance_body
  guard (utf8.valid inst) unreadable
  guard (leb len max_route) unreadable
  guard (all_zero (drop len body)) unreadable
  let route = take len body
  guard (utf8.valid route) unreadable
  ok (record { install = install; inst = non_empty inst; route = route })

-- What follows the decryption in `decode_instance`.
pub parse : Utf8 → List ℕ → Result RouteError Target
parse utf8 plain =
    check_fields utf8 (take install_len plain) (get_or plain install_len 0)
      (take instance_cap (drop (install_len + 1) plain))
      (get_or plain route_len_at 0 * 256 + get_or plain (route_len_at + 1) 0)
      (drop (route_len_at + 2) plain)

-- The crates that the fragment is sealed with.
pub record Crates : Type 0 where
  pub aead : Aead
  pub hmac : Mac
  pub base64 : Encoding
  pub utf8 : Utf8

pub record CratesLaws (c : Crates) : Type 0 where
  pub aead_laws : AeadLaws c.aead
  pub mac_laws : MacLaws c.hmac
  pub base64_laws : EncodingLaws c.base64
  pub base64_canonical : CanonicalLaws c.base64

module _ (crates : Crates) where
  open crates use {aead, hmac, base64, utf8}

  pub enc_key : List ℕ → List ℕ
  enc_key key = hmac.mac key (codes "polyvisor:route:enc")

  pub siv_key : List ℕ → List ℕ
  siv_key key = hmac.mac key (codes "polyvisor:route:siv")

  pub siv : List ℕ → List ℕ → List ℕ
  siv k_siv plain = take nonce_len (hmac.mac k_siv plain)

  pub encode_instance : List ℕ → List ℕ → Option (List ℕ) → List ℕ → Result RouteError (List ℕ)
  encode_instance key install inst? route = do
    guard (leb (length route) max_route) too_long
    let inst = or_empty inst?
    guard (leb (length inst) instance_cap) too_long
    let plain = plaintext install inst route
    let nonce = siv (siv_key key) plain
    ct ← ok_or (aead.encrypt (enc_key key) nonce aad plain) unreadable
    ok (kind ++ base64.encode (version ∷ (nonce ++ ct)))

  -- The part of `decode_instance` behind the version byte.
  pub open_blob : List ℕ → List ℕ → Result RouteError Target
  open_blob key body = do
    let nonce = take nonce_len body
    plain ← ok_or (aead.decrypt (enc_key key) nonce aad (drop nonce_len body)) unreadable
    guard (length plain == plaintext_len) unreadable
    guard (bytes_eq (siv (siv_key key) plain) nonce) unreadable
    parse utf8 plain

  pub decode_instance : List ℕ → List ℕ → Result RouteError Target
  decode_instance key fragment = do
    token ← ok_or (strip_prefix kind fragment) unreadable
    blob ← ok_or (base64.decode token) unreadable
    guard (leb (1 + nonce_len) (length blob) && (get_or blob 0 0 == version)) unreadable
    open_blob key (drop 1 blob)

abbrev pub launch_prefix : List ℕ
launch_prefix = codes "launch/"

pub launch_fragment : List ℕ → List ℕ
launch_fragment app = launch_prefix ++ app

pub launch_app : List ℕ → Option (List ℕ)
launch_app fragment = elim (strip_prefix launch_prefix fragment) [
  | none ↦ none
  | some app ↦ non_empty app
]
