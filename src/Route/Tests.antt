-- ===== src/Route/Tests.antt =====
-- runtime/crates/kernel/src/route.rs: the theorems at a short route.
use polyvisor.Common.{
  ℕ, ◌≡◌, refl, List, [], none, ok, length, replicate, IsBytes-replicate, arith, codes,
}
use polyvisor.Primitives.Toy.{
  toy_aead, toy_aead_laws, toy_mac, toy_mac_laws, toy_encoding, toy_encoding_laws,
  toy-CanonicalLaws, toy_utf8,
}
use polyvisor.Route.{Crates, CratesLaws, encode_instance, decode_instance}
use polyvisor.Route.RoundTrip.{
  IsTarget, or_empty_target, decode_instance-encode_instance, encode_instance-decode_instance,
  encode_instance-length,
}

abbrev toy_crates : Crates
toy_crates = record { aead = toy_aead; hmac = toy_mac; base64 = toy_encoding; utf8 = toy_utf8 }

toy_crates_laws : CratesLaws toy_crates
toy_crates_laws = record {
  aead_laws = toy_aead_laws;
  mac_laws = toy_mac_laws;
  base64_laws = toy_encoding_laws;
  base64_canonical = toy-CanonicalLaws;
}

abbrev install : List ℕ
install = replicate 16 7

abbrev home : List ℕ
home = codes "/a"

home-IsTarget : IsTarget toy_utf8 install [] home
unfolding toy_utf8
home-IsTarget = record {
  install16 = refl;
  install_bytes = IsBytes-replicate 16 7 (omega arith);
  inst_cap = omega arith;
  inst_bytes = tt;
  inst_utf8 = refl;
  route_cap = omega arith;
  route_bytes = (omega arith, (omega arith, tt));
  route_utf8 = refl;
}

root-IsTarget : IsTarget toy_utf8 install [] []
unfolding toy_utf8
root-IsTarget = record {
  install16 = refl;
  install_bytes = IsBytes-replicate 16 7 (omega arith);
  inst_cap = omega arith;
  inst_bytes = tt;
  inst_utf8 = refl;
  route_cap = omega arith;
  route_bytes = tt;
  route_utf8 = refl;
}

decode_instance-encode_instance_example :
    (fragment : List ℕ) × (encode_instance toy_crates [] install none home ≡ ok fragment)
    × (decode_instance toy_crates [] fragment ≡ ok (or_empty_target install [] home))
decode_instance-encode_instance_example =
    decode_instance-encode_instance toy_crates toy_crates_laws [] install none home home-IsTarget

encode_instance-decode_instance_example :
    encode_instance toy_crates [] install none home
    ≡ ok
        (decode_instance-encode_instance toy_crates toy_crates_laws [] install none home
          home-IsTarget).0
encode_instance-decode_instance_example =
    encode_instance-decode_instance toy_crates toy_crates_laws []
      (decode_instance-encode_instance toy_crates toy_crates_laws [] install none home
        home-IsTarget).0
      (or_empty_target install [] home)
      (decode_instance-encode_instance toy_crates toy_crates_laws [] install none home
        home-IsTarget).2

encode_instance-length_example :
    length
      (decode_instance-encode_instance toy_crates toy_crates_laws [] install none home
        home-IsTarget).0
    ≡ length
        (decode_instance-encode_instance toy_crates toy_crates_laws [] install none []
          root-IsTarget).0
encode_instance-length_example =
    encode_instance-length toy_crates toy_crates_laws [] [] install install none none home []
      (decode_instance-encode_instance toy_crates toy_crates_laws [] install none home
        home-IsTarget).0
      (decode_instance-encode_instance toy_crates toy_crates_laws [] install none []
        root-IsTarget).0
      home-IsTarget root-IsTarget
      (decode_instance-encode_instance toy_crates toy_crates_laws [] install none home
        home-IsTarget).1
      (decode_instance-encode_instance toy_crates toy_crates_laws [] install none []
        root-IsTarget).1

abbrev long : List ℕ
long = replicate 206 47
