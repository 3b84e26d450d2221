-- ===== src/Tests/ContactRuns.antt =====
-- crates/contact at concrete inputs: the vectors of RFC 4648, a link, and two bundles of one commitment under
-- a hash that keeps 32 bytes from the front.
use onestein.Base.{◌^◌, ◌≡◌, refl, ◌⊎◌, [], ◌∷◌, ◌++◌, replicate, ok, err}
use onestein.Base.Bytes.{fill, Bytes, to_be, to_be-IsArray}
use onestein.Base.Text.{ascii, are_bytes→IsByte}
use onestein.Crypto.{frame, hash}
use onestein.Crypto.Collisions.{Collision}
use onestein.Contact.Base32.{
  encode, encode_from, decode, decode_from, symbol, value_of, non_canonical_tail,
}
use onestein.Contact.Base32.RoundTrip.{decode-encode}
use onestein.Contact.{
  ContactLink, ContactBundle, to_text, parse, link_payload, commitment, check, encode_bundle,
  fingerprint, not_a_link,
}
use onestein.Contact.Links.{parse-to_text}
use onestein.Contact.Bundles.{IsBundle, check_binds}

run_foobar : encode (ascii "foobar") ≡ ascii "MZXW6YTBOI"
unfolding encode encode_from symbol
run_foobar = refl

run_lower_case : decode (ascii "mzx w6") ≡ ok (ascii "foo")
unfolding decode decode_from value_of
run_lower_case = refl

run_tail : decode (ascii "MZXW7") ≡ err non_canonical_tail
unfolding decode decode_from value_of
run_tail = refl

-- A character too many, whose bits are zeroes, goes unnoticed.
run_long_tail : decode (ascii "MYA") ≡ decode (ascii "MY")
unfolding decode decode_from value_of
run_long_tail = refl

decode-encode_example : decode (encode (ascii "fooba")) ≡ ok (ascii "fooba")
decode-encode_example = decode-encode (ascii "fooba") (are_bytes→IsByte (ascii "fooba") refl)

abbrev a_link : ContactLink
a_link = record { contact_key = to_be 32 258; commitment = to_be 32 (2 ^ 255) }

run_no_link : parse (ascii "  onestein:2:MY ") ≡ err not_a_link
unfolding parse link_payload
run_no_link = refl

parse-to_text_example : parse (to_text a_link) ≡ ok a_link
parse-to_text_example = parse-to_text a_link (to_be-IsArray 32 258) (to_be-IsArray 32 (2 ^ 255))

run_fingerprint : fingerprint (ascii "fooba") ≡ ascii "MZXW 6YTB"
unfolding fingerprint encode encode_from symbol
run_fingerprint = refl

abbrev front_hash : Bytes → Bytes
front_hash bs = fill 32 bs

abbrev a_bundle : ContactBundle
a_bundle = record {
  root_ed25519 = to_be 32 1;
  root_mldsa = replicate 1952 2;
  contact_key = to_be 32 3;
}

abbrev b_bundle : ContactBundle
b_bundle = record a_bundle { contact_key = to_be 32 4 }

a_bundle-IsBundle : IsBundle a_bundle
a_bundle-IsBundle = record {
  ed_array = to_be-IsArray 32 1;
  mldsa_array = (refl, are_bytes→IsByte (replicate 1952 2) refl);
  key_array = to_be-IsArray 32 3;
}

b_bundle-IsBundle : IsBundle b_bundle
b_bundle-IsBundle = record {
  ed_array = to_be-IsArray 32 1;
  mldsa_array = (refl, are_bytes→IsByte (replicate 1952 2) refl);
  key_array = to_be-IsArray 32 4;
}

-- The label is what this hash keeps.
abbrev one_commitment : Bytes
one_commitment = 0 ∷ 0 ∷ 0 ∷ 27 ∷ (ascii "org.onestein.contact/BUNDLE" ++ 0 ∷ [])

run_check_a : check front_hash a_bundle one_commitment ≡ ok tt
unfolding check commitment encode_bundle hash frame
run_check_a = refl

run_check_b : check front_hash b_bundle one_commitment ≡ ok tt
unfolding check commitment encode_bundle hash frame
run_check_b = refl

check_binds_example : (a_bundle ≡ b_bundle) ⊎ Collision front_hash
check_binds_example =
    check_binds front_hash a_bundle b_bundle one_commitment a_bundle-IsBundle b_bundle-IsBundle
      run_check_a run_check_b
