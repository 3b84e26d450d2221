-- ===== src/Tests/IdentityRuns.antt =====
-- crates/identity at concrete certificates. The hash is the length, and the signatures are the text in
-- 64 bytes, and a constant.
use onestein.Base.{
  ◌^◌, ◌<◌, ◌≡◌, refl, subst, true, some, [], ◌∷◌, ◌++◌, arith, length, replicate, bytes_eq,
  bytes_eq_refl, Result, ok, err,
}
use onestein.Base.Bytes.{Bytes, IsArray, to_be, from_be, to_be-IsArray}
use onestein.Base.Text.{are_bytes→IsByte}
use onestein.Crypto.{hash}
use onestein.Crypto.Collisions.{Collision}
use onestein.Bdf.Write.{write_sized, push_be, to_bytes}
use onestein.Bdf.{minimal_int_length}
use onestein.Identity.{identity_parts, epoch_in_the_past}
use onestein.Identity.Schemes.{Schemes, IsSound}
use onestein.Identity.Container.{identity_id-derived}
use onestein.Identity.Certificate.{
  DeviceCertificate, RootKeys, encode_certificate, certificate_to_sign, sign_with_label,
  sign_certificate, verify_certificate,
}
use onestein.Identity.Certificate.RoundTrip.{IsCertificate, verify_certificate-sign_certificate}
use onestein.Identity.Acceptance.{IsAccepted, verify_certificate_sound}
use onestein.Identity.Revocation.{
  Revocation, encode_revocation, revocation_to_sign, sign_revocation, accept_epoch,
}
use onestein.Identity.Revocation.Epochs.{record_all, accept_epoch-never_back}
use onestein.Identity.Revocation.Labels.{to_sign_separate}

abbrev size_hash : Bytes → Bytes
size_hash bs = to_be 32 (length bs)

abbrev constant : Bytes
constant = replicate 3309 7

abbrev schemes : Schemes
schemes = record {
  ed_public = λ seed. to_be 32 (from_be seed);
  ed_sign = λ seed text. to_be 64 (from_be text);
  ed_valid_key = λ key. true;
  ed_verifies = λ key text signature. bytes_eq signature (to_be 64 (from_be text));
  ml_public = λ seed. replicate 1952 1;
  ml_sign = λ seed text. some constant;
  ml_decodes = λ signature. true;
  ml_verifies = λ key text signature. true;
}

constant-IsArray : IsArray 3309 constant
constant-IsArray = (refl, are_bytes→IsByte constant refl)

schemes-IsSound : IsSound schemes
schemes-IsSound = record {
  ed_public-IsArray = λ seed. to_be-IsArray 32 (from_be seed);
  ed_valid = λ seed. refl;
  ed_sign-IsArray = λ seed text. to_be-IsArray 64 (from_be text);
  ed_verifies-ed_sign = λ seed text. bytes_eq_refl (to_be 64 (from_be text));
  ml_public-IsArray = λ seed. (refl, are_bytes→IsByte (replicate 1952 1) refl);
  ml_sign-IsArray = λ seed text signature h.
      let same : constant ≡ signature = cc in subst (IsArray 3309) same constant-IsArray;
  ml_decodes-ml_sign = λ seed text signature h. refl;
  ml_verifies-ml_sign = λ seed text signature h. refl;
}

abbrev keys : RootKeys
keys = record { ed25519 = replicate 32 4; mldsa = replicate 32 5 }

abbrev an_identity : Bytes
an_identity =
    hash size_hash (identity_parts (schemes.ed_public keys.ed25519) (schemes.ml_public keys.mldsa))

an_identity-IsArray : IsArray 32 an_identity
unfolding hash
an_identity-IsArray = to_be-IsArray 32 _

abbrev certificate : DeviceCertificate
certificate = record {
  identity_id = an_identity;
  device_signing_pub = to_be 32 11;
  dh_static_pub = to_be 32 12;
  kem_static_pub = replicate 1184 13;
  epoch = 3;
  from_ms = 4000;
}

certificate-IsCertificate : IsCertificate certificate
certificate-IsCertificate = record {
  id_array = an_identity-IsArray;
  signing_array = to_be-IsArray 32 11;
  dh_array = to_be-IsArray 32 12;
  kem_array = (refl, are_bytes→IsByte (replicate 1184 13) refl);
}

abbrev value_of {ℓ} : {E : Type ℓ} → Result E Bytes → Bytes
value_of (ok bs) = bs
value_of (err e) = []

abbrev container : Bytes
container = value_of (sign_certificate size_hash schemes keys certificate)

run_sign : sign_certificate size_hash schemes keys certificate ≡ ok container
unfolding sign_certificate sign_with_label encode_certificate
run_sign = refl

verify_certificate-sign_certificate_example :
    verify_certificate size_hash schemes container
      (to_be 32 (from_be (replicate 32 4)))
      (replicate 1952 1)
    ≡ ok certificate
verify_certificate-sign_certificate_example =
    verify_certificate-sign_certificate size_hash schemes schemes-IsSound keys certificate container
      certificate-IsCertificate (identity_id-derived size_hash schemes schemes-IsSound keys)
      run_sign

run_verify :
    verify_certificate size_hash schemes container
      (to_be 32 (from_be (replicate 32 4)))
      (replicate 1952 1)
    ≡ ok certificate
run_verify =
    verify_certificate-sign_certificate size_hash schemes schemes-IsSound keys certificate container
      certificate-IsCertificate (identity_id-derived size_hash schemes schemes-IsSound keys)
      run_sign

verify_certificate_sound_example :
    IsAccepted size_hash schemes
      (to_be 32 (from_be (replicate 32 4)))
      (replicate 1952 1)
      certificate
verify_certificate_sound_example =
    verify_certificate_sound size_hash schemes container (to_be 32 (from_be (replicate 32 4)))
      (replicate 1952 1) certificate run_verify

abbrev revocation : Revocation
revocation = record { identity_id = an_identity; device_signing_pub = to_be 32 11; epoch = 4 }

abbrev withdrawal : Bytes
withdrawal = value_of (sign_revocation size_hash schemes keys revocation)

run_withdraw : sign_revocation size_hash schemes keys revocation ≡ ok withdrawal
unfolding sign_revocation sign_with_label encode_revocation
run_withdraw = refl

accept_epoch-never_back_example :
    accept_epoch (record_all 0 ((1 ∷ []) ++ (4 ∷ 2 ∷ []))) 3
    ≡ err (epoch_in_the_past (record_all 0 ((1 ∷ []) ++ (4 ∷ 2 ∷ []))) 3)
accept_epoch-never_back_example = accept_epoch-never_back 0 4 3 (1 ∷ []) (2 ∷ []) (omega arith)

abbrev short_certificate : DeviceCertificate
short_certificate = record certificate {
  identity_id = [];
  device_signing_pub = [];
  dh_static_pub = [];
  kem_static_pub = [];
}

abbrev short_revocation : Revocation
short_revocation = record { identity_id = []; device_signing_pub = []; epoch = 4 }

abbrev zero_hash : Bytes → Bytes
zero_hash bs = replicate 32 0

run_encode_short :
    encode_certificate short_certificate ≡ ok (value_of (encode_certificate short_certificate))
unfolding encode_certificate
run_encode_short = refl

run_encode_revocation :
    encode_revocation short_revocation ≡ ok (value_of (encode_revocation short_revocation))
unfolding encode_revocation
run_encode_revocation = refl

run_certificate_text : certificate_to_sign zero_hash short_certificate ≡ ok (replicate 32 0)
unfolding certificate_to_sign encode_certificate hash
run_certificate_text = refl

run_revocation_text : revocation_to_sign zero_hash short_revocation ≡ ok (replicate 32 0)
unfolding revocation_to_sign encode_revocation hash
run_revocation_text = refl

run_certificate_short : length (value_of (encode_certificate short_certificate)) < 2 ^ 32
unfolding encode_certificate to_bytes write_sized push_be minimal_int_length
run_certificate_short = omega arith

run_revocation_short : length (value_of (encode_revocation short_revocation)) < 2 ^ 32
unfolding encode_revocation to_bytes write_sized push_be minimal_int_length
run_revocation_short = omega arith

to_sign_separate_example : Collision zero_hash
to_sign_separate_example =
    to_sign_separate zero_hash short_certificate short_revocation
      (value_of (encode_certificate short_certificate))
      (value_of (encode_revocation short_revocation)) (replicate 32 0) run_encode_short
      run_encode_revocation run_certificate_short run_revocation_short run_certificate_text
      run_revocation_text
