-- ===== src/Identity/Revocation/RoundTrip.antt =====
-- crates/identity/src/revocation.rs: a revocation that was signed is verified, and read as it was.
use onestein.Base.{
  ◌^◌, ◌≡◌, refl, subst, true, arith, ltb, ltb→lt, ==_iff, bytes_eq_refl, ok, >>=-eq-ok,
}
use onestein.Base.Bytes.{Bytes, IsArray}
use onestein.Base.Text.{ascii}
use onestein.Bdf.{dict, is_canonical}
use onestein.Bdf.Extent.{to_bytes-IsByte, length-to_bytes}
use onestein.Bdf.Utf8.{is_utf8, scan}
use onestein.Bdf.Valid.{IsRaw, HoldValid}
use onestein.Bdf.Write.{to_bytes}
use onestein.Crypto.{hash_len}
use onestein.Identity.Schemes.{Schemes, IsSound}
use onestein.Identity.Fields.{dictionary}
use onestein.Identity.Container.{
  is_text, dictionary-to_bytes, IsArray→IsRaw, open_container-sign_with_label,
}
use onestein.Identity.Certificate.{RootKeys, revocation_label, identity_id}
use onestein.Identity.Revocation.{
  Revocation, revocation_fields, encode_revocation, revocation_of, verify_revocation,
  sign_revocation,
}

-- The arrays of a revocation have the lengths of their types.
pub record IsRevocation (revocation : Revocation) : Type 0 where
  pub id_array : IsArray hash_len revocation.identity_id
  pub signing_array : IsArray hash_len revocation.device_signing_pub

encode_revocation-ok :
    (revocation : Revocation) (encoded : Bytes)
    → encode_revocation revocation ≡ ok encoded
    → (ltb revocation.epoch (2 ^ 63) ≡ true)
      × (to_bytes (dict (revocation_fields revocation)) ≡ encoded)
unfolding encode_revocation
encode_revocation-ok revocation encoded h = ground arith

module _ (revocation : Revocation) (good : IsRevocation revocation)
    (epoch_fits : ltb revocation.epoch (2 ^ 63) ≡ true) where
  fields-HoldValid : HoldValid 1 (revocation_fields revocation)
  unfolding is_utf8 scan
  fields-HoldValid = (
    is_text (ascii "dev") refl,
    IsArray→IsRaw 32 _ (omega arith) good.signing_array,
    (
      is_text (ascii "epoch") refl,
      omega (arith, ltb→lt _ _ epoch_fits),
      (
        is_text (ascii "id") refl,
        IsArray→IsRaw 32 _ (omega arith) good.id_array,
        (is_text (ascii "v") refl, omega arith, tt),
      ),
    ),
  )

  fields-canonical : is_canonical (dict (revocation_fields revocation)) ≡ true
  unfolding is_canonical
  fields-canonical = refl

  encoded-IsRaw : IsRaw (to_bytes (dict (revocation_fields revocation)))
  encoded-IsRaw = (
    to_bytes-IsByte 0 (dict (revocation_fields revocation)) (omega arith, fields-HoldValid),
    omega (
      arith,
      length-to_bytes (dict (revocation_fields revocation)),
      good.id_array.0,
      good.signing_array.0,
    ),
  )

  revocation_of-revocation_fields :
      revocation_of (revocation_fields revocation) revocation.identity_id ≡ ok revocation
  unfolding revocation_of
  revocation_of-revocation_fields =
      rw (bytes_eq_refl revocation.identity_id, (==_iff _ 32).1 good.signing_array.0, epoch_fits)
        refl

module _ (blake2b : Bytes → Bytes) (schemes : Schemes) (sound : IsSound schemes) where
  -- What an identity withdraws, every contact that holds its root keys learns.
  pub verify_revocation-sign_revocation :
      (keys : RootKeys) (revocation : Revocation) (container : Bytes)
      → IsRevocation revocation
      → identity_id blake2b schemes keys ≡ ok revocation.identity_id
      → sign_revocation blake2b schemes keys revocation ≡ ok container
      → verify_revocation blake2b schemes container
          (schemes.ed_public keys.ed25519)
          (schemes.ml_public keys.mldsa)
        ≡ ok revocation
  unfolding sign_revocation verify_revocation
  verify_revocation-sign_revocation keys revocation container good derived h =
      let (encoded, he, h') = >>=-eq-ok (encode_revocation revocation) _ h in
      let (epoch_fits, wire) = encode_revocation-ok revocation encoded he in
      let valid = subst IsRaw wire (encoded-IsRaw revocation good epoch_fits) in
      let parsed =
        subst (λ bs. dictionary bs ≡ ok (revocation_fields revocation)) wire
          (dictionary-to_bytes (revocation_fields revocation)
            (fields-HoldValid revocation good epoch_fits)
            (fields-canonical revocation good epoch_fits)) in
      let opened =
        open_container-sign_with_label blake2b schemes sound keys revocation_label encoded container
          revocation.identity_id (revocation_fields revocation) valid parsed derived h' in
      rw opened (revocation_of-revocation_fields revocation good epoch_fits)
