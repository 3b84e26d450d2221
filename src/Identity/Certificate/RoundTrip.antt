-- ===== src/Identity/Certificate/RoundTrip.antt =====
-- crates/identity/src/certificate.rs: a certificate that was signed is verified, and read as it was.
use onestein.Base.{
  ◌^◌, ◌≡◌, refl, subst, true, arith, ltb, ltb→lt, ==_iff, bytes_eq_refl, ok, >>=-eq-ok,
}
use onestein.Base.Bytes.{Bytes, IsArray}
use onestein.Base.Text.{ascii}
use onestein.Bdf.{dict, is_canonical}
use onestein.Bdf.Extent.{to_bytes-IsByte, length-to_bytes}
use onestein.Bdf.Utf8.{is_utf8, scan}
use onestein.Bdf.Valid.{IsRaw, HoldValid}
use onestein.Bdf.Write.{to_bytes}
use onestein.Crypto.{hash_len}
use onestein.Identity.Schemes.{Schemes, IsSound}
use onestein.Identity.Fields.{dictionary}
use onestein.Identity.Container.{
  is_text, dictionary-to_bytes, IsArray→IsRaw, open_container-sign_with_label,
}
use onestein.Identity.Certificate.{
  RootKeys, DeviceCertificate, certificate_fields, encode_certificate, certificate_label,
  identity_id, certificate_of, sign_certificate, verify_certificate, x25519_len,
  kem_encapsulation_key_len,
}

-- The arrays of a certificate have the lengths of their types.
pub record IsCertificate (certificate : DeviceCertificate) : Type 0 where
  pub id_array : IsArray hash_len certificate.identity_id
  pub signing_array : IsArray hash_len certificate.device_signing_pub
  pub dh_array : IsArray x25519_len certificate.dh_static_pub
  pub kem_array : IsArray kem_encapsulation_key_len certificate.kem_static_pub

encode_certificate-ok :
    (certificate : DeviceCertificate) (encoded : Bytes)
    → encode_certificate certificate ≡ ok encoded
    → (ltb certificate.epoch (2 ^ 63) ≡ true)
      × (ltb certificate.from_ms (2 ^ 63) ≡ true)
      × (to_bytes (dict (certificate_fields certificate)) ≡ encoded)
unfolding encode_certificate
encode_certificate-ok certificate encoded h = ground arith

module _ (certificate : DeviceCertificate) (good : IsCertificate certificate)
    (epoch_fits : ltb certificate.epoch (2 ^ 63) ≡ true)
    (from_fits : ltb certificate.from_ms (2 ^ 63) ≡ true) where
  fields-HoldValid : HoldValid 1 (certificate_fields certificate)
  unfolding is_utf8 scan
  fields-HoldValid = (
    is_text (ascii "dev") refl,
    IsArray→IsRaw 32 _ (omega arith) good.signing_array,
    (
      is_text (ascii "dh") refl,
      IsArray→IsRaw 32 _ (omega arith) good.dh_array,
      (
        is_text (ascii "epoch") refl,
        omega (arith, ltb→lt _ _ epoch_fits),
        (
          is_text (ascii "from") refl,
          omega (arith, ltb→lt _ _ from_fits),
          (
            is_text (ascii "id") refl,
            IsArray→IsRaw 32 _ (omega arith) good.id_array,
            (
              is_text (ascii "kem") refl,
              IsArray→IsRaw 1184 _ (omega arith) good.kem_array,
              (is_text (ascii "v") refl, omega arith, tt),
            ),
          ),
        ),
      ),
    ),
  )

  fields-canonical : is_canonical (dict (certificate_fields certificate)) ≡ true
  unfolding is_canonical
  fields-canonical = refl

  encoded-IsRaw : IsRaw (to_bytes (dict (certificate_fields certificate)))
  encoded-IsRaw = (
    to_bytes-IsByte 0 (dict (certificate_fields certificate)) (omega arith, fields-HoldValid),
    omega (
      arith,
      length-to_bytes (dict (certificate_fields certificate)),
      good.id_array.0,
      good.signing_array.0,
      good.dh_array.0,
      good.kem_array.0,
    ),
  )

  certificate_of-certificate_fields :
      certificate_of (certificate_fields certificate) certificate.identity_id ≡ ok certificate
  unfolding certificate_of
  certificate_of-certificate_fields =
      rw
        (
          bytes_eq_refl certificate.identity_id,
          (==_iff _ 32).1 good.signing_array.0,
          (==_iff _ 32).1 good.dh_array.0,
          (==_iff _ 1184).1 good.kem_array.0,
          epoch_fits,
          from_fits,
        )
        refl

module _ (blake2b : Bytes → Bytes) (schemes : Schemes) (sound : IsSound schemes) where
  -- What an identity signs for its device, every contact that holds its root keys accepts.
  pub verify_certificate-sign_certificate :
      (keys : RootKeys) (certificate : DeviceCertificate) (container : Bytes)
      → IsCertificate certificate
      → identity_id blake2b schemes keys ≡ ok certificate.identity_id
      → sign_certificate blake2b schemes keys certificate ≡ ok container
      → verify_certificate blake2b schemes container
          (schemes.ed_public keys.ed25519)
          (schemes.ml_public keys.mldsa)
        ≡ ok certificate
  unfolding sign_certificate verify_certificate
  verify_certificate-sign_certificate keys certificate container good derived h =
      let (encoded, he, h') = >>=-eq-ok (encode_certificate certificate) _ h in
      let (epoch_fits, from_fits, wire) = encode_certificate-ok certificate encoded he in
      let valid = subst IsRaw wire (encoded-IsRaw certificate good epoch_fits from_fits) in
      let parsed =
        subst (λ bs. dictionary bs ≡ ok (certificate_fields certificate)) wire
          (dictionary-to_bytes (certificate_fields certificate)
            (fields-HoldValid certificate good epoch_fits from_fits)
            (fields-canonical certificate good epoch_fits from_fits)) in
      let opened =
        open_container-sign_with_label blake2b schemes sound keys certificate_label encoded
          container certificate.identity_id (certificate_fields certificate) valid parsed derived
          h' in
      rw opened (certificate_of-certificate_fields certificate good epoch_fits from_fits)
