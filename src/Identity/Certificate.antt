-- ===== src/Identity/Certificate.antt =====
-- crates/identity/src/certificate.rs: device certificates, and the container of both root signatures.
pub mod RoundTrip
use onestein.Base.{
  ℕ, zero, suc, [], ◌∷◌, ◌==◌, length, bytes_eq, Result, ok, ◌>>=◌, ◌>>◌, guard, ok_or,
}
use onestein.Base.Bytes.{Bytes}
use onestein.Base.Text.{ascii}
use onestein.Bdf.{Entries, int, raw, dict, no_entries, entry}
use onestein.Bdf.Write.{to_bytes}
use onestein.Crypto.{hash, hash_len}
use onestein.Identity.{
  Error, malformed, wrong_identity, bad_signature, signing, identity_version, derive,
  root_mldsa_len, root_ed25519_len,
}
use onestein.Identity.Schemes.{Schemes, ed25519_signature_len, mldsa_signature_len}
use onestein.Identity.Fields.{dictionary, raw_field, integer_field, exact, to_i64, to_u64}

abbrev pub certificate_label : Bytes
certificate_label = ascii "org.onestein.identity/DEVICE_CERTIFICATE"

abbrev pub revocation_label : Bytes
revocation_label = ascii "org.onestein.identity/DEVICE_REVOCATION"

abbrev pub x25519_len : ℕ
x25519_len = 32

abbrev pub kem_encapsulation_key_len : ℕ
kem_encapsulation_key_len = 1184

pub record DeviceCertificate : Type 0 where
  pub identity_id : Bytes
  pub device_signing_pub : Bytes
  pub dh_static_pub : Bytes
  pub kem_static_pub : Bytes
  pub epoch : ℕ
  pub from_ms : ℕ

abbrev pub certificate_fields : DeviceCertificate → Entries
certificate_fields certificate = entry (ascii "dev") (raw certificate.device_signing_pub) (
    entry (ascii "dh") (raw certificate.dh_static_pub) (
      entry (ascii "epoch") (int certificate.epoch) (
        entry (ascii "from") (int certificate.from_ms) (
          entry (ascii "id") (raw certificate.identity_id) (
            entry (ascii "kem") (raw certificate.kem_static_pub)
              (entry (ascii "v") (int identity_version) no_entries))))))

unfoldable pub encode_certificate : DeviceCertificate → Result Error Bytes
encode_certificate certificate = do
  epoch ← to_i64 certificate.epoch
  from ← to_i64 certificate.from_ms
  ok (to_bytes (dict (certificate_fields (record certificate { epoch = epoch; from_ms = from }))))

-- The seeds of the two secret keys.
pub record RootKeys : Type 0 where
  pub ed25519 : Bytes
  pub mldsa : Bytes

abbrev pub container_fields : Bytes → Bytes → Bytes → Entries
container_fields encoded ed25519 mldsa =
    entry (ascii "c") (raw encoded)
      (entry (ascii "e") (raw ed25519) (entry (ascii "p") (raw mldsa) no_entries))

unfoldable pub certificate_of : Entries → Bytes → Result Error DeviceCertificate
certificate_of body expected_identity = do
  version ← integer_field body (ascii "v")
  guard (version == identity_version) malformed
  id ← raw_field body (ascii "id")
  guard (bytes_eq id expected_identity) wrong_identity
  epoch ← integer_field body (ascii "epoch")
  from_ms ← integer_field body (ascii "from")
  dev ← raw_field body (ascii "dev")
  device_signing_pub ← exact hash_len dev
  dh ← raw_field body (ascii "dh")
  dh_static_pub ← exact x25519_len dh
  kem ← raw_field body (ascii "kem")
  kem_static_pub ← exact kem_encapsulation_key_len kem
  epoch' ← to_u64 epoch
  from_ms' ← to_u64 from_ms
  ok (record {
    identity_id = expected_identity;
    device_signing_pub = device_signing_pub;
    dh_static_pub = dh_static_pub;
    kem_static_pub = kem_static_pub;
    epoch = epoch';
    from_ms = from_ms';
  })

module _ (blake2b : Bytes → Bytes) where
  unfoldable pub certificate_to_sign : DeviceCertificate → Result Error Bytes
  certificate_to_sign certificate = do
    encoded ← encode_certificate certificate
    ok (hash blake2b (certificate_label ∷ encoded ∷ []))

module _ (blake2b : Bytes → Bytes) (schemes : Schemes) where
  unfoldable pub identity_id : RootKeys → Result Error Bytes
  identity_id keys = derive blake2b (schemes.ed_public keys.ed25519) (schemes.ml_public keys.mldsa)

  unfoldable pub sign_with_label : RootKeys → Bytes → Bytes → Result Error Bytes
  sign_with_label keys label encoded =
      let to_sign = hash blake2b (label ∷ encoded ∷ []) in
      ok_or (schemes.ml_sign keys.mldsa to_sign) signing >>= λ mldsa.
      ok (to_bytes (dict (container_fields encoded (schemes.ed_sign keys.ed25519 to_sign) mldsa)))

  unfoldable pub sign_certificate : RootKeys → DeviceCertificate → Result Error Bytes
  sign_certificate keys certificate = do
    encoded ← encode_certificate certificate
    sign_with_label keys certificate_label encoded

  unfoldable pub verify_ed25519 : Bytes → Bytes → Bytes → Result Error (Unit {0})
  verify_ed25519 public text signature = do
    key ← exact root_ed25519_len public
    guard (schemes.ed_valid_key key) bad_signature
    signature' ← exact ed25519_signature_len signature
    guard (schemes.ed_verifies key text signature') bad_signature

  unfoldable pub verify_mldsa : Bytes → Bytes → Bytes → Result Error (Unit {0})
  verify_mldsa public text signature = do
    guard (length public == root_mldsa_len) bad_signature
    guard (length signature == mldsa_signature_len) bad_signature
    guard (schemes.ml_decodes signature) bad_signature
    guard (schemes.ml_verifies public text signature) bad_signature

  -- The fields of what was signed, and the identity of the root keys.
  unfoldable pub open_container : Bytes → Bytes → Bytes → Bytes → Result Error (Entries × Bytes)
  open_container container root_ed25519 root_mldsa label = do
    expected_identity ← derive blake2b root_ed25519 root_mldsa
    fields ← dictionary container
    signed ← raw_field fields (ascii "c")
    ed25519 ← raw_field fields (ascii "e")
    verify_ed25519 root_ed25519 (hash blake2b (label ∷ signed ∷ [])) ed25519
    mldsa ← raw_field fields (ascii "p")
    verify_mldsa root_mldsa (hash blake2b (label ∷ signed ∷ [])) mldsa
    body ← dictionary signed
    ok (body, expected_identity)

  unfoldable pub verify_certificate : Bytes → Bytes → Bytes → Result Error DeviceCertificate
  verify_certificate container root_ed25519 root_mldsa = do
    (body, expected_identity) ← open_container container root_ed25519 root_mldsa certificate_label
    certificate_of body expected_identity
