-- ===== src/Identity/Revocation.antt =====
-- crates/identity/src/revocation.rs: revocations, and the rule on epochs.
pub mod RoundTrip
pub mod Epochs
pub mod Labels
use onestein.Base.{
  ℕ, zero, suc, [], ◌∷◌, ltb, ◌==◌, if◌then◌else◌, bytes_eq, Result, ok, err, ◌>>=◌, ◌>>◌, guard,
}
use onestein.Base.Bytes.{Bytes}
use onestein.Base.Text.{ascii}
use onestein.Bdf.{Entries, int, raw, dict, no_entries, entry}
use onestein.Bdf.Write.{to_bytes}
use onestein.Crypto.{hash, hash_len}
use onestein.Identity.{Error, malformed, wrong_identity, epoch_in_the_past, identity_version}
use onestein.Identity.Schemes.{Schemes}
use onestein.Identity.Fields.{raw_field, integer_field, exact, to_i64, to_u64}
use onestein.Identity.Certificate.{RootKeys, revocation_label, sign_with_label, open_container}

pub record Revocation : Type 0 where
  pub identity_id : Bytes
  pub device_signing_pub : Bytes
  pub epoch : ℕ

abbrev pub revocation_fields : Revocation → Entries
revocation_fields revocation = entry (ascii "dev") (raw revocation.device_signing_pub) (
    entry (ascii "epoch") (int revocation.epoch) (
      entry (ascii "id") (raw revocation.identity_id)
        (entry (ascii "v") (int identity_version) no_entries)))

unfoldable pub encode_revocation : Revocation → Result Error Bytes
encode_revocation revocation = do
  epoch ← to_i64 revocation.epoch
  ok (to_bytes (dict (revocation_fields (record revocation { epoch = epoch }))))

unfoldable pub revocation_of : Entries → Bytes → Result Error Revocation
revocation_of body expected_identity = do
  version ← integer_field body (ascii "v")
  guard (version == identity_version) malformed
  id ← raw_field body (ascii "id")
  guard (bytes_eq id expected_identity) wrong_identity
  epoch ← integer_field body (ascii "epoch")
  dev ← raw_field body (ascii "dev")
  device_signing_pub ← exact hash_len dev
  epoch' ← to_u64 epoch
  ok (record {
    identity_id = expected_identity;
    device_signing_pub = device_signing_pub;
    epoch = epoch';
  })

unfoldable pub revocation_to_sign : (Bytes → Bytes) → Revocation → Result Error Bytes
revocation_to_sign blake2b revocation = do
  encoded ← encode_revocation revocation
  ok (hash blake2b (revocation_label ∷ encoded ∷ []))

module _ (blake2b : Bytes → Bytes) (schemes : Schemes) where
  unfoldable pub verify_revocation : Bytes → Bytes → Bytes → Result Error Revocation
  verify_revocation container root_ed25519 root_mldsa = do
    (body, expected_identity) ←
        open_container blake2b schemes container root_ed25519 root_mldsa revocation_label
    revocation_of body expected_identity

  unfoldable pub sign_revocation : RootKeys → Revocation → Result Error Bytes
  sign_revocation keys revocation = do
    encoded ← encode_revocation revocation
    sign_with_label blake2b schemes keys revocation_label encoded

-- The epoch to record, given the highest one recorded.
unfoldable pub accept_epoch : ℕ → ℕ → Result Error ℕ
accept_epoch recorded_highest epoch =
    if ltb epoch recorded_highest then err (epoch_in_the_past recorded_highest epoch) else ok epoch
