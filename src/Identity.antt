-- ===== src/Identity.antt =====
-- crates/identity: identities and their identifiers, device certificates, revocations and recovery.
pub mod Schemes
pub mod Fields
pub mod Certificate
pub mod Container
pub mod Acceptance
pub mod Revocation
pub mod Recovery
use onestein.Base.{ℕ, zero, suc, List, [], ◌∷◌, ◌==◌, length, Result, ok, ◌>>=◌, ◌>>◌, guard}
use onestein.Base.Bytes.{Bytes}
use onestein.Base.Text.{ascii}
use onestein.Crypto.{hash}

abbrev pub identity_version : ℕ
identity_version = 1

abbrev pub root_ed25519_len : ℕ
root_ed25519_len = 32

abbrev pub root_mldsa_len : ℕ
root_mldsa_len = 1952

abbrev pub identity_id_label : Bytes
identity_id_label = ascii "org.onestein.identity/IDENTITY_ID"

pub data Error : Type 0 where
  -- Expected, then given.
  wrong_key_length : ℕ → ℕ → Error
  out_of_range : Error
  malformed : Error
  wrong_identity : Error
  bad_signature : Error
  signing : Error
  -- Recorded, then given.
  epoch_in_the_past : ℕ → ℕ → Error

abbrev pub identity_parts : Bytes → Bytes → List Bytes
identity_parts root_ed25519 root_mldsa =
    identity_id_label ∷ (identity_version ∷ []) ∷ root_ed25519 ∷ root_mldsa ∷ []

-- `IdentityId::derive`.
unfoldable pub derive : (Bytes → Bytes) → Bytes → Bytes → Result Error Bytes
derive blake2b root_ed25519 root_mldsa = do
  guard (length root_ed25519 == root_ed25519_len)
      (wrong_key_length root_ed25519_len (length root_ed25519))
  guard (length root_mldsa == root_mldsa_len) (wrong_key_length root_mldsa_len (length root_mldsa))
  ok (hash blake2b (identity_parts root_ed25519 root_mldsa))
