-- ===== src/Handshake.antt =====
-- crates/handshake/src/lib.rs: the key agreement of one side, and the root key of both. X25519, ML-KEM-768
-- and BLAKE2b, plain and keyed, are parameters.
pub mod Binding
pub mod SameSecrets
pub mod Records
use onestein.Base.{ℕ, zero, suc, Bool, List, [], ◌∷◌, length, Result, ok, ◌>>=◌, guard}
use onestein.Base.Bytes.{fill, Bytes}
use onestein.Base.Text.{ascii}
use onestein.Crypto.{hash, hash_len, kdf}
use onestein.Record.{Error as RecordError}

abbrev pub handshake_version : ℕ
handshake_version = 1

abbrev pub identity_version : ℕ
identity_version = 1

abbrev pub primitives_version : ℕ
primitives_version = 1

abbrev pub transport_version : ℕ
transport_version = 1

abbrev pub x25519_len : ℕ
x25519_len = 32

abbrev pub kem_encapsulation_key_len : ℕ
kem_encapsulation_key_len = 1184

abbrev pub kem_ciphertext_len : ℕ
kem_ciphertext_len = 1088

abbrev pub root_key_label : Bytes
root_key_label = ascii "org.onestein.handshake/ROOT_KEY"

abbrev pub confirmation_a_label : Bytes
confirmation_a_label = ascii "org.onestein.handshake/CONFIRMATION_A"

abbrev pub confirmation_b_label : Bytes
confirmation_b_label = ascii "org.onestein.handshake/CONFIRMATION_B"

pub data Role : Type 0 where
  role_a role_b : Role

pub data Error : Type 0 where
  degenerate_shared_secret : Error
  record_error : RecordError → Error
  -- Expected, then given.
  wrong_length : ℕ → ℕ → Error

-- The operations of the two schemes. A secret key is its seed, and `encapsulate` gives the ciphertext and
-- the secret.
pub record Agreement : Type 0 where
  pub x25519_public : Bytes → Bytes
  pub diffie_hellman : Bytes → Bytes → Bytes
  pub was_contributory : Bytes → Bool
  pub kem_public : Bytes → Bytes
  pub kem_decapsulate : Bytes → Bytes → Bytes
  pub kem_valid_key : Bytes → Bool
  pub kem_encapsulate : Bytes → Bytes → Bytes × Bytes

pub record KeyPair : Type 0 where
  pub x25519 : Bytes
  pub kem : Bytes

module _ (schemes : Agreement) where
  unfoldable pub x25519_public : KeyPair → Bytes
  x25519_public keys = schemes.x25519_public keys.x25519

  unfoldable pub kem_encapsulation_key : KeyPair → Bytes
  kem_encapsulation_key keys = fill kem_encapsulation_key_len (schemes.kem_public keys.kem)

  unfoldable pub agree : KeyPair → Bytes → Result Error Bytes
  agree keys peer_public =
      let shared = schemes.diffie_hellman keys.x25519 peer_public in
      guard (schemes.was_contributory shared) degenerate_shared_secret >>= λ _. ok shared

  unfoldable pub decapsulate : KeyPair → Bytes → Bytes
  decapsulate keys ciphertext = fill hash_len (schemes.kem_decapsulate keys.kem ciphertext)

  -- The ciphertext, and the secret that it carries.
  unfoldable pub encapsulate : Bytes → Bytes → Result Error (Bytes × Bytes)
  encapsulate encapsulation_key randomness =
      let sealed = schemes.kem_encapsulate encapsulation_key randomness in
      guard (schemes.kem_valid_key encapsulation_key)
        (wrong_length kem_encapsulation_key_len (length encapsulation_key))
      >>= λ _. ok (fill kem_ciphertext_len sealed.0, fill hash_len sealed.1)

pub record Secrets : Type 0 where
  pub dh_ephemeral : Bytes
  pub dh_ephemeral_static : Bytes
  pub dh_static_ephemeral : Bytes
  pub kem_ephemeral_a : Bytes
  pub kem_ephemeral_b : Bytes
  pub kem_static_a : Bytes
  pub kem_static_b : Bytes

pub record Transcript : Type 0 where
  pub identity_id_a : Bytes
  pub identity_id_b : Bytes
  pub device_signing_pub_a : Bytes
  pub device_signing_pub_b : Bytes
  pub dh_static_pub_a : Bytes
  pub dh_static_pub_b : Bytes
  pub kem_static_pub_a : Bytes
  pub kem_static_pub_b : Bytes
  pub dh_ephemeral_pub_a : Bytes
  pub dh_ephemeral_pub_b : Bytes
  pub kem_ephemeral_pub_a : Bytes
  pub kem_ephemeral_pub_b : Bytes
  pub ct_ephemeral_a : Bytes
  pub ct_ephemeral_b : Bytes
  pub ct_static_a : Bytes
  pub ct_static_b : Bytes

abbrev pub root_key_parts : Secrets → Transcript → List Bytes
root_key_parts secrets transcript =
    root_key_label
    ∷ (handshake_version ∷ [])
    ∷ (identity_version ∷ [])
    ∷ (primitives_version ∷ [])
    ∷ (transport_version ∷ [])
    ∷ secrets.dh_ephemeral
    ∷ secrets.dh_ephemeral_static
    ∷ secrets.dh_static_ephemeral
    ∷ secrets.kem_ephemeral_a
    ∷ secrets.kem_ephemeral_b
    ∷ secrets.kem_static_a
    ∷ secrets.kem_static_b
    ∷ transcript.identity_id_a
    ∷ transcript.identity_id_b
    ∷ transcript.device_signing_pub_a
    ∷ transcript.device_signing_pub_b
    ∷ transcript.dh_static_pub_a
    ∷ transcript.dh_static_pub_b
    ∷ transcript.kem_static_pub_a
    ∷ transcript.kem_static_pub_b
    ∷ transcript.dh_ephemeral_pub_a
    ∷ transcript.dh_ephemeral_pub_b
    ∷ transcript.kem_ephemeral_pub_a
    ∷ transcript.kem_ephemeral_pub_b
    ∷ transcript.ct_ephemeral_a
    ∷ transcript.ct_ephemeral_b
    ∷ transcript.ct_static_a
    ∷ transcript.ct_static_b
    ∷ []

unfoldable pub root_key : (Bytes → Bytes) → Secrets → Transcript → Bytes
root_key blake2b secrets transcript = hash blake2b (root_key_parts secrets transcript)

abbrev pub confirmation_label : Role → Bytes
confirmation_label role_a = confirmation_a_label
confirmation_label role_b = confirmation_b_label

unfoldable pub confirmation : (Bytes → Bytes → Bytes) → Bytes → Role → Bytes
confirmation keyed root_key role = kdf keyed root_key (confirmation_label role ∷ [])
