-- ===== src/Relay/Keys.antt =====
-- crates/relay/src/lib.rs: the names and the keys of a queue, and the proof of a right. Keyed BLAKE2b and
-- Ed25519 are parameters.
pub mod Proofs
pub mod Names
use onestein.Base.{ℕ, zero, suc, List, [], ◌∷◌, ◌++◌, Result, ok, ◌>>=◌, ◌>>◌}
use onestein.Base.Bytes.{Bytes, to_be}
use onestein.Base.Text.{ascii}
use onestein.Crypto.{kdf}
use onestein.Relay.{
  Right, write_right, read_right, ProofError, Registration, proof_message, long_enough,
}

abbrev pub queue_a_label : Bytes
queue_a_label = ascii "org.onestein.relay/QUEUE_A"

abbrev pub queue_b_label : Bytes
queue_b_label = ascii "org.onestein.relay/QUEUE_B"

abbrev pub write_label : Bytes
write_label = ascii "org.onestein.relay/WRITE"

abbrev pub read_label : Bytes
read_label = ascii "org.onestein.relay/READ"

pub data Direction : Type 0 where
  a_to_b b_to_a : Direction

abbrev pub queue_label : Direction → Bytes
queue_label a_to_b = queue_a_label
queue_label b_to_a = queue_b_label

abbrev pub key_parts : Bytes → Bytes → ℕ → List Bytes
key_parts label relay_id period = label ∷ relay_id ∷ to_be 8 period ∷ []

-- `format!("{relay_id}/a")`, by the bytes of the text.
abbrev pub scope : Direction → Bytes → Bytes
scope a_to_b relay_id = relay_id ++ ascii "/a"
scope b_to_a relay_id = relay_id ++ ascii "/b"

-- The seeds of the two signing keys.
pub record QueueKeys : Type 0 where
  pub write : Bytes
  pub read : Bytes

module _ (keyed : Bytes → Bytes → Bytes) where
  unfoldable pub derive_key : Bytes → Bytes → Bytes → ℕ → Bytes
  derive_key root_key label relay_id period = kdf keyed root_key (key_parts label relay_id period)

  unfoldable pub queue_id : Bytes → Direction → Bytes → ℕ → Bytes
  queue_id root_key direction relay_id period =
      derive_key root_key (queue_label direction) relay_id period

  unfoldable pub queue_keys : Bytes → Direction → Bytes → ℕ → QueueKeys
  queue_keys root_key direction relay_id period = record {
    write = derive_key root_key write_label (scope direction relay_id) period;
    read = derive_key root_key read_label (scope direction relay_id) period;
  }

-- Ed25519: the public key of a seed.
unfoldable pub registration : (Bytes → Bytes) → QueueKeys → Registration
registration public_of keys = record {
  write_public = public_of keys.write;
  read_public = public_of keys.read;
}

abbrev pub signing_key : QueueKeys → Right → Bytes
signing_key keys write_right = keys.write
signing_key keys read_right = keys.read

-- `sign` takes the seed and the text.
unfoldable pub prove : (Bytes → Bytes → Bytes) → QueueKeys → Right → Bytes → Result ProofError Bytes
prove sign keys right challenge = do
  long_enough challenge
  ok (sign (signing_key keys right) (proof_message right challenge))
