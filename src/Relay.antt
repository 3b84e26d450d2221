-- ===== src/Relay.antt =====
-- crates/relay/src/lib.rs: rights, registrations and proofs. Ed25519 is a parameter: which keys are
-- valid, and which signatures verify under a key.
pub mod Store
pub mod Handle
pub mod Bounds
pub mod Spent
pub mod Replay
pub mod Codec
pub mod Keys
use onestein.Base.{
  ℕ, zero, suc, Bool, ◌++◌, ltb, if◌then◌else◌, length, Result, ok, err, ◌>>=◌, ◌>>◌, guard,
}
use onestein.Base.Text.{ascii}
use onestein.Base.Bytes.{Bytes}

pub data Right : Type 0 where
  write_right read_right : Right

pub data ProofError : Type 0 where
  bad_signature : ProofError
  challenge_too_short : ℕ → ProofError
  malformed_key : ProofError

abbrev pub min_challenge_len : ℕ
min_challenge_len = 16

abbrev pub max_blob_len : ℕ
max_blob_len = 65536

abbrev pub max_queue_len : ℕ
max_queue_len = 16777216

abbrev pub proof_label : Right → Bytes
proof_label write_right = ascii "org.onestein.relay/WRITE_PROOF"
proof_label read_right = ascii "org.onestein.relay/READ_PROOF"

abbrev pub proof_message : Right → Bytes → Bytes
proof_message right challenge = proof_label right ++ challenge

abbrev pub long_enough : Bytes → Result ProofError (Unit {0})
long_enough challenge =
    if ltb (length challenge) min_challenge_len
    then err (challenge_too_short (length challenge))
    else ok tt

pub record Registration : Type 0 where
  pub write_public : Bytes
  pub read_public : Bytes

abbrev pub public_key : Registration → Right → Bytes
public_key reg write_right = reg.write_public
public_key reg read_right = reg.read_public

-- `Registration::check`. `verifies` takes the key, the message and the signature.
unfoldable pub check :
    (Bytes → Bool)
    → (Bytes → Bytes → Bytes → Bool)
    → Registration
    → Right
    → Bytes
    → Bytes
    → Result ProofError (Unit {0})
check valid_key verifies reg right challenge proof = do
  long_enough challenge
  guard (valid_key (public_key reg right)) malformed_key
  guard (verifies (public_key reg right) (proof_message right challenge) proof) bad_signature
