-- ===== src/Sync/Messages.antt =====
-- crates/sync/src/lib.rs and crates/sync/src/message.rs: the names of groups and messages, the payload of
-- a message, and the check of its signature. BLAKE2b and Ed25519 are parameters.
pub mod Naming
pub mod RoundTrip
pub mod Exact
use onestein.Base.{
  ℕ, zero, suc, ◌+◌, ◌*◌, Bool, List, [], ◌∷◌, ◌++◌, leb, ◌==◌, length, slice?, slice_from?, Result,
  ok, ◌>>=◌, ◌>>◌, guard, ok_or,
}
use onestein.Base.Bytes.{Bytes, to_be, from_be}
use onestein.Base.Text.{ascii}
use onestein.Crypto.{hash_len, hash}
use onestein.Sync.Identifiers.{
  SyncError, group_descriptor_too_long, message_body_too_long, malformed, bad_signature,
}

abbrev pub sync_version : ℕ
sync_version = 1

abbrev pub max_group_descriptor_len : ℕ
max_group_descriptor_len = 16384

abbrev pub max_message_body_len : ℕ
max_message_body_len = 32768

abbrev pub group_id_label : Bytes
group_id_label = ascii "org.onestein.sync/GROUP_ID"

abbrev pub message_block_label : Bytes
message_block_label = ascii "org.onestein.sync/MESSAGE_BLOCK"

abbrev pub message_id_label : Bytes
message_id_label = ascii "org.onestein.sync/MESSAGE_ID"

abbrev pub message_signature_label : Bytes
message_signature_label = ascii "org.onestein.sync/MESSAGE_SIGNATURE"

abbrev pub signature_len : ℕ
signature_len = 64

abbrev pub message_header_len : ℕ
message_header_len = hash_len + 8 + hash_len + hash_len + signature_len

-- An identifier is its bytes.
pub record Message : Type 0 where
  pub group_id : Bytes
  pub timestamp_ms : ℕ
  pub author : Bytes
  pub device_key : Bytes
  pub body : Bytes

pub record SignedMessage : Type 0 where
  pub message : Message
  pub signature : Bytes

-- The client's name is the bytes of its UTF-8.
abbrev pub group_parts : Bytes → ℕ → Bytes → List Bytes
group_parts client_id client_major_version group_descriptor =
    group_id_label
    ∷ (sync_version ∷ [])
    ∷ client_id
    ∷ to_be 4 client_major_version
    ∷ group_descriptor
    ∷ []

abbrev pub body_parts : Bytes → List Bytes
body_parts body = message_block_label ∷ (sync_version ∷ []) ∷ body ∷ []

-- All but the last part, which is the hash of the body.
abbrev pub message_parts : Message → Bytes → List Bytes
message_parts message body_hash =
    message_id_label
    ∷ (sync_version ∷ [])
    ∷ message.group_id
    ∷ to_be 8 message.timestamp_ms
    ∷ message.author
    ∷ message.device_key
    ∷ body_hash
    ∷ []

module _ (blake2b : Bytes → Bytes) where
  unfoldable pub group_id : Bytes → ℕ → Bytes → Result SyncError Bytes
  group_id client_id client_major_version group_descriptor = do
    guard (leb (length group_descriptor) max_group_descriptor_len)
        (group_descriptor_too_long (length group_descriptor))
    ok (hash blake2b (group_parts client_id client_major_version group_descriptor))

  unfoldable pub body_hash : Bytes → Result SyncError Bytes
  body_hash body = do
    guard (leb (length body) max_message_body_len) (message_body_too_long (length body))
    ok (hash blake2b (body_parts body))

  unfoldable pub message_id : Message → Result SyncError Bytes
  message_id message = do
    hashed ← body_hash message.body
    ok (hash blake2b (message_parts message hashed))

  unfoldable pub to_sign : Message → Result SyncError Bytes
  to_sign message = do
    id ← message_id message
    ok (hash blake2b (message_signature_label ∷ (sync_version ∷ []) ∷ id ∷ []))

  -- Ed25519: which 32 bytes are a key, and whether a signature of the key is on a text.
  unfoldable pub verify :
      (Bytes → Bool) → (Bytes → Bytes → Bytes → Bool) → SignedMessage → Result SyncError (Unit {0})
  verify valid_key verifies signed = do
    guard (valid_key signed.message.device_key) bad_signature
    text ← to_sign signed.message
    guard (verifies signed.message.device_key text signed.signature) bad_signature

abbrev pub message_bytes : Message → Bytes → Bytes
message_bytes message signature =
    message.group_id
    ++ (to_be 8 message.timestamp_ms
        ++ (message.author ++ (message.device_key ++ (signature ++ message.body))))

unfoldable pub encode_message : Message → Bytes → Result SyncError Bytes
encode_message message signature = do
  guard (leb (length message.body) max_message_body_len)
      (message_body_too_long (length message.body))
  ok (message_bytes message signature)

-- `at`, and the conversion to an array of that length.
abbrev pub array_at : ℕ → ℕ → Bytes → Result SyncError Bytes
array_at offset n payload = do
  bs ← ok_or (slice? offset (offset + n) payload) malformed
  guard (length bs == n) malformed
  ok bs

unfoldable pub decode_message : Bytes → Result SyncError SignedMessage
decode_message payload = do
  body ← ok_or (slice_from? message_header_len payload) malformed
  guard (leb (length body) max_message_body_len) malformed
  group_id ← array_at 0 hash_len payload
  timestamp ← array_at hash_len 8 payload
  author ← array_at (hash_len + 8) hash_len payload
  device_key ← array_at (hash_len + 8 + hash_len) hash_len payload
  signature ← array_at (hash_len * 3 + 8) signature_len payload
  ok (record {
    message = record {
      group_id = group_id;
      timestamp_ms = from_be timestamp;
      author = author;
      device_key = device_key;
      body = body;
    };
    signature = signature;
  })
