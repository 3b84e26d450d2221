-- ===== src/Relay/Codec.antt =====
-- crates/relay/src/api.rs: requests and responses as records.
pub mod RoundTrip
use onestein.Base.{
  ℕ, zero, suc, ◌+◌, Option, none, some, [], ◌∷◌, ◌++◌, ◌==◌, if◌then◌else◌, length, get_elem?,
  slice?, slice_from?, Result, ok, err, ◌>>=◌, ◌>>◌, guard, ok_or, or_err,
}
use onestein.Base.Bytes.{Bytes}
use onestein.Record.{Next, encode, reader, next}
use onestein.Crypto.{hash_len}
use onestein.Relay.{Right, write_right, read_right}
use onestein.Relay.Store.{
  Refusal, unknown_queue, bad_proof, too_large, queue_full, unknown_challenge, relay_version,
}
use onestein.Relay.Handle.{
  Request, register_request, challenge_request, write_request, read_request, delete_request,
  Response, challenge, blob_response, done, empty, refused, right_byte,
}

pub data WireError : Type 0 where
  malformed : WireError

abbrev pub queue_id_len : ℕ
queue_id_len = 32

abbrev pub proof_len : ℕ
proof_len = 64

-- The type byte and the payload of a request, in the order of `TYPE_REGISTER` to `TYPE_REFUSED`.
abbrev pub request_payload : Request → ℕ × Bytes
request_payload (register_request queue_id write_public read_public) =
    (0, queue_id ++ (write_public ++ read_public))
request_payload (challenge_request queue_id right) = (1, queue_id ++ (right_byte right ∷ []))
request_payload (write_request queue_id proof blob) = (3, queue_id ++ (proof ++ blob))
request_payload (read_request queue_id proof) = (4, queue_id ++ (proof ++ []))
request_payload (delete_request queue_id proof blob_id) = (6, queue_id ++ (proof ++ blob_id))

unfoldable pub encode_request : Request → Result WireError Bytes
encode_request req =
    or_err (encode relay_version (request_payload req).0 (request_payload req).1) malformed

-- One record, and nothing behind it.
abbrev pub only_one : Next → Result WireError (ℕ × Bytes)
only_one (none, r) = err malformed
only_one (some (err e), r) = err malformed
only_one (some (ok rec), r) = elim (next r).0 [
  | none ↦ ok (rec.record_type, rec.payload)
  | some more ↦ err malformed
]

unfoldable pub single : Bytes → Result WireError (ℕ × Bytes)
single bytes = only_one (next (reader bytes relay_version))

unfoldable pub field : ℕ → Bytes → ℕ → Result WireError Bytes
field n payload offset = ok_or (slice? offset (offset + n) payload) malformed

abbrev pub exactly : Bytes → ℕ → Result WireError (Unit {0})
exactly payload n = guard (length payload == n) malformed

abbrev pub right_of : Option ℕ → Result WireError Right
right_of none = err malformed
right_of (some b) =
    if b == 0 then ok write_right else if b == 1 then ok read_right else err malformed

abbrev pub parse_register : Bytes → Result WireError Request
parse_register payload = do
  exactly payload (queue_id_len + 64)
  queue_id ← field 32 payload 0
  write_public ← field 32 payload queue_id_len
  read_public ← field 32 payload (queue_id_len + 32)
  ok (register_request queue_id write_public read_public)

abbrev pub parse_challenge_request : Bytes → Result WireError Request
parse_challenge_request payload = do
  exactly payload (queue_id_len + 1)
  right ← right_of (get_elem? payload queue_id_len)
  queue_id ← field 32 payload 0
  ok (challenge_request queue_id right)

abbrev pub parse_write : Bytes → Result WireError Request
parse_write payload = do
  blob ← ok_or (slice_from? (queue_id_len + proof_len) payload) malformed
  queue_id ← field 32 payload 0
  proof ← field 64 payload queue_id_len
  ok (write_request queue_id proof blob)

abbrev pub parse_read : Bytes → Result WireError Request
parse_read payload = do
  exactly payload (queue_id_len + proof_len)
  queue_id ← field 32 payload 0
  proof ← field 64 payload queue_id_len
  ok (read_request queue_id proof)

abbrev pub parse_delete : Bytes → Result WireError Request
parse_delete payload = do
  exactly payload (queue_id_len + proof_len + hash_len)
  queue_id ← field 32 payload 0
  proof ← field 64 payload queue_id_len
  blob_id ← field 32 payload (queue_id_len + proof_len)
  ok (delete_request queue_id proof blob_id)

abbrev pub parse_request : ℕ → Bytes → Result WireError Request
parse_request record_type payload =
    if record_type == 0
    then parse_register payload
    else if record_type == 1
    then parse_challenge_request payload
    else if record_type == 3
    then parse_write payload
    else if record_type == 4
    then parse_read payload
    else if record_type == 6
    then parse_delete payload
    else err malformed

unfoldable pub decode_request : Bytes → Result WireError Request
decode_request bytes = do (record_type, payload) ← single bytes; parse_request record_type payload

abbrev pub refusal_byte : Refusal → ℕ
refusal_byte unknown_queue = 0
refusal_byte bad_proof = 1
refusal_byte too_large = 2
refusal_byte queue_full = 3
refusal_byte unknown_challenge = 4

abbrev pub response_payload : Response → ℕ × Bytes
response_payload (challenge text) = (2, text)
response_payload (blob_response blob_id blob) = (5, blob_id ++ blob)
response_payload done = (7, [])
response_payload empty = (8, [])
response_payload (refused refusal) = (9, refusal_byte refusal ∷ [])

unfoldable pub encode_response : Response → Result WireError Bytes
encode_response res =
    or_err (encode relay_version (response_payload res).0 (response_payload res).1) malformed

abbrev pub refusal_of : Option ℕ → Result WireError Refusal
refusal_of none = err malformed
refusal_of (some b) =
    if b == 0
    then ok unknown_queue
    else if b == 1
    then ok bad_proof
    else if b == 2
    then ok too_large
    else if b == 3
    then ok queue_full
    else if b == 4
    then ok unknown_challenge
    else err malformed

abbrev pub parse_challenge : Bytes → Result WireError Response
parse_challenge payload = do exactly payload 32; text ← field 32 payload 0; ok (challenge text)

abbrev pub parse_blob : Bytes → Result WireError Response
parse_blob payload = do
  blob ← ok_or (slice_from? hash_len payload) malformed
  blob_id ← field 32 payload 0
  ok (blob_response blob_id blob)

abbrev pub parse_refused : Bytes → Result WireError Response
parse_refused payload = do
  exactly payload 1
  refusal ← refusal_of (get_elem? payload 0)
  ok (refused refusal)

abbrev pub parse_response : ℕ → Bytes → Result WireError Response
parse_response record_type payload =
    if record_type == 2
    then parse_challenge payload
    else if record_type == 5
    then parse_blob payload
    else if record_type == 7
    then (exactly payload 0 >> ok done)
    else if record_type == 8
    then (exactly payload 0 >> ok empty)
    else if record_type == 9
    then parse_refused payload
    else err malformed

unfoldable pub decode_response : Bytes → Result WireError Response
decode_response bytes = do (record_type, payload) ← single bytes; parse_response record_type payload
