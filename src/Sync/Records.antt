-- ===== src/Sync/Records.antt =====
-- crates/sync/src/records.rs: the five records on the wire.
pub mod RoundTrip
pub mod Opportunity
use onestein.Base.{
  ℕ, zero, suc, Option, List, ◌==◌, if◌then◌else◌, length, Result, ok, err, ◌>>=◌, ◌>>◌, or_err,
}
use onestein.Base.Bytes.{Bytes}
use onestein.Record.{Record, encode, reader}
use onestein.Record.Stream.{drain}
use onestein.Sync.Identifiers.{SyncError, malformed, identifiers, parse_identifiers}
use onestein.Sync.Session.{SyncRecord, ack, message, offer, request, unavailable, unknown}
use onestein.Sync.Messages.{sync_version, SignedMessage, encode_message, decode_message}

abbrev pub type_ack : ℕ
type_ack = 0

abbrev pub type_message : ℕ
type_message = 1

abbrev pub type_offer : ℕ
type_offer = 2

abbrev pub type_request : ℕ
type_request = 3

abbrev pub type_unavailable : ℕ
type_unavailable = 4

abbrev pub record_payload : SyncRecord SignedMessage → Result SyncError (ℕ × Bytes)
record_payload (ack ids) = do payload ← identifiers ids; ok (type_ack, payload)
record_payload (offer ids) = do payload ← identifiers ids; ok (type_offer, payload)
record_payload (request ids) = do payload ← identifiers ids; ok (type_request, payload)
record_payload (unavailable ids) = do payload ← identifiers ids; ok (type_unavailable, payload)
record_payload (message signed) = do
  payload ← encode_message signed.message signed.signature
  ok (type_message, payload)
record_payload (unknown record_type) = err malformed

unfoldable pub encode_record : SyncRecord SignedMessage → Result SyncError Bytes
encode_record framed = do
  (record_type, payload) ← record_payload framed
  or_err (encode sync_version record_type payload) malformed

-- The record of one type, in the order of the type bytes.
unfoldable pub read_record : Record → Result SyncError (SyncRecord SignedMessage)
read_record framed =
    if framed.record_type == type_ack
    then (do ids ← parse_identifiers framed.payload; ok (ack ids))
    else if framed.record_type == type_message
    then (do signed ← decode_message framed.payload; ok (message signed))
    else if framed.record_type == type_offer
    then (do ids ← parse_identifiers framed.payload; ok (offer ids))
    else if framed.record_type == type_request
    then (do ids ← parse_identifiers framed.payload; ok (request ids))
    else if framed.record_type == type_unavailable
    then (do ids ← parse_identifiers framed.payload; ok (unavailable ids))
    else ok (unknown framed.record_type)

-- A record takes a byte at least, so one round more than there are bytes is enough.
unfoldable pub decode_records : Bytes → Option (Result SyncError (List (SyncRecord SignedMessage)))
decode_records input =
    drain (λ _. malformed) read_record (suc (length input)) (reader input sync_version)
