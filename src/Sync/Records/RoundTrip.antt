-- ===== src/Sync/Records/RoundTrip.antt =====
-- crates/sync/src/records.rs: a stream of records is read as it was written.
use onestein.Base.{
  ℕ, suc, ◌≤◌, ◌≡◌, refl, ap, ◌∙◌, some, List, arith, length, All, ok, ◌>>=◌, >>=-eq-ok, or_err-inv,
}
use onestein.Base.Bytes.{Bytes}
use onestein.Record.{encode}
use onestein.Record.Read.{encode-pos}
use onestein.Record.Codec.{write_all, WrittenAs, drain-write_all, length-write_all}
use onestein.Sync.Identifiers.{
  malformed, identifiers, parse_identifiers, IsIdentifier, parse_identifiers-identifiers,
}
use onestein.Sync.Messages.{sync_version, SignedMessage, encode_message, signature_len}
use onestein.Sync.Messages.Naming.{IsMessage}
use onestein.Sync.Messages.RoundTrip.{decode_message-encode_message}
use onestein.Sync.Session.{SyncRecord, ack, message, offer, request, unavailable, unknown}
use onestein.Sync.Records.{
  record_payload, encode_record, read_record, decode_records, type_ack, type_message, type_offer,
  type_request, type_unavailable,
}

abbrev pub IsSigned : SignedMessage → Type 0
IsSigned signed = IsMessage signed.message × (length signed.signature ≡ signature_len)

-- The arrays of a record have the lengths of their types.
abbrev pub IsSyncRecord : SyncRecord SignedMessage → Type 0
IsSyncRecord (ack ids) = All IsIdentifier ids
IsSyncRecord (message signed) = IsSigned signed
IsSyncRecord (offer ids) = All IsIdentifier ids
IsSyncRecord (request ids) = All IsIdentifier ids
IsSyncRecord (unavailable ids) = All IsIdentifier ids
IsSyncRecord (unknown record_type) = Unit {0}

abbrev typed : ℕ → Bytes → ℕ × Bytes
typed kind bs = (kind, bs)

listed :
    (kind : ℕ) (ids : List Bytes) (record_type : ℕ) (payload : Bytes)
    → All IsIdentifier ids
    → (identifiers ids >>= λ bs. ok (typed kind bs)) ≡ ok (record_type, payload)
    → (kind ≡ record_type) × (parse_identifiers payload ≡ ok ids)
listed kind ids record_type payload good h =
    let (bs, hb, h') = >>=-eq-ok (identifiers ids) _ h in
    let same : bs ≡ payload = cc in
    (cc, parse_identifiers-identifiers ids payload good (hb ∙ ap ok same))

read-record_payload :
    (value : SyncRecord SignedMessage) (record_type : ℕ) (payload : Bytes)
    → IsSyncRecord value
    → record_payload value ≡ ok (record_type, payload)
    → read_record (record { version = sync_version; record_type = record_type; payload = payload })
      ≡ ok value
unfolding read_record
read-record_payload (ack ids) record_type payload good h =
    let (kind, back) = listed type_ack ids record_type payload good h in rw (← kind, back) refl
read-record_payload (message signed) record_type payload good h =
    let (bs, hb, h') = >>=-eq-ok (encode_message signed.message signed.signature) _ h in
    let kind : type_message ≡ record_type = cc in
    let same : bs ≡ payload = cc in
    let back =
      decode_message-encode_message signed.message signed.signature payload good.0 good.1
        (hb ∙ ap ok same) in
    rw (← kind, back) refl
read-record_payload (offer ids) record_type payload good h =
    let (kind, back) = listed type_offer ids record_type payload good h in rw (← kind, back) refl
read-record_payload (request ids) record_type payload good h =
    let (kind, back) = listed type_request ids record_type payload good h in rw (← kind, back) refl
read-record_payload (unavailable ids) record_type payload good h =
    let (kind, back) = listed type_unavailable ids record_type payload good h in
    rw (← kind, back) refl
read-record_payload (unknown t) record_type payload good h = cc

encode_record-WrittenAs :
    (value : SyncRecord SignedMessage) (bs : Bytes)
    → IsSyncRecord value
    → encode_record value ≡ ok bs
    → WrittenAs (λ _. malformed) read_record encode_record sync_version value bs
unfolding encode_record
encode_record-WrittenAs value bs good h =
    let ((record_type, payload), hp, h') = >>=-eq-ok (record_payload value) _ h in
    record {
      framed = record { version = sync_version; record_type = record_type; payload = payload };
      of_version = refl;
      encoded = or_err-inv (encode sync_version record_type payload) malformed h';
      read_back = read-record_payload value record_type payload good hp;
    }

length-encode_record :
    (value : SyncRecord SignedMessage) (bs : Bytes) → encode_record value ≡ ok bs → 1 ≤ length bs
unfolding encode_record
length-encode_record value bs h =
    let ((record_type, payload), hp, h') = >>=-eq-ok (record_payload value) _ h in
    encode-pos sync_version record_type payload bs
      (or_err-inv (encode sync_version record_type payload) malformed h')

-- A stream of records is read as it was written.
pub decode_records-encode_record :
    (values : List (SyncRecord SignedMessage)) (input : Bytes)
    → All IsSyncRecord values
    → write_all (λ _. malformed) read_record encode_record sync_version values ≡ ok input
    → decode_records input ≡ some (ok values)
unfolding decode_records
decode_records-encode_record values input good h =
    drain-write_all (λ _. malformed) read_record encode_record sync_version IsSyncRecord
      encode_record-WrittenAs values input (suc (length input)) good h
      (omega (
        arith,
        length-write_all (λ _. malformed) read_record encode_record sync_version
            length-encode_record values input h,
      ))
