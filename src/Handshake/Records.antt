-- ===== src/Handshake/Records.antt =====
-- crates/handshake/src/records.rs: the six records on the wire.
pub mod RoundTrip
use onestein.Base.{
  ℕ, zero, suc, ◌+◌, Option, List, [], ◌++◌, ◌==◌, if◌then◌else◌, length, slice?, Result, ok, err,
  ◌>>=◌, ◌>>◌, guard, ok_or, map_err,
}
use onestein.Base.Bytes.{Bytes}
use onestein.Crypto.{hash_len}
use onestein.Record.{Record, encode, reader}
use onestein.Record.Stream.{drain}
use onestein.Handshake.{
  Error, record_error, wrong_length, handshake_version, x25519_len, kem_encapsulation_key_len,
  kem_ciphertext_len,
}

abbrev pub type_ephemeral_keys : ℕ
type_ephemeral_keys = 0

abbrev pub type_device_certificate : ℕ
type_device_certificate = 1

abbrev pub type_certificate_id : ℕ
type_certificate_id = 2

abbrev pub type_certificate_request : ℕ
type_certificate_request = 3

abbrev pub type_encapsulations : ℕ
type_encapsulations = 4

abbrev pub type_confirmation : ℕ
type_confirmation = 5

pub data HandshakeRecord : Type 0 where
  -- The X25519 key, then the ML-KEM key.
  ephemeral_keys : Bytes → Bytes → HandshakeRecord
  device_certificate : Bytes → HandshakeRecord
  certificate_id : Bytes → HandshakeRecord
  certificate_request : HandshakeRecord
  -- To the ephemeral key, then to the static one.
  encapsulations : Bytes → Bytes → HandshakeRecord
  confirmation : Bytes → HandshakeRecord
  unknown : ℕ → HandshakeRecord

abbrev pub record_payload : HandshakeRecord → Result Error (ℕ × Bytes)
record_payload (ephemeral_keys x25519 kem) = ok (type_ephemeral_keys, x25519 ++ kem)
record_payload (device_certificate bytes) = ok (type_device_certificate, bytes)
record_payload (certificate_id id) = ok (type_certificate_id, id)
record_payload certificate_request = ok (type_certificate_request, [])
record_payload (encapsulations to_ephemeral to_static) =
    ok (type_encapsulations, to_ephemeral ++ to_static)
record_payload (confirmation mac) = ok (type_confirmation, mac)
record_payload (unknown record_type) = err (wrong_length 0 record_type)

unfoldable pub encode_record : HandshakeRecord → Result Error Bytes
encode_record framed = do
  (record_type, payload) ← record_payload framed
  map_err record_error (encode handshake_version record_type payload)

-- `field::<N>`, where a range that is there has N bytes.
abbrev pub field : ℕ → Bytes → ℕ → ℕ → Result Error Bytes
field n payload offset expected =
    ok_or (slice? offset (offset + n) payload) (wrong_length expected (length payload))

abbrev pub exactly : Bytes → ℕ → Result Error (Unit {0})
exactly payload expected =
    guard (length payload == expected) (wrong_length expected (length payload))

-- Two arrays on end that are all of the payload.
abbrev pub two_fields : ℕ → ℕ → Bytes → Result Error (Bytes × Bytes)
two_fields n k payload = do
  exactly payload (n + k)
  first ← field n payload 0 (n + k)
  second ← field k payload n (n + k)
  ok (first, second)

abbrev pub one_field : Bytes → Result Error Bytes
one_field payload = do exactly payload hash_len; field hash_len payload 0 hash_len

unfoldable pub read_record : Record → Result Error HandshakeRecord
read_record framed =
    if framed.record_type == type_ephemeral_keys
    then (do
      (x25519, kem) ← two_fields x25519_len kem_encapsulation_key_len framed.payload
      ok (ephemeral_keys x25519 kem))
    else if framed.record_type == type_device_certificate
    then ok (device_certificate framed.payload)
    else if framed.record_type == type_certificate_id
    then (do id ← one_field framed.payload; ok (certificate_id id))
    else if framed.record_type == type_certificate_request
    then (do exactly framed.payload 0; ok certificate_request)
    else if framed.record_type == type_encapsulations
    then (do
      (to_ephemeral, to_static) ← two_fields kem_ciphertext_len kem_ciphertext_len framed.payload
      ok (encapsulations to_ephemeral to_static))
    else if framed.record_type == type_confirmation
    then (do mac ← one_field framed.payload; ok (confirmation mac))
    else ok (unknown framed.record_type)

-- A record takes a byte at least, so one round more than there are bytes is enough.
unfoldable pub decode_records : Bytes → Option (Result Error (List HandshakeRecord))
decode_records input =
    drain record_error read_record (suc (length input)) (reader input handshake_version)
