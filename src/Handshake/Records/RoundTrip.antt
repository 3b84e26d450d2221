-- ===== src/Handshake/Records/RoundTrip.antt =====
-- crates/handshake/src/records.rs: a stream of records is read as it was written.
use onestein.Base.{
  ℕ, suc, ◌+◌, ◌≤◌, ◌≡◌, refl, ap, ◌∙◌, true, some, List, [], ◌++◌, arith, ◌==◌, ==_iff, length,
  slice?, All, length-append, ok, >>=-eq-ok, map_err-inv,
}
use onestein.Base.Bytes.{Bytes}
use onestein.Base.Slices.{whole_slice, slice?-front, slice?-skip}
use onestein.Crypto.{hash_len}
use onestein.Record.{encode}
use onestein.Record.Read.{encode-pos}
use onestein.Record.Codec.{write_all, WrittenAs, drain-write_all, length-write_all}
use onestein.Handshake.{
  record_error, handshake_version, x25519_len, kem_encapsulation_key_len, kem_ciphertext_len,
}
use onestein.Handshake.Records.{
  HandshakeRecord, ephemeral_keys, device_certificate, certificate_id, certificate_request,
  encapsulations, confirmation, unknown, record_payload, encode_record, two_fields, one_field,
  read_record, decode_records,
}

-- The arrays of a record have the lengths of their types.
abbrev pub IsHandshakeRecord : HandshakeRecord → Type 0
IsHandshakeRecord (ephemeral_keys x25519 kem) =
    (length x25519 ≡ x25519_len) × (length kem ≡ kem_encapsulation_key_len)
IsHandshakeRecord (device_certificate bytes) = Unit {0}
IsHandshakeRecord (certificate_id id) = length id ≡ hash_len
IsHandshakeRecord certificate_request = Unit {0}
IsHandshakeRecord (encapsulations to_ephemeral to_static) =
    (length to_ephemeral ≡ kem_ciphertext_len) × (length to_static ≡ kem_ciphertext_len)
IsHandshakeRecord (confirmation mac) = length mac ≡ hash_len
IsHandshakeRecord (unknown record_type) = Unit {0}

two_fields-append :
    (n k : ℕ) (first second : Bytes)
    → length first ≡ n
    → length second ≡ k
    → two_fields n k (first ++ second) ≡ ok (first, second)
two_fields-append n k first second h h' =
    let whole : (length (first ++ second) == n + k) ≡ true =
      (==_iff _ (n + k)).1 (omega (arith, length-append first second, h, h')) in
    let upto : 0 + n ≡ n = omega arith in
    let front : slice? 0 (0 + n) (first ++ second) ≡ some first =
      ap (λ j. slice? 0 j (first ++ second)) upto ∙ slice?-front first second n h in
    let from : n ≡ n + 0 = omega arith in
    let back : slice? n (n + k) (first ++ second) ≡ some second =
      ap (λ i. slice? i (n + k) (first ++ second)) from
      ∙ slice?-skip first second n 0 k h
      ∙ whole_slice second k h' in
    rw (whole, front, back) refl

one_field-whole : (bs : Bytes) → length bs ≡ hash_len → one_field bs ≡ ok bs
one_field-whole bs h = rw ((==_iff _ hash_len).1 h, whole_slice bs hash_len h) refl

read-record_payload :
    (value : HandshakeRecord) (record_type : ℕ) (payload : Bytes)
    → IsHandshakeRecord value
    → record_payload value ≡ ok (record_type, payload)
    → read_record
        (record { version = handshake_version; record_type = record_type; payload = payload })
      ≡ ok value
unfolding read_record
read-record_payload (ephemeral_keys x kem) t p good h =
    let (kind, same) : (0 ≡ t) × (x ++ kem ≡ p) = (cc, cc) in
    rw (← kind, ← same, two_fields-append 32 1184 x kem good.0 good.1) refl
read-record_payload (device_certificate bytes) t p good h =
    let (kind, same) : (1 ≡ t) × (bytes ≡ p) = (cc, cc) in rw (← kind, ← same) refl
read-record_payload (certificate_id id) t p good h =
    let (kind, same) : (2 ≡ t) × (id ≡ p) = (cc, cc) in
    rw (← kind, ← same, one_field-whole id good) refl
read-record_payload certificate_request t p good h =
    let (kind, same) : (3 ≡ t) × ([] ≡ p) = (cc, cc) in rw (← kind, ← same) refl
read-record_payload (encapsulations e s) t p good h =
    let (kind, same) : (4 ≡ t) × (e ++ s ≡ p) = (cc, cc) in
    rw (← kind, ← same, two_fields-append 1088 1088 e s good.0 good.1) refl
read-record_payload (confirmation mac) t p good h =
    let (kind, same) : (5 ≡ t) × (mac ≡ p) = (cc, cc) in
    rw (← kind, ← same, one_field-whole mac good) refl
read-record_payload (unknown record_type) t p good h = cc

encode_record-WrittenAs :
    (value : HandshakeRecord) (bs : Bytes)
    → IsHandshakeRecord value
    → encode_record value ≡ ok bs
    → WrittenAs record_error read_record encode_record handshake_version value bs
unfolding encode_record
encode_record-WrittenAs value bs good h =
    let ((record_type, payload), hp, h') = >>=-eq-ok (record_payload value) _ h in
    record {
      framed = record { version = handshake_version; record_type = record_type; payload = payload };
      of_version = refl;
      encoded = map_err-inv record_error (encode handshake_version record_type payload) h';
      read_back = read-record_payload value record_type payload good hp;
    }

length-encode_record :
    (value : HandshakeRecord) (bs : Bytes) → encode_record value ≡ ok bs → 1 ≤ length bs
unfolding encode_record
length-encode_record value bs h =
    let ((record_type, payload), hp, h') = >>=-eq-ok (record_payload value) _ h in
    encode-pos handshake_version record_type payload bs
      (map_err-inv record_error (encode handshake_version record_type payload) h')

-- A stream of handshake records is read as it was written.
pub decode_records-write_all :
    (values : List HandshakeRecord) (input : Bytes)
    → All IsHandshakeRecord values
    → write_all record_error read_record encode_record handshake_version values ≡ ok input
    → decode_records input ≡ some (ok values)
unfolding decode_records
decode_records-write_all values input good h =
    drain-write_all record_error read_record encode_record handshake_version IsHandshakeRecord
      encode_record-WrittenAs values input (suc (length input)) good h
      (omega (
        arith,
        length-write_all record_error read_record encode_record handshake_version
            length-encode_record values input h,
      ))
