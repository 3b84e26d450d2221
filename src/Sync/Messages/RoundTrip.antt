-- ===== src/Sync/Messages/RoundTrip.antt =====
-- crates/sync/src/message.rs: the payload of a message is read as it was written, and nothing but what is
-- written is read.
use onestein.Base.{
  ℕ, ◌+◌, ◌≡◌, refl, ◌∙◌, true, some, arith, leb, ==_iff, length, slice?, slice_from?, ok,
}
use onestein.Base.Bytes.{Bytes, to_be, length-to_be, from_be-to_be_lt}
use onestein.Base.Slices.{slice?-front, slice?-skip, slice_from?-skip, slice_from?-zero}
use onestein.Sync.Messages.{
  Message, message_bytes, encode_message, array_at, decode_message, signature_len,
  max_message_body_len, message_header_len,
}
use onestein.Sync.Messages.Naming.{IsMessage}

array_at-some :
    (offset n : ℕ) (payload bs : Bytes)
    → slice? offset (offset + n) payload ≡ some bs
    → length bs ≡ n
    → array_at offset n payload ≡ ok bs
array_at-some offset n payload bs h size = rw (h, (==_iff (length bs) n).1 size) refl

encode_message-ok :
    (message : Message) (signature payload : Bytes)
    → encode_message message signature ≡ ok payload
    → (leb (length message.body) max_message_body_len ≡ true)
      × (message_bytes message signature ≡ payload)
unfolding encode_message
encode_message-ok message signature payload h = ground arith

-- The parts of a payload are cut where they were joined.
module _ (message : Message) (signature : Bytes) (good : IsMessage message)
    (hs : length signature ≡ signature_len) where
  abbrev wire : Bytes
  wire = message_bytes message signature

  abbrev time : Bytes
  time = to_be 8 message.timestamp_ms

  ht : length time ≡ 8
  ht = length-to_be 8 message.timestamp_ms

  body_part : slice_from? message_header_len wire ≡ some message.body
  body_part =
      slice_from?-skip message.group_id _ 32 136 good.group_array
      ∙ slice_from?-skip time _ 8 128 ht
      ∙ slice_from?-skip message.author _ 32 96 good.author_array
      ∙ slice_from?-skip message.device_key _ 32 64 good.key_array
      ∙ slice_from?-skip signature message.body 64 0 hs
      ∙ slice_from?-zero message.body

  time_part : slice? 32 40 wire ≡ some time
  time_part = slice?-skip message.group_id _ 32 0 8 good.group_array ∙ slice?-front time _ 8 ht

  author_part : slice? 40 72 wire ≡ some message.author
  author_part =
      slice?-skip message.group_id _ 32 8 40 good.group_array
      ∙ slice?-skip time _ 8 0 32 ht
      ∙ slice?-front message.author _ 32 good.author_array

  key_part : slice? 72 104 wire ≡ some message.device_key
  key_part =
      slice?-skip message.group_id _ 32 40 72 good.group_array
      ∙ slice?-skip time _ 8 32 64 ht
      ∙ slice?-skip message.author _ 32 0 32 good.author_array
      ∙ slice?-front message.device_key _ 32 good.key_array

  signature_part : slice? 104 168 wire ≡ some signature
  signature_part =
      slice?-skip message.group_id _ 32 72 136 good.group_array
      ∙ slice?-skip time _ 8 64 128 ht
      ∙ slice?-skip message.author _ 32 32 96 good.author_array
      ∙ slice?-skip message.device_key _ 32 0 64 good.key_array
      ∙ slice?-front signature message.body 64 hs

-- A message is read as it was written.
pub decode_message-encode_message :
    (message : Message) (signature payload : Bytes)
    → IsMessage message
    → length signature ≡ signature_len
    → encode_message message signature ≡ ok payload
    → decode_message payload ≡ ok (record { message = message; signature = signature })
unfolding decode_message
decode_message-encode_message message signature payload good size h =
    let (room, whole) = encode_message-ok message signature payload h in
    rw (← whole) (
      rw
        (
          body_part message signature good size,
          room,
          array_at-some 0 32 _ _ (slice?-front message.group_id _ 32 good.group_array)
              good.group_array,
          array_at-some 32 8 _ _ (time_part message signature good size)
              (ht message signature good size),
          array_at-some 40 32 _ _ (author_part message signature good size) good.author_array,
          array_at-some 72 32 _ _ (key_part message signature good size) good.key_array,
          array_at-some 104 64 _ _ (signature_part message signature good size) size,
          from_be-to_be_lt 8 message.timestamp_ms good.time_u64,
        )
        refl)
