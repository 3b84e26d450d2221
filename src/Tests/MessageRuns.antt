-- ===== src/Tests/MessageRuns.antt =====
-- crates/sync: messages and records at concrete inputs. The hash keeps 32 bytes from the front.
use onestein.Base.{
  ◌≡◌, refl, ◌⊎◌, some, List, [], ◌∷◌, ◌++◌, arith, replicate, All, Result, ok, err,
}
use onestein.Base.Bytes.{fill, length-fill, Bytes, IsByte}
use onestein.Base.Text.{are_bytes→IsByte}
use onestein.Crypto.{frame, hash}
use onestein.Crypto.Collisions.{Collision}
use onestein.Sync.Identifiers.{malformed, identifiers}
use onestein.Sync.Messages.{
  Message, SignedMessage, body_hash, message_id, encode_message, decode_message,
}
use onestein.Sync.Messages.Naming.{IsMessage, message_id_binds}
use onestein.Sync.Messages.Exact.{encode_message-decode_message}
use onestein.Sync.Records.Opportunity.{decode_records-plan}
use onestein.Sync.Peer.{new, on_peer_requested}
use onestein.Sync.Session.{Shared, interactive, plan, plan_loop, choose, SyncRecord, ack, message}
use onestein.Sync.Records.{encode_record, read_record, decode_records}
use onestein.Sync.Records.RoundTrip.{decode_records-encode_record}
use onestein.Record.{encode}
use onestein.Record.Codec.{write_all}

abbrev a_message : Message
a_message = record {
  group_id = replicate 32 1;
  timestamp_ms = 258;
  author = replicate 32 2;
  device_key = replicate 32 3;
  body = 4 ∷ 5 ∷ [];
}

abbrev b_message : Message
b_message = record a_message { timestamp_ms = 259 }

a_message-IsMessage : IsMessage a_message
a_message-IsMessage = record {
  group_array = refl;
  author_array = refl;
  key_array = refl;
  time_u64 = omega arith;
}

b_message-IsMessage : IsMessage b_message
b_message-IsMessage = record {
  group_array = refl;
  author_array = refl;
  key_array = refl;
  time_u64 = omega arith;
}

-- The label alone fills what this hash keeps.
abbrev front_hash : Bytes → Bytes
front_hash bs = fill 32 bs

abbrev value_of {ℓ} : {E : Type ℓ} → Result E Bytes → Bytes
value_of (ok bs) = bs
value_of (err e) = []

abbrev an_id : Bytes
an_id = value_of (message_id front_hash a_message)

run_id : message_id front_hash a_message ≡ ok an_id
unfolding message_id body_hash
run_id = refl

run_other_id : message_id front_hash b_message ≡ ok an_id
unfolding message_id body_hash hash frame
run_other_id = refl

message_id_binds_example : (a_message ≡ b_message) ⊎ Collision front_hash
message_id_binds_example =
    message_id_binds front_hash a_message b_message an_id (length-fill 32) a_message-IsMessage
      b_message-IsMessage run_id run_other_id

abbrev a_payload : Bytes
a_payload =
    replicate 32 1
    ++ (0
        ∷ 0
        ∷ 0
        ∷ 0
        ∷ 0
        ∷ 0
        ∷ 1
        ∷ 2
        ∷ (replicate 32 2 ++ (replicate 32 3 ++ (replicate 64 6 ++ 4 ∷ 5 ∷ []))))

abbrev signed : SignedMessage
signed = record { message = a_message; signature = replicate 64 6 }

run_decode : decode_message a_payload ≡ ok signed
unfolding decode_message
run_decode = refl

run_short : decode_message (replicate 167 0) ≡ err malformed
unfolding decode_message
run_short = refl

a_payload-IsByte : All IsByte a_payload
a_payload-IsByte = are_bytes→IsByte a_payload refl

encode_message-decode_message_example : encode_message a_message (replicate 64 6) ≡ ok a_payload
encode_message-decode_message_example =
    encode_message-decode_message a_payload signed a_payload-IsByte run_decode

abbrev values : List (SyncRecord SignedMessage)
values = ack (replicate 32 9 ∷ []) ∷ message signed ∷ []

abbrev stream : Bytes
stream = (1 ∷ 0 ∷ 0 ∷ 32 ∷ replicate 32 9) ++ (1 ∷ 1 ∷ 0 ∷ 170 ∷ a_payload)

run_write : write_all (λ _. malformed) read_record encode_record 1 values ≡ ok stream
unfolding encode_record encode identifiers encode_message
run_write = refl

decode_records-encode_record_example : decode_records stream ≡ some (ok values)
decode_records-encode_record_example =
    decode_records-encode_record values stream ((refl, tt), ((a_message-IsMessage, refl), tt))
      run_write

-- The message is asked for, and another is wanted.
abbrev held_here : List (Shared SignedMessage)
held_here = record { id = replicate 32 9; state = on_peer_requested new; body = some signed } ∷ []

abbrev planned : List (SyncRecord SignedMessage)
planned = (plan interactive 1000 60 held_here (replicate 32 8 ∷ [])).1

abbrev planned_stream : Bytes
planned_stream = value_of (write_all (λ _. malformed) read_record encode_record 1 planned)

run_planned : write_all (λ _. malformed) read_record encode_record 1 planned ≡ ok planned_stream
unfolding encode_record encode identifiers encode_message plan plan_loop choose
run_planned = refl

decode_records-plan_example : decode_records planned_stream ≡ some (ok planned)
decode_records-plan_example =
    decode_records-plan interactive 1000 60 held_here (replicate 32 8 ∷ [])
      ((refl, (a_message-IsMessage, refl)), tt) (refl, tt) planned_stream run_planned
