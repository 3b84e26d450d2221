-- ===== src/Tests/RelayRuns.antt =====
-- crates/relay at a concrete history. The hash keeps the first bytes, and a signature is good when it is
-- the key.
use onestein.Base.{
  ℕ, ◌≡◌, refl, sym, ◌∙◌, Bool, true, List, [], ◌∷◌, ◌++◌, arith, take, replicate, bytes_eq, ok,
}
use onestein.Base.Bytes.{Bytes}
use onestein.Relay.{read_right, write_right, check}
use onestein.Base.Maps.{Entry}
use onestein.Relay.Store.{
  Blob, Queue, blob_id, write, expire, registration_of, unknown_queue, unknown_challenge,
}
use onestein.Relay.Handle.{
  challenge, Request, register_request, challenge_request, write_request, read_request, done,
  refused, Relay, Event, asked, expired, handle, spend, serve,
}
use onestein.Relay.Codec.{encode_request, decode_request, encode_response, decode_response}
use onestein.Relay.Codec.RoundTrip.{decode_request-encode_request, decode_response-encode_response}
use onestein.Record.{encode}
use onestein.Relay.Bounds.{AreBounded, serve-AreBounded}
use onestein.Relay.Replay.{IsRefused, handle_once}

abbrev short_hash : Bytes → Bytes
short_hash bs = take 4 bs

abbrev any_key : Bytes → Bool
any_key key = true

abbrev key_is_signature : Bytes → Bytes → Bytes → Bool
key_is_signature key text signature = bytes_eq key signature

abbrev nobody : Relay
nobody = record { store = []; challenges = [] }

abbrev fresh : Bytes
fresh = replicate 32 7

-- A queue is registered, a challenge is asked for, and a blob is written with the proof.
abbrev opening : List Event
opening =
    asked (register_request (1 ∷ []) (5 ∷ []) (6 ∷ [])) 1000 fresh
    ∷ asked (challenge_request (1 ∷ []) write_right) 1001 fresh
    ∷ []

abbrev attempt : Request
attempt = write_request (1 ∷ []) (5 ∷ []) (42 ∷ [])

abbrev opened : Relay
opened = serve short_hash any_key key_is_signature nobody opening

run_write : (handle short_hash any_key key_is_signature opened attempt 1002 fresh).1 ≡ done
unfolding handle spend write registration_of check
run_write = refl

run_read_unasked :
    (handle short_hash any_key key_is_signature opened
      (read_request (2 ∷ []) (6 ∷ []))
      1002
      fresh).1
    ≡ refused unknown_queue
unfolding handle spend registration_of
run_read_unasked = refl

-- The relay with a blob of three bytes in its queue, and a challenge to write another.
abbrev old_blob : Bytes
old_blob = 8 ∷ 8 ∷ 8 ∷ []

abbrev held_queue : List Blob → ℕ → Entry Bytes Queue
held_queue blobs last = record {
  key = 1 ∷ [];
  value = record {
    registration = record { write_public = 5 ∷ []; read_public = 6 ∷ [] };
    blobs = blobs;
    last_write_ms = last;
  };
}

abbrev stored : Bytes → ℕ → Blob
stored content written = record {
  name = blob_id short_hash content;
  content = content;
  written_ms = written;
}

abbrev holding : Relay
holding = record {
  store = held_queue (stored old_blob 1000 ∷ []) 1000 ∷ [];
  challenges = record { key = (1 ∷ [], 0); value = fresh } ∷ [];
}

-- The first blob reaches its age of 30 days, the second does not.
abbrev writing : List Event
writing = asked attempt 2000 fresh ∷ expired 2592001500 ∷ []

-- Both blobs are in the queue after the write, the younger one after the expiry.
run_writing :
    ((handle short_hash any_key key_is_signature holding attempt 2000 fresh).0.store
      ≡ held_queue (stored old_blob 1000 ∷ stored (42 ∷ []) 2000 ∷ []) 2000 ∷ [])
    × ((serve short_hash any_key key_is_signature holding writing).store
        ≡ held_queue (stored (42 ∷ []) 2000 ∷ []) 2000 ∷ [])
unfolding handle spend write registration_of check expire
run_writing = (refl, refl)

serve-AreBounded_example :
    AreBounded short_hash (serve short_hash any_key key_is_signature holding writing).store
serve-AreBounded_example =
    serve-AreBounded short_hash any_key key_is_signature holding writing
      ((omega arith, ((omega arith, refl), tt)), tt)

-- Between the two requests the queue expires and is registered anew, and a challenge is asked for the other
-- right.
abbrev between : List Event
between =
    expired 9000000000
    ∷ asked (register_request (1 ∷ []) (5 ∷ []) (6 ∷ [])) 9000000001 fresh
    ∷ asked (challenge_request (1 ∷ []) read_right) 9000000002 fresh
    ∷ []

attempt_known :
    (handle short_hash any_key key_is_signature opened attempt 1002 fresh).1 ≡ refused unknown_queue
    → ⊥
attempt_known h = let same : done ≡ refused unknown_queue = sym run_write ∙ h in cc

abbrev later_on : Relay
later_on = serve short_hash any_key key_is_signature opened (asked attempt 1002 fresh ∷ between)

run_again :
    (handle short_hash any_key key_is_signature later_on attempt 9000000003 fresh).1
    ≡ refused unknown_challenge
unfolding handle spend write registration_of check expire
run_again = refl

-- A request refused for an unknown queue leaves the challenge: once the queue is registered again, it is
-- still good.
abbrev unspent : List Event
unspent =
    expired 9000000000
    ∷ asked attempt 9000000001 fresh
    ∷ asked (register_request (1 ∷ []) (5 ∷ []) (6 ∷ [])) 9000000002 fresh
    ∷ []

run_unspent :
    (handle short_hash any_key key_is_signature
      (serve short_hash any_key key_is_signature opened unspent)
      attempt
      9000000003
      fresh).1
    ≡ done
unfolding handle spend write registration_of check expire
run_unspent = refl

handle_once_example :
    ((handle short_hash any_key key_is_signature later_on attempt 9000000003 fresh).0 ≡ later_on)
    × IsRefused (handle short_hash any_key key_is_signature later_on attempt 9000000003 fresh).1
handle_once_example =
    handle_once short_hash any_key key_is_signature opened attempt attempt between 1002 9000000003
      fresh fresh (1 ∷ []) write_right refl attempt_known (tt, (tt, (refl, tt))) refl

-- A challenge is asked for, and handed out.
abbrev question : Request
question = challenge_request (replicate 32 9) read_right

run_question : encode_request question ≡ ok (1 ∷ 1 ∷ 0 ∷ 33 ∷ (replicate 32 9 ++ (1 ∷ [])))
unfolding encode_request encode
run_question = refl

run_answer : encode_response (challenge fresh) ≡ ok (1 ∷ 2 ∷ 0 ∷ 32 ∷ fresh)
unfolding encode_response encode
run_answer = refl

decode_request-encode_request_example :
    decode_request (1 ∷ 1 ∷ 0 ∷ 33 ∷ (replicate 32 9 ++ (1 ∷ []))) ≡ ok question
decode_request-encode_request_example =
    decode_request-encode_request question (1 ∷ 1 ∷ 0 ∷ 33 ∷ (replicate 32 9 ++ (1 ∷ []))) refl
      run_question

decode_response-encode_response_example :
    decode_response (1 ∷ 2 ∷ 0 ∷ 32 ∷ fresh) ≡ ok (challenge fresh)
decode_response-encode_response_example =
    decode_response-encode_response (challenge fresh) (1 ∷ 2 ∷ 0 ∷ 32 ∷ fresh) refl run_answer
