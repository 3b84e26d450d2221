-- ===== src/Relay/Codec/RoundTrip.antt =====
-- crates/relay/src/api.rs: a request and a response are read back as they were written.
use onestein.Base.{
  ℕ, ◌+◌, ◌-◌, ◌≡◌, refl, sym, ap, ◌∙◌, some, [], ◌∷◌, ◌++◌, append_assoc, append-nil, arith,
  length, get_elem?, slice_from?, length-append, take-append, drop-append, drop_add, Result, ok,
  err, ◌>>=◌, or_err,
}
use onestein.Base.Bytes.{Bytes}
use onestein.Record.{Error, encode}
use onestein.Record.Read.{next-encode, next-none}
use onestein.Relay.{Right, write_right, read_right}
use onestein.Relay.Store.{
  Refusal, unknown_queue, bad_proof, too_large, queue_full, unknown_challenge, relay_version,
}
use onestein.Relay.Handle.{
  right_byte, Request, register_request, challenge_request, write_request, read_request,
  delete_request, Response, challenge, blob_response, done, empty, refused,
}
use onestein.Relay.Codec.{
  parse_refused, refusal_byte, parse_challenge, parse_blob, right_of, parse_register,
  parse_challenge_request, only_one, WireError, malformed, request_payload, encode_request, single,
  field, parse_request, decode_request, response_payload, encode_response, parse_response,
  decode_response,
}

-- What one record carries is read back whole.
single-encode :
    (record_type : ℕ) (payload bs : Bytes)
    → encode relay_version record_type payload ≡ ok bs
    → single bs ≡ ok (record_type, payload)
unfolding single
single-encode record_type payload bs h =
    let front = rw append-nil at (next-encode relay_version record_type payload [] bs h) in
    ap only_one front ∙ rw ((next-none [] relay_version).1 refl, only_one) refl

or_err-ok : (r : Result Error Bytes) {bs : Bytes} → or_err r malformed ≡ ok bs → r ≡ ok bs
or_err-ok (ok x) h = cc
or_err-ok (err e) h = cc

-- A field between what stands before it and behind it.
field-append :
    (n offset : ℕ) (xs ys zs : Bytes)
    → length xs ≡ offset
    → length ys ≡ n
    → field n (xs ++ (ys ++ zs)) offset ≡ ok ys
unfolding field
field-append n offset xs ys zs hx hy = ground (
  arith,
  length-append xs (ys ++ zs),
  length-append ys zs,
  drop-append xs (ys ++ zs) offset hx,
  take-append ys zs n hy,
  step,
)
  where
    step : offset + n - offset ≡ n
    step = omega arith

-- The first field, the second, and the third of a payload, and what follows them.
module _ (xs ys zs : Bytes) (n m : ℕ) (hx : length xs ≡ n) (hy : length ys ≡ m) where
  rest-append : slice_from? (n + m) (xs ++ (ys ++ zs)) ≡ some zs
  rest-append = ground (
    arith,
    length-append xs (ys ++ zs),
    length-append ys zs,
    drop_add n m (xs ++ (ys ++ zs)),
    drop-append xs (ys ++ zs) n hx,
    drop-append ys zs m hy,
  )

  last-append : (k : ℕ) → length zs ≡ k → field k (xs ++ (ys ++ zs)) (n + m) ≡ ok zs
  last-append k hz =
      let whole : xs ++ (ys ++ zs) ≡ (xs ++ ys) ++ (zs ++ []) =
        sym (append_assoc xs ys zs) ∙ ap (◌++◌ (xs ++ ys)) (sym (append-nil zs)) in
      ap (λ p. field k p (n + m)) whole
      ∙ field-append k (n + m) (xs ++ ys) zs [] (omega (arith, length-append xs ys)) hz

get_elem?-append : (xs : Bytes) (b : ℕ) → get_elem? (xs ++ (b ∷ [])) (length xs) ≡ some b
get_elem?-append [] b = refl
get_elem?-append (x ∷ xs) b = get_elem?-append xs b

-- The arrays of a request have the lengths of their types.
abbrev pub IsSized : Request → Type 0
IsSized (register_request queue_id write_public read_public) =
    (length queue_id ≡ 32) × (length write_public ≡ 32) × (length read_public ≡ 32)
IsSized (challenge_request queue_id right) = length queue_id ≡ 32
IsSized (write_request queue_id proof blob) = (length queue_id ≡ 32) × (length proof ≡ 64)
IsSized (read_request queue_id proof) = (length queue_id ≡ 32) × (length proof ≡ 64)
IsSized (delete_request queue_id proof blob_id) =
    (length queue_id ≡ 32) × (length proof ≡ 64) × (length blob_id ≡ 32)

right_of-byte : (right : Right) → right_of (some (right_byte right)) ≡ ok right
right_of-byte write_right = refl
right_of-byte read_right = refl

parse_request-payload :
    (req : Request)
    → IsSized req
    → parse_request (request_payload req).0 (request_payload req).1 ≡ ok req
parse_request-payload (write_request q p blob) (hq, hp) =
    rw
      (
        rest-append q p blob 32 64 hq hp,
        field-append 32 0 [] q (p ++ blob) refl hq,
        field-append 64 32 q p blob hq hp,
      )
      refl
parse_request-payload (read_request q p) (hq, hp) =
    let size : length (q ++ (p ++ [])) ≡ 96 =
      omega (arith, length-append q (p ++ []), length-append p []) in
    rw (size, field-append 32 0 [] q (p ++ []) refl hq, field-append 64 32 q p [] hq hp) refl
parse_request-payload (delete_request q p name) (hq, hp, hn) =
    let size : length (q ++ (p ++ name)) ≡ 128 =
      omega (arith, length-append q (p ++ name), length-append p name) in
    rw (size, field-append 32 0 [] q (p ++ name) refl hq, field-append 64 32 q p name hq hp)
      (rw (last-append q p name 32 64 hq hp 32 hn) refl)
parse_request-payload (register_request q w r) (hq, hw, hr) =
    let size : length (q ++ (w ++ r)) ≡ 96 =
      omega (arith, length-append q (w ++ r), length-append w r) in
    rw
      (
        parse_register,
        size,
        field-append 32 0 [] q (w ++ r) refl hq,
        field-append 32 32 q w r hq hw,
        last-append q w r 32 32 hq hw 32 hr,
      )
      refl
parse_request-payload (challenge_request q right) hq =
    let size : length (q ++ (right_byte right ∷ [])) ≡ 33 =
      omega (arith, length-append q (right_byte right ∷ [])) in
    let there : get_elem? (q ++ (right_byte right ∷ [])) 32 ≡ some (right_byte right) =
      ap (get_elem? (q ++ (right_byte right ∷ []))) (sym hq)
      ∙ get_elem?-append q (right_byte right) in
    let known : right_of (some (right_byte right)) ≡ ok right = right_of-byte right in
    rw
      (
        parse_challenge_request,
        size,
        there,
        known,
        field-append 32 0 [] q (right_byte right ∷ []) refl hq,
      )
      refl

-- Every request whose arrays have their lengths is read back as it was written.
pub decode_request-encode_request :
    (req : Request) (bs : Bytes)
    → IsSized req
    → encode_request req ≡ ok bs
    → decode_request bs ≡ ok req
unfolding encode_request decode_request
decode_request-encode_request req bs sized h =
    let wire = or_err-ok (encode relay_version (request_payload req).0 (request_payload req).1) h in
    let one = single-encode (request_payload req).0 (request_payload req).1 bs wire in
    ap (λ (r : Result WireError (ℕ × Bytes)). r >>= λ (t, p). parse_request t p) one
    ∙ parse_request-payload req sized

abbrev pub IsSizedResponse : Response → Type 0
IsSizedResponse (challenge text) = length text ≡ 32
IsSizedResponse (blob_response blob_id blob) = length blob_id ≡ 32
IsSizedResponse _ = Unit {0}

field-whole : (n : ℕ) (ys : Bytes) → length ys ≡ n → field n ys 0 ≡ ok ys
field-whole n ys h = ap (λ p. field n p 0) (sym (append-nil ys)) ∙ field-append n 0 [] ys [] refl h

parse_refused-byte :
    (refusal : Refusal) → parse_refused (refusal_byte refusal ∷ []) ≡ ok (refused refusal)
parse_refused-byte unknown_queue = refl
parse_refused-byte bad_proof = refl
parse_refused-byte too_large = refl
parse_refused-byte queue_full = refl
parse_refused-byte unknown_challenge = refl

parse_response-payload :
    (res : Response)
    → IsSizedResponse res
    → parse_response (response_payload res).0 (response_payload res).1 ≡ ok res
parse_response-payload (challenge text) h = rw (parse_challenge, h, field-whole 32 text h) refl
parse_response-payload (blob_response blob_id blob) h =
    rw
      (
        parse_blob,
        rest-append [] blob_id blob 0 32 refl h,
        field-append 32 0 [] blob_id blob refl h,
      )
      refl
parse_response-payload done h = refl
parse_response-payload empty h = refl
parse_response-payload (refused refusal) h = parse_refused-byte refusal

-- Every response whose arrays have their lengths is read back as it was written.
pub decode_response-encode_response :
    (res : Response) (bs : Bytes)
    → IsSizedResponse res
    → encode_response res ≡ ok bs
    → decode_response bs ≡ ok res
unfolding encode_response decode_response
decode_response-encode_response res bs sized h =
    let wire =
      or_err-ok (encode relay_version (response_payload res).0 (response_payload res).1) h in
    let one = single-encode (response_payload res).0 (response_payload res).1 bs wire in
    ap (λ (r : Result WireError (ℕ × Bytes)). r >>= λ (t, p). parse_response t p) one
    ∙ parse_response-payload res sized
