-- ===== src/Sync/Messages/Exact.antt =====
-- crates/sync/src/message.rs: a payload that is read as a message is the one that the message is written as.
use onestein.Base.{
  ℕ, ◌+◌, ◌-◌, ◌*◌, ◌≤◌, ◌≡◌, refl, sym, ap, ◌∙◌, subst, some, ◌++◌, arith, leb, leb→le, length,
  take, drop, slice?, slice_from?, All, All-take, All-drop, Result, ok, guard, ok_or, >>=-eq-ok,
  ok_or-inv, guard-inv,
}
use onestein.Base.Bytes.{Bytes, IsByte, IsArray, from_be, to_be-from_be_at}
use onestein.Base.Slices.{slice?-inv, slice_from?-inv, drop_cut}
use onestein.Crypto.{hash_len}
use onestein.Sync.Identifiers.{SyncError, malformed}
use onestein.Sync.Messages.{
  Message, SignedMessage, message_bytes, encode_message, array_at, decode_message, signature_len,
  max_message_body_len, message_header_len,
}

array_at-inv :
    (offset n : ℕ) (payload bs : Bytes)
    → array_at offset n payload ≡ ok bs
    → (take n (drop offset payload) ≡ bs) × (length bs ≡ n)
array_at-inv offset n payload bs h =
    let (cut, there, h') = >>=-eq-ok (ok_or (slice? offset (offset + n) payload) malformed) _ h in
    let (size, same) : (length cut ≡ n) × (cut ≡ bs) = ground arith in
    let found : slice? offset (offset + n) payload ≡ some cut = ground arith in
    let (_, _, read) = slice?-inv offset (offset + n) payload found in
    let width : offset + n - offset ≡ n = omega arith in
    (ap (λ k. take k (drop offset payload)) (sym width) ∙ read ∙ same, ap length (sym same) ∙ size)

encode_message-whole :
    (message : Message) (signature payload : Bytes)
    → length message.body ≤ max_message_body_len
    → message_bytes message signature ≡ payload
    → encode_message message signature ≡ ok payload
unfolding encode_message
encode_message-whole message signature payload le e = ground arith

cuts_join :
    (payload g t a k s body : Bytes)
    → take 32 (drop 0 payload) ≡ g
    → take 8 (drop 32 payload) ≡ t
    → take 32 (drop 40 payload) ≡ a
    → take 32 (drop 72 payload) ≡ k
    → take 64 (drop 104 payload) ≡ s
    → drop 168 payload ≡ body
    → g ++ (t ++ (a ++ (k ++ (s ++ body)))) ≡ payload
cuts_join payload g t a k s body hg ht ha hk hs hb =
    rw (← hg, ← ht, ← ha, ← hk, ← hs, ← hb)
      (rw
        (
          drop_cut 104 64 payload,
          drop_cut 72 32 payload,
          drop_cut 40 32 payload,
          drop_cut 32 8 payload,
          drop_cut 0 32 payload,
        )
        refl)

abbrev read_as : Bytes → Bytes → Bytes → Bytes → Bytes → Bytes → Result SyncError SignedMessage
read_as g t a k s body = ok (record {
  message = record {
    group_id = g;
    timestamp_ms = from_be t;
    author = a;
    device_key = k;
    body = body;
  };
  signature = s;
})

written :
    (payload : Bytes) (signed : SignedMessage) (g t a k s body : Bytes)
    → length body ≤ max_message_body_len
    → IsArray 8 t
    → g ++ (t ++ (a ++ (k ++ (s ++ body)))) ≡ payload
    → read_as g t a k s body ≡ ok signed
    → encode_message signed.message signed.signature ≡ ok payload
written payload signed g t a k s body le array joined h =
    let message : Message = record {
      group_id = g;
      timestamp_ms = from_be t;
      author = a;
      device_key = k;
      body = body;
    } in
    let whole : record { message = message; signature = s } ≡ signed = cc in
    subst (λ (x : SignedMessage). encode_message x.message x.signature ≡ ok payload) whole
      (encode_message-whole message s payload le
        (ap (λ d. g ++ (d ++ (a ++ (k ++ (s ++ body))))) (to_be-from_be_at 8 t array) ∙ joined))

-- A payload that is read as a message is the one that the message is written as.
pub encode_message-decode_message :
    (payload : Bytes) (signed : SignedMessage)
    → All IsByte payload
    → decode_message payload ≡ ok signed
    → encode_message signed.message signed.signature ≡ ok payload
unfolding decode_message
encode_message-decode_message payload signed bytes h =
    let (body, hb, h0) = >>=-eq-ok (ok_or (slice_from? message_header_len payload) malformed) _ h in
    let (_, fits, h1) = >>=-eq-ok (guard (leb (length body) max_message_body_len) malformed) _ h0 in
    let (g, hg, h2) = >>=-eq-ok (array_at 0 hash_len payload) _ h1 in
    let (t, ht, h3) = >>=-eq-ok (array_at hash_len 8 payload) _ h2 in
    let (a, ha, h4) = >>=-eq-ok (array_at (hash_len + 8) hash_len payload) _ h3 in
    let (k, hk, h5) = >>=-eq-ok (array_at (hash_len + 8 + hash_len) hash_len payload) _ h4 in
    let (s, hs, h6) = >>=-eq-ok (array_at (hash_len * 3 + 8) signature_len payload) _ h5 in
    let (cut_g, _) = array_at-inv 0 32 payload g hg in
    let (cut_t, size_t) = array_at-inv 32 8 payload t ht in
    let (cut_a, _) = array_at-inv 40 32 payload a ha in
    let (cut_k, _) = array_at-inv 72 32 payload k hk in
    let (cut_s, _) = array_at-inv 104 64 payload s hs in
    let found = ok_or-inv (slice_from? message_header_len payload) malformed hb in
    let (_, cut_body) = slice_from?-inv message_header_len payload found in
    let le = leb→le (length body) max_message_body_len (guard-inv _ malformed fits) in
    let digits : All IsByte t =
      subst (All IsByte) cut_t
        (All-take IsByte 8 (drop 32 payload) (All-drop IsByte 32 payload bytes)) in
    let joined = cuts_join payload g t a k s body cut_g cut_t cut_a cut_k cut_s cut_body in
    written payload signed g t a k s body le (size_t, digits) joined h6
