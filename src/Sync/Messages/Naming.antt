-- ===== src/Sync/Messages/Naming.antt =====
-- crates/sync: a group's and a message's identifier name one group and one message.
use onestein.Base.{
  ◌^◌, ◌≤◌, ◌<◌, ◌≡◌, sym, ap, ◌∙◌, ◌⊎◌, inl, inr, [], arith, length, get_or, All, ok, >>=-eq-ok,
}
use onestein.Base.Bytes.{Bytes, to_be, from_be, from_be-to_be_lt}
use onestein.Crypto.{hash_len, hash}
use onestein.Crypto.Framing.{IsShort}
use onestein.Crypto.Collisions.{Collision, hash_binds}
use onestein.Sync.Messages.{
  Message, body_parts, message_parts, body_hash, message_id, max_message_body_len,
}

-- The arrays of a message have the lengths of their types, and the time is a u64.
pub record IsMessage (message : Message) : Type 0 where
  pub group_array : length message.group_id ≡ hash_len
  pub author_array : length message.author ≡ hash_len
  pub key_array : length message.device_key ≡ hash_len
  pub time_u64 : message.timestamp_ms < 2 ^ 64

module _ (blake2b : Bytes → Bytes) where
  body_hash-ok :
      (body hashed : Bytes)
      → body_hash blake2b body ≡ ok hashed
      → (length body ≤ max_message_body_len) × (hash blake2b (body_parts body) ≡ hashed)
  unfolding body_hash
  body_hash-ok body hashed h = ground arith

  body_parts-IsShort :
      (body : Bytes) → length body ≤ max_message_body_len → All IsShort (body_parts body)
  body_parts-IsShort body le = (omega arith, (omega arith, (omega (arith, le), tt)))

  body_hash_binds :
      (x y hashed : Bytes)
      → body_hash blake2b x ≡ ok hashed
      → body_hash blake2b y ≡ ok hashed
      → (x ≡ y) ⊎ Collision blake2b
  body_hash_binds x y hashed hx hy =
      let (lx, ex) = body_hash-ok x hashed hx in
      let (ly, ey) = body_hash-ok y hashed hy in
      elim (hash_binds blake2b (body_parts x) (body_parts y) (body_parts-IsShort x lx)
        (body_parts-IsShort y ly) (ex ∙ sym ey)) [ inl same ↦ inl cc | inr c ↦ inr c ]

  message_parts-IsShort :
      (message : Message) (hashed : Bytes)
      → IsMessage message
      → length hashed ≡ hash_len
      → All IsShort (message_parts message hashed)
  message_parts-IsShort message hashed good size = (
    omega arith,
    (
      omega arith,
      (
        omega (arith, good.group_array),
        (
          omega arith,
          (
            omega (arith, good.author_array),
            (omega (arith, good.key_array), (omega (arith, size), tt)),
          ),
        ),
      ),
    ),
  )

  length-body_hash :
      (body hashed : Bytes)
      → ((bs : Bytes) → length (blake2b bs) ≡ hash_len)
      → body_hash blake2b body ≡ ok hashed
      → length hashed ≡ hash_len
  unfolding hash
  length-body_hash body hashed hashes h = ap length (sym (body_hash-ok body hashed h).1) ∙ hashes _

  -- A message is what its parts say.
  message_parts_inj :
      (x y : Message) (bx by : Bytes)
      → IsMessage x
      → IsMessage y
      → x.body ≡ y.body
      → message_parts x bx ≡ message_parts y by
      → x ≡ y
  message_parts_inj x y bx by hx hy bodies same =
      let groups : x.group_id ≡ y.group_id = ap (λ l. get_or l 2 []) same in
      let times : to_be 8 x.timestamp_ms ≡ to_be 8 y.timestamp_ms = ap (λ l. get_or l 3 []) same in
      let authors : x.author ≡ y.author = ap (λ l. get_or l 4 []) same in
      let keys : x.device_key ≡ y.device_key = ap (λ l. get_or l 5 []) same in
      let time : x.timestamp_ms ≡ y.timestamp_ms =
        sym (from_be-to_be_lt 8 x.timestamp_ms hx.time_u64)
        ∙ ap from_be times
        ∙ from_be-to_be_lt 8 y.timestamp_ms hy.time_u64 in
      λ i. record {
        group_id = groups i;
        timestamp_ms = time i;
        author = authors i;
        device_key = keys i;
        body = bodies i;
      }

  -- Messages of one identifier are one message, or two inputs with one hash are at hand.
  pub message_id_binds :
      (x y : Message) (id : Bytes)
      → ((bs : Bytes) → length (blake2b bs) ≡ hash_len)
      → IsMessage x
      → IsMessage y
      → message_id blake2b x ≡ ok id
      → message_id blake2b y ≡ ok id
      → (x ≡ y) ⊎ Collision blake2b
  unfolding message_id
  message_id_binds x y id hashes hx hy ex ey =
      let (bx, gx, ex') = >>=-eq-ok (body_hash blake2b x.body) _ ex in
      let (by, gy, ey') = >>=-eq-ok (body_hash blake2b y.body) _ ey in
      let same_id : hash blake2b (message_parts x bx) ≡ hash blake2b (message_parts y by) = cc in
      elim (hash_binds blake2b (message_parts x bx) (message_parts y by)
        (message_parts-IsShort x bx hx (length-body_hash x.body bx hashes gx))
        (message_parts-IsShort y by hy (length-body_hash y.body by hashes gy)) same_id) [
          | inl same ↦
              let bodies : by ≡ bx = ap (λ l. get_or l 6 []) (sym same) in
              elim (body_hash_binds x.body y.body bx gx (gy ∙ ap ok bodies)) [
                | inl one ↦ inl (message_parts_inj x y bx by hx hy one same)
                | inr c ↦ inr c
              ]
          | inr c ↦ inr c
        ]
