-- ===== src/Relay/Bounds.antt =====
-- crates/relay: the limits of a queue hold for every history of requests.
use onestein.Base.{
  ℕ, ◌+◌, ◌-◌, ◌^◌, ◌≤◌, min, ◌≡◌, refl, sym, ap, subst, inl, inr, Bool, Option, none, some, List,
  [], ◌∷◌, ◌++◌, map, arith, ltb, Bool-cases, Option-cases, length, All, All-append, bytes_eq,
  Result, ok, err,
}
use onestein.Base.Bytes.{Bytes}
use onestein.Base.Maps.{get, EachValue, EachValue-alter}
use onestein.Relay.{Right, write_right, read_right, Registration, max_blob_len, max_queue_len}
use onestein.Relay.Store.{
  Refusal, read, registration_of, Store, Blob, Queue, blob_id, held, push_blob, register, write,
  drop_blob, delete, retain, expire_entry, expire,
}
use onestein.Relay.Handle.{
  Event, asked, expired, serve, ChallengeKey, same_key, right_byte, Request, register_request,
  challenge_request, write_request, read_request, delete_request, Response, Relay, spend,
  after_spend, answer_write, answer_read, answer_delete, handle,
}

held-append : (xs ys : List Blob) → held (xs ++ ys) ≡ held xs + held ys
held-append [] ys = omega arith
held-append (x ∷ xs) ys = omega (arith, held-append xs ys)

held-retain : (p : Blob → Bool) (xs : List Blob) → held (retain p xs) ≤ held xs
held-retain p [] = omega arith
held-retain p (x ∷ xs) = ground (arith, held-retain p xs)

All-retain {ℓ κ} :
    {A : Type ℓ} (P : A → Type κ) (p : A → Bool) (xs : List A) → All P xs → All P (retain p xs)
All-retain P p [] all = all
All-retain P p (x ∷ xs) all = elim (Bool-cases (p x)) [
  | inl e ↦ rw e (all.0, All-retain P p xs all.1)
  | inr e ↦ rw e (All-retain P p xs all.1)
]

module _ (blake2b : Bytes → Bytes) where
  -- A blob is within its limit and carries the name that is derived from it.
  abbrev pub IsNamed : Blob → Type 0
  IsNamed blob = (length blob.content ≤ max_blob_len) × (blob.name ≡ blob_id blake2b blob.content)

  abbrev pub IsBounded : Queue → Type 0
  IsBounded queue = (held queue.blobs ≤ max_queue_len) × All IsNamed queue.blobs

  abbrev pub AreBounded : Store → Type 0
  AreBounded = EachValue bytes_eq IsBounded

  retain-IsBounded :
      (p : Blob → Bool) (queue : Queue)
      → IsBounded queue
      → IsBounded (record queue { blobs = retain p queue.blobs })
  retain-IsBounded p queue (size, named) =
      (omega (arith, held-retain p queue.blobs), All-retain IsNamed p queue.blobs named)

  register-AreBounded :
      (store : Store) (queue_id : Bytes) (reg : Registration) (now_ms : ℕ)
      → AreBounded store
      → AreBounded (register store queue_id reg now_ms)
  register-AreBounded store queue_id reg now_ms all =
      elim (Option-cases (get bytes_eq queue_id store)) [
        | inl e ↦ rw (e, register) ((omega arith, tt), all)
        | inr (queue, e) ↦ rw (e, register) all
      ]

  push-IsBounded :
      (queue : Queue) (blob : Blob)
      → IsBounded queue
      → IsNamed blob
      → held queue.blobs + length blob.content ≤ max_queue_len
      → IsBounded (push_blob blob queue)
  push-IsBounded queue blob (size, named) good fits = (
    omega (arith, held-append queue.blobs (blob ∷ [])),
    All-append IsNamed queue.blobs (blob ∷ []) named (good, tt),
  )

  push-IsBounded_at :
      (blob : Bytes) (now_ms : ℕ) (queue q : Queue)
      → IsBounded q
      → queue ≡ q
      → length blob ≤ max_blob_len
      → held queue.blobs + length blob ≤ max_queue_len
      → IsBounded (
          push_blob (record { name = blob_id blake2b blob; content = blob; written_ms = now_ms }) q)
  push-IsBounded_at blob now_ms queue q b same small room =
      push-IsBounded q _ b (small, refl) (omega (arith, ap (λ z. held z.blobs) same))

  write-AreBounded :
      (store : Store) (queue_id blob : Bytes) (now_ms : ℕ)
      → AreBounded store
      → AreBounded (write blake2b store queue_id blob now_ms).0
  unfolding write
  write-AreBounded store queue_id blob now_ms all =
      elim (Bool-cases (ltb max_blob_len (length blob))) [
        | inl e ↦ rw e all
        | inr small ↦ elim (Option-cases (get bytes_eq queue_id store)) [
          | inl e ↦ rw (small, e) all
          | inr (queue, e) ↦
              elim (Bool-cases
                (ltb max_queue_len (min (held queue.blobs + length blob) (2 ^ 64 - 1)))) [
                  | inl full ↦ rw (small, e, full) all
                  | inr room ↦
                      rw (small, e, room)
                        (EachValue-alter bytes_eq IsBounded queue_id _ store
                          (λ q g b.
                            push-IsBounded_at blob now_ms queue q b (cc (e, g)) (ground arith)
                              (ground arith))
                          all)
                ]
        ]
      ]

  delete-AreBounded :
      (store : Store) (queue_id name : Bytes)
      → AreBounded store
      → AreBounded (delete store queue_id name).0
  unfolding delete
  delete-AreBounded store queue_id name all = elim (Option-cases (get bytes_eq queue_id store)) [
    | inl e ↦ rw (e, delete) all
    | inr (queue, e) ↦
        rw (e, delete)
          (EachValue-alter bytes_eq IsBounded queue_id (drop_blob name) store
            (λ q _ b. retain-IsBounded _ q b) all)
  ]

  map-AreBounded :
      (now_ms : ℕ) (store : Store) → AreBounded store → AreBounded (map (expire_entry now_ms) store)
  map-AreBounded now_ms [] all = all
  map-AreBounded now_ms (e ∷ es) all =
      (retain-IsBounded _ e.value all.0, map-AreBounded now_ms es all.1)

  expire-AreBounded :
      (store : Store) (now_ms : ℕ) → AreBounded store → AreBounded (expire store now_ms)
  unfolding expire
  expire-AreBounded store now_ms all =
      All-retain (λ e. IsBounded e.value) _ (map (expire_entry now_ms) store)
        (map-AreBounded now_ms store all)

module _ (blake2b : Bytes → Bytes) (valid_key : Bytes → Bool)
    (verifies : Bytes → Bytes → Bytes → Bool) where
  spend_store :
      (relay : Relay) (queue_id proof : Bytes) (right : Right)
      → (spend valid_key verifies relay queue_id right proof).0.store ≡ relay.store
  unfolding spend
  spend_store relay queue_id proof right =
      elim (Option-cases (registration_of relay.store queue_id)) [
        | inl e ↦ rw (e, spend) refl
        | inr (reg, e) ↦
            let key : ChallengeKey = (queue_id, right_byte right) in
            elim (Option-cases (get same_key key relay.challenges)) [
              | inl c ↦ rw (e, c, spend) refl
              | inr (text, c) ↦ rw (e, c, spend) refl
            ]
      ]

  after_spend-AreBounded :
      (relay : Relay) (queue_id proof : Bytes) (right : Right) (next : Relay → Relay × Response)
      → AreBounded blake2b relay.store
      → ((r : Relay) → AreBounded blake2b r.store → AreBounded blake2b (next r).0.store)
      → AreBounded blake2b
          (after_spend (spend valid_key verifies relay queue_id right proof) next).0.store
  after_spend-AreBounded relay queue_id proof right next all keeps =
      go (spend valid_key verifies relay queue_id right proof)
        (subst (AreBounded blake2b) (sym (spend_store relay queue_id proof right)) all)
    where
      go :
          (out : Relay × Result Refusal (Unit {0}))
          → AreBounded blake2b out.0.store
          → AreBounded blake2b (after_spend out next).0.store
      go (r, err refusal) h = h
      go (r, ok u) h = keeps r h

  answer_write-AreBounded :
      (relay : Relay) (out : Store × Result Refusal Bytes)
      → AreBounded blake2b out.0
      → AreBounded blake2b (answer_write relay out).0.store
  answer_write-AreBounded relay (store, ok name) h = h
  answer_write-AreBounded relay (store, err refusal) h = h

  answer_read-AreBounded :
      (relay : Relay) (out : Option Blob)
      → AreBounded blake2b relay.store
      → AreBounded blake2b (answer_read relay out).0.store
  answer_read-AreBounded relay none h = h
  answer_read-AreBounded relay (some blob) h = h

  answer_delete-AreBounded :
      (relay : Relay) (out : Store × Result Refusal (Unit {0}))
      → AreBounded blake2b out.0
      → AreBounded blake2b (answer_delete relay out).0.store
  answer_delete-AreBounded relay (store, ok u) h = h
  answer_delete-AreBounded relay (store, err refusal) h = h

  handle-AreBounded :
      (relay : Relay) (req : Request) (now_ms : ℕ) (fresh : Bytes)
      → AreBounded blake2b relay.store
      → AreBounded blake2b (handle blake2b valid_key verifies relay req now_ms fresh).0.store
  unfolding handle
  handle-AreBounded relay (register_request queue_id a b) now_ms fresh all =
      register-AreBounded blake2b relay.store queue_id _ now_ms all
  handle-AreBounded relay (challenge_request queue_id right) now_ms fresh all =
      elim (Option-cases (registration_of relay.store queue_id)) [
        | inl e ↦ rw (e, handle) all
        | inr (reg, e) ↦ rw (e, handle) all
      ]
  handle-AreBounded relay (write_request queue_id proof blob) now_ms fresh all =
      after_spend-AreBounded relay queue_id proof write_right
        (λ s. answer_write s (write blake2b s.store queue_id blob now_ms)) all
        (λ s h.
          answer_write-AreBounded s _ (write-AreBounded blake2b s.store queue_id blob now_ms h))
  handle-AreBounded relay (read_request queue_id proof) now_ms fresh all =
      after_spend-AreBounded relay queue_id proof read_right
        (λ s. answer_read s (read s.store queue_id)) all
        (λ s h. answer_read-AreBounded s (read s.store queue_id) h)
  handle-AreBounded relay (delete_request queue_id proof name) now_ms fresh all =
      after_spend-AreBounded relay queue_id proof read_right
        (λ s. answer_delete s (delete s.store queue_id name)) all
        (λ s h. answer_delete-AreBounded s _ (delete-AreBounded blake2b s.store queue_id name h))

  -- From any relay within its limits, every history of requests and expiries leads to one in which no
  -- queue holds more than 16 MiB, no blob is longer than 64 KiB, and every blob carries the name that
  -- is derived from its content.
  pub serve-AreBounded :
      (relay : Relay) (events : List Event)
      → AreBounded blake2b relay.store
      → AreBounded blake2b (serve blake2b valid_key verifies relay events).store
  serve-AreBounded relay [] all = all
  serve-AreBounded relay (asked req now_ms fresh ∷ events) all =
      serve-AreBounded (handle blake2b valid_key verifies relay req now_ms fresh).0 events
        (handle-AreBounded relay req now_ms fresh all)
  serve-AreBounded relay (expired now_ms ∷ events) all =
      serve-AreBounded (record relay { store = expire relay.store now_ms }) events
        (expire-AreBounded blake2b relay.store now_ms all)
