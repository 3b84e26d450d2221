-- ===== src/Relay/Store.antt =====
-- crates/relay/src/store.rs: queues of blobs and their limits.
use onestein.Base.{
  ℕ, ◌+◌, Bool, not, Option, none, some, List, [], ◌∷◌, ◌++◌, map, ltb, leb, if◌then◌else◌, length,
  bytes_eq, Result, ok, err,
}
use onestein.Base.Bytes.{Bytes}
use onestein.Base.Words.{saturating_add, saturating_mul}
use onestein.Base.Maps.{Entry, get, alter}
use onestein.Crypto.{hash}
use onestein.Base.Text.{ascii}
use onestein.Relay.{Registration, max_blob_len, max_queue_len}

abbrev pub relay_version : ℕ
relay_version = 1

abbrev pub day_ms : ℕ
day_ms = 86400000

abbrev pub blob_expiry_days : ℕ
blob_expiry_days = 30

abbrev pub queue_expiry_days : ℕ
queue_expiry_days = 60

pub data Refusal : Type 0 where
  unknown_queue bad_proof too_large queue_full unknown_challenge : Refusal

abbrev pub blob_label : Bytes
blob_label = ascii "org.onestein.relay/BLOB"

abbrev pub blob_id : (Bytes → Bytes) → Bytes → Bytes
blob_id blake2b blob = hash blake2b (blob_label ∷ (relay_version ∷ []) ∷ blob ∷ [])

pub record Blob : Type 0 where
  pub name : Bytes
  pub content : Bytes
  pub written_ms : ℕ

pub record Queue : Type 0 where
  pub registration : Registration
  pub blobs : List Blob
  pub last_write_ms : ℕ

abbrev pub Store : Type 0
Store = List (Entry Bytes Queue)

abbrev pub new : Store
new = []

-- `entry(queue_id).or_insert_with(..)`.
abbrev pub register : Store → Bytes → Registration → ℕ → Store
register store queue_id reg now_ms = elim (get bytes_eq queue_id store) [
  | some queue ↦ store
  | none ↦
      record {
        key = queue_id;
        value = record { registration = reg; blobs = []; last_write_ms = now_ms };
      }
      ∷ store
]

unfoldable pub registration_of : Store → Bytes → Option Registration
registration_of store queue_id = elim (get bytes_eq queue_id store) [
  | some queue ↦ some queue.registration
  | none ↦ none
]

abbrev pub held : List Blob → ℕ
held [] = 0
held (blob ∷ blobs) = length blob.content + held blobs

abbrev pub push_blob : Blob → Queue → Queue
push_blob blob queue = record queue {
  blobs = queue.blobs ++ (blob ∷ []);
  last_write_ms = blob.written_ms;
}

unfoldable pub write : (Bytes → Bytes) → Store → Bytes → Bytes → ℕ → Store × Result Refusal Bytes
write blake2b store queue_id blob now_ms =
    if ltb max_blob_len (length blob)
    then (store, err too_large)
    else elim (get bytes_eq queue_id store) [
      | none ↦ (store, err unknown_queue)
      | some queue ↦
          if ltb max_queue_len (saturating_add (held queue.blobs) (length blob))
          then (store, err queue_full)
          else (
            alter bytes_eq queue_id
                (push_blob
                  (record { name = blob_id blake2b blob; content = blob; written_ms = now_ms }))
                store,
            ok (blob_id blake2b blob),
          )
    ]

abbrev pub first : List Blob → Option Blob
first [] = none
first (blob ∷ blobs) = some blob

abbrev pub read : Store → Bytes → Option Blob
read store queue_id = elim (get bytes_eq queue_id store) [
  | none ↦ none
  | some queue ↦ first queue.blobs
]

-- `Vec::retain`.
abbrev pub retain {ℓ} : {A : Type ℓ} → (A → Bool) → List A → List A
retain p [] = []
retain p (x ∷ xs) = let rest = retain p xs in if p x then x ∷ rest else rest

abbrev pub drop_blob : Bytes → Queue → Queue
drop_blob name queue = record queue {
  blobs = retain (λ blob. not (bytes_eq blob.name name)) queue.blobs;
}

unfoldable pub delete : Store → Bytes → Bytes → Store × Result Refusal (Unit {0})
delete store queue_id name = elim (get bytes_eq queue_id store) [
  | none ↦ (store, err unknown_queue)
  | some queue ↦ (alter bytes_eq queue_id (drop_blob name) store, ok tt)
]

abbrev pub blob_life : ℕ
blob_life = saturating_mul blob_expiry_days day_ms

abbrev pub queue_life : ℕ
queue_life = saturating_mul queue_expiry_days day_ms

abbrev pub expire_blobs : ℕ → Queue → Queue
expire_blobs now_ms queue = record queue {
  blobs = retain (λ blob. leb now_ms (saturating_add blob.written_ms blob_life)) queue.blobs;
}

abbrev pub expire_entry : ℕ → Entry Bytes Queue → Entry Bytes Queue
expire_entry now_ms e = record e { value = expire_blobs now_ms e.value }

unfoldable pub expire : Store → ℕ → Store
expire store now_ms =
    retain (λ e. leb now_ms (saturating_add e.value.last_write_ms queue_life))
      (map (expire_entry now_ms) store)

abbrev pub queue_count : Store → ℕ
queue_count store = length store
