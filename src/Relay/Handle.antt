-- ===== src/Relay/Handle.antt =====
-- crates/relay/src/api.rs: the requests and responses of a relay, and the handler that answers them.
use onestein.Base.{
  ℕ, Bool, ◌&&◌, Option, none, some, List, [], ◌∷◌, ◌==◌, bytes_eq, Result, ok, err, or_err,
}
use onestein.Base.Bytes.{Bytes}
use onestein.Base.Maps.{Entry, get, remove, insert}
use onestein.Relay.{Right, write_right, read_right, check}
use onestein.Relay.Store.{
  expire, Store, Blob, Refusal, unknown_queue, bad_proof, unknown_challenge, register,
  registration_of, write, read, delete,
}

pub data Request : Type 0 where
  register_request : Bytes → Bytes → Bytes → Request
  challenge_request : Bytes → Right → Request
  write_request : Bytes → Bytes → Bytes → Request
  read_request : Bytes → Bytes → Request
  delete_request : Bytes → Bytes → Bytes → Request

pub data Response : Type 0 where
  challenge : Bytes → Response
  blob_response : Bytes → Bytes → Response
  done empty : Response
  refused : Refusal → Response

abbrev pub right_byte : Right → ℕ
right_byte write_right = 0
right_byte read_right = 1

-- A queue and the byte of a right.
abbrev pub ChallengeKey : Type 0
ChallengeKey = Bytes × ℕ

abbrev pub same_key : ChallengeKey → ChallengeKey → Bool
same_key (q, r) (q', r') = bytes_eq q q' && r == r'

abbrev pub Challenges : Type 0
Challenges = List (Entry ChallengeKey Bytes)

-- What happens to a relay: it is asked, or its owner lets things expire.
pub data Event : Type 0 where
  asked : Request → ℕ → Bytes → Event
  expired : ℕ → Event

pub record Relay : Type 0 where
  pub store : Store
  pub challenges : Challenges

module _ (valid_key : Bytes → Bool) (verifies : Bytes → Bytes → Bytes → Bool) where
  -- The outstanding challenge is taken out before the proof is checked.
  unfoldable pub spend : Relay → Bytes → Right → Bytes → Relay × Result Refusal (Unit {0})
  spend relay queue_id right proof = elim (registration_of relay.store queue_id) [
    | none ↦ (relay, err unknown_queue)
    | some reg ↦ elim (get same_key (queue_id, right_byte right) relay.challenges) [
      | none ↦ (relay, err unknown_challenge)
      | some text ↦ (
        record relay { challenges = remove same_key (queue_id, right_byte right) relay.challenges },
        or_err (check valid_key verifies reg right text proof) bad_proof,
      )
    ]
  ]

abbrev pub answer_write : Relay → Store × Result Refusal Bytes → Relay × Response
answer_write relay (store, ok name) = (record relay { store = store }, done)
answer_write relay (store, err refusal) = (record relay { store = store }, refused refusal)

abbrev pub answer_read : Relay → Option Blob → Relay × Response
answer_read relay (some blob) = (relay, blob_response blob.name blob.content)
answer_read relay none = (relay, empty)

abbrev pub answer_delete : Relay → Store × Result Refusal (Unit {0}) → Relay × Response
answer_delete relay (store, ok u) = (record relay { store = store }, done)
answer_delete relay (store, err refusal) = (record relay { store = store }, refused refusal)

abbrev pub after_spend :
    Relay × Result Refusal (Unit {0}) → (Relay → Relay × Response) → Relay × Response
after_spend (relay, err refusal) next = (relay, refused refusal)
after_spend (relay, ok u) next = next relay

module _ (blake2b : Bytes → Bytes) (valid_key : Bytes → Bool)
    (verifies : Bytes → Bytes → Bytes → Bool) where
  unfoldable pub handle : Relay → Request → ℕ → Bytes → Relay × Response
  handle relay (register_request queue_id write_public read_public) now_ms fresh = (
    record relay {
      store =
          register relay.store queue_id
            (record { write_public = write_public; read_public = read_public }) now_ms;
    },
    done,
  )
  handle relay (challenge_request queue_id right) now_ms fresh =
      elim (registration_of relay.store queue_id) [
        | none ↦ (relay, refused unknown_queue)
        | some reg ↦ (
          record relay {
            challenges = insert same_key (queue_id, right_byte right) fresh relay.challenges;
          },
          challenge fresh,
        )
      ]
  handle relay (write_request queue_id proof blob) now_ms fresh =
      after_spend (spend valid_key verifies relay queue_id write_right proof)
        λ spent. answer_write spent (write blake2b spent.store queue_id blob now_ms)
  handle relay (read_request queue_id proof) now_ms fresh =
      after_spend (spend valid_key verifies relay queue_id read_right proof)
        λ spent. answer_read spent (read spent.store queue_id)
  handle relay (delete_request queue_id proof name) now_ms fresh =
      after_spend (spend valid_key verifies relay queue_id read_right proof)
        λ spent. answer_delete spent (delete spent.store queue_id name)

  abbrev pub serve : Relay → List Event → Relay
  serve relay [] = relay
  serve relay (asked req now_ms fresh ∷ events) = serve (handle relay req now_ms fresh).0 events
  serve relay (expired now_ms ∷ events) =
      serve (record relay { store = expire relay.store now_ms }) events
