-- ===== src/Relay/Spent.antt =====
-- crates/relay/src/api.rs: what a proof does to the challenges, in `spend` and behind it.
use onestein.Base.{
  ◌≡◌, refl, ap, ◌∙◌, ◌⊎◌, inl, inr, Bool, Option, none, some, Option-cases, Result, ok, err,
}
use onestein.Base.Bytes.{Bytes}
use onestein.Base.Maps.{get, get-remove, get-remove-none}
use onestein.Relay.{Right}
use onestein.Relay.Store.{Store, Blob, Refusal, unknown_queue, unknown_challenge, registration_of}
use onestein.Relay.Handle.{
  ChallengeKey, Response, refused, right_byte, same_key, Relay, spend, after_spend, answer_write,
  answer_read, answer_delete,
}

-- No challenge is outstanding for the queue and the right.
abbrev pub IsSpent : Bytes → Right → Relay → Type 0
IsSpent queue_id right relay = get same_key (queue_id, right_byte right) relay.challenges ≡ none

pub answer_write_keeps :
    (relay : Relay) (out : Store × Result Refusal Bytes)
    → (answer_write relay out).0.challenges ≡ relay.challenges
answer_write_keeps relay (store, ok name) = refl
answer_write_keeps relay (store, err refusal) = refl

pub answer_read_keeps :
    (relay : Relay) (out : Option Blob) → (answer_read relay out).0.challenges ≡ relay.challenges
answer_read_keeps relay none = refl
answer_read_keeps relay (some blob) = refl

pub answer_delete_keeps :
    (relay : Relay) (out : Store × Result Refusal (Unit {0}))
    → (answer_delete relay out).0.challenges ≡ relay.challenges
answer_delete_keeps relay (store, ok u) = refl
answer_delete_keeps relay (store, err refusal) = refl

-- What a request does behind its proof leaves the challenges alone.
abbrev pub KeepsChallenges : (Relay → Relay × Response) → Type 0
KeepsChallenges next = (relay : Relay) → (next relay).0.challenges ≡ relay.challenges

next-IsSpent :
    (queue_id : Bytes) (right : Right) (next : Relay → Relay × Response)
    → KeepsChallenges next
    → (relay : Relay) → IsSpent queue_id right relay
    → IsSpent queue_id right (next relay).0
next-IsSpent queue_id right next keeps relay spent =
    ap (get same_key (queue_id, right_byte right)) (keeps relay) ∙ spent

module _ (valid_key : Bytes → Bool) (verifies : Bytes → Bytes → Bytes → Bool) where
  -- Whatever the proof was, the challenge is gone, unless the queue is unknown.
  pub spend_cases :
      (relay : Relay) (queue_id proof : Bytes) (right : Right)
      → let out = spend valid_key verifies relay queue_id right proof in
        (out.1 ≡ err unknown_queue) ⊎ IsSpent queue_id right out.0
  unfolding spend
  spend_cases relay queue_id proof right =
      elim (Option-cases (registration_of relay.store queue_id)) [
        | inl e ↦ rw (e, spend) (inl refl)
        | inr (reg, e) ↦
            let key : ChallengeKey = (queue_id, right_byte right) in
            elim (Option-cases (get same_key key relay.challenges)) [
              | inl c ↦ rw (e, c, spend) (inr c)
              | inr (text, c) ↦ rw (e, c, spend) (inr (get-remove same_key key relay.challenges))
            ]
      ]

  -- A proof of any queue and right brings no challenge back.
  pub spend-IsSpent :
      (relay : Relay) (q proof queue_id : Bytes) (r right : Right)
      → IsSpent queue_id right relay
      → IsSpent queue_id right (spend valid_key verifies relay q r proof).0
  unfolding spend
  spend-IsSpent relay q proof queue_id r right spent =
      elim (Option-cases (registration_of relay.store q)) [
        | inl e ↦ rw (e, spend) spent
        | inr (reg, e) ↦
            let key : ChallengeKey = (q, right_byte r) in
            elim (Option-cases (get same_key key relay.challenges)) [
              | inl c ↦ rw (e, c, spend) spent
              | inr (text, c) ↦
                  rw (e, c, spend)
                    (get-remove-none same_key (queue_id, right_byte right) key relay.challenges
                      spent)
            ]
      ]

  -- With the challenge spent, a proof of the same right is refused, whatever it is.
  pub spend_refused :
      (relay : Relay) (queue_id proof : Bytes) (right : Right)
      → IsSpent queue_id right relay
      → (refusal : Refusal) × (spend valid_key verifies relay queue_id right proof
          ≡ (relay, err refusal))
        × ((refusal ≡ unknown_queue) ⊎ (refusal ≡ unknown_challenge))
  unfolding spend
  spend_refused relay queue_id proof right spent =
      elim (Option-cases (registration_of relay.store queue_id)) [
        | inl e ↦ rw (e, spend) (unknown_queue, refl, inl refl)
        | inr (reg, e) ↦ rw (e, spent, spend) (unknown_challenge, refl, inr refl)
      ]

pub after_spend_cases :
    (queue_id : Bytes) (right : Right) (next : Relay → Relay × Response)
    → KeepsChallenges next
    → (out : Relay × Result Refusal (Unit {0}))
    → (out.1 ≡ err unknown_queue) ⊎ IsSpent queue_id right out.0
    → ((after_spend out next).1 ≡ refused unknown_queue)
      ⊎ IsSpent queue_id right (after_spend out next).0
after_spend_cases queue_id right next keeps (r, err refusal) (inl e) = inl (cc)
after_spend_cases queue_id right next keeps (r, err refusal) (inr spent) = inr spent
after_spend_cases queue_id right next keeps (r, ok u) (inl e) = cc
after_spend_cases queue_id right next keeps (r, ok u) (inr spent) =
    inr (next-IsSpent queue_id right next keeps r spent)

pub after_spend-IsSpent :
    (queue_id : Bytes) (right : Right) (next : Relay → Relay × Response)
    → KeepsChallenges next
    → (out : Relay × Result Refusal (Unit {0})) → IsSpent queue_id right out.0
    → IsSpent queue_id right (after_spend out next).0
after_spend-IsSpent queue_id right next keeps (r, err refusal) spent = spent
after_spend-IsSpent queue_id right next keeps (r, ok u) spent =
    next-IsSpent queue_id right next keeps r spent
