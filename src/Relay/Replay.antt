-- ===== src/Relay/Replay.antt =====
-- crates/relay/src/api.rs: a challenge is good once.
use onestein.Base.{
  ℕ, ◌≡◌, refl, subst, ◌⊎◌, inl, inr, Bool, false, Option, none, some, List, [], ◌∷◌, Option-cases,
  All,
}
use onestein.Base.Bytes.{Bytes}
use onestein.Base.Maps.{get-remove-none}
use onestein.Relay.{Right, write_right, read_right}
use onestein.Relay.Store.{
  unknown_queue, unknown_challenge, registration_of, write, read, delete, expire,
}
use onestein.Relay.Handle.{
  Request, register_request, challenge_request, write_request, read_request, delete_request,
  Response, refused, right_byte, same_key, Relay, spend, after_spend, answer_write, answer_read,
  answer_delete, handle, Event, asked, expired, serve,
}
use onestein.Relay.Spent.{
  IsSpent, KeepsChallenges, answer_write_keeps, answer_read_keeps, answer_delete_keeps, spend_cases,
  spend-IsSpent, spend_refused, after_spend_cases, after_spend-IsSpent,
}

-- The event is no request for a challenge for the queue and the right.
abbrev pub IsUnasked : Bytes → Right → Event → Type 0
IsUnasked queue_id right (asked (challenge_request q r) now_ms fresh) =
    same_key (queue_id, right_byte right) (q, right_byte r) ≡ false
IsUnasked queue_id right _ = Unit {0}

-- The queue and the right that a request proves, if it carries a proof.
abbrev pub proves : Request → Option (Bytes × Right)
proves (write_request queue_id proof blob) = some (queue_id, write_right)
proves (read_request queue_id proof) = some (queue_id, read_right)
proves (delete_request queue_id proof name) = some (queue_id, read_right)
proves _ = none

abbrev pub IsRefused : Response → Type 0
IsRefused (refused refusal) = (refusal ≡ unknown_queue) ⊎ (refusal ≡ unknown_challenge)
IsRefused _ = ⊥

some_inj {ℓ} : {A : Type ℓ} {a b : A} → some a ≡ some b → a ≡ b
some_inj h = cc

module _ (blake2b : Bytes → Bytes) (valid_key : Bytes → Bool)
    (verifies : Bytes → Bytes → Bytes → Bool) where
  -- A request with a proof spends the challenge first, and then leaves the challenges alone.
  abbrev IsProved : Request → ℕ → Bytes → Bytes × Right → Type 0
  IsProved req now_ms fresh key =
      (proof : Bytes) × (next : Relay → Relay × Response) × KeepsChallenges next
      × ((relay : Relay)
          → handle blake2b valid_key verifies relay req now_ms fresh
            ≡ after_spend (spend valid_key verifies relay key.0 key.1 proof) next)

  proves-IsProved :
      (req : Request) (now_ms : ℕ) (fresh : Bytes) (key : Bytes × Right)
      → proves req ≡ some key
      → IsProved req now_ms fresh key
  unfolding handle
  proves-IsProved (register_request a b c) now_ms fresh key h = cc
  proves-IsProved (challenge_request a b) now_ms fresh key h = cc
  proves-IsProved (write_request queue_id proof blob) now_ms fresh key h =
      subst (IsProved (write_request queue_id proof blob) now_ms fresh) (some_inj h) (
        proof,
        (λ s. answer_write s (write blake2b s.store queue_id blob now_ms)),
        (λ s. answer_write_keeps s (write blake2b s.store queue_id blob now_ms)),
        λ relay. refl,
      )
  proves-IsProved (read_request queue_id proof) now_ms fresh key h =
      subst (IsProved (read_request queue_id proof) now_ms fresh) (some_inj h) (
        proof,
        (λ s. answer_read s (read s.store queue_id)),
        (λ s. answer_read_keeps s (read s.store queue_id)),
        λ relay. refl,
      )
  proves-IsProved (delete_request queue_id proof name) now_ms fresh key h =
      subst (IsProved (delete_request queue_id proof name) now_ms fresh) (some_inj h) (
        proof,
        (λ s. answer_delete s (delete s.store queue_id name)),
        (λ s. answer_delete_keeps s (delete s.store queue_id name)),
        λ relay. refl,
      )

  -- A request with a proof spends its challenge, unless the queue is unknown.
  handle_cases :
      (relay : Relay) (req : Request) (now_ms : ℕ) (fresh queue_id : Bytes) (right : Right)
      → proves req ≡ some (queue_id, right)
      → let out = handle blake2b valid_key verifies relay req now_ms fresh in
        (out.1 ≡ refused unknown_queue) ⊎ IsSpent queue_id right out.0
  handle_cases relay req now_ms fresh queue_id right h =
      let (proof, next, keeps, same) = proves-IsProved req now_ms fresh (queue_id, right) h in
      rw (same relay) (
        after_spend_cases queue_id right next keeps _
          (spend_cases valid_key verifies relay queue_id proof right))

  proved-IsSpent :
      (relay : Relay) (req : Request) (now_ms : ℕ) (fresh queue_id : Bytes) (right : Right)
      {key : Bytes × Right}
      → proves req ≡ some key
      → IsSpent queue_id right relay
      → IsSpent queue_id right (handle blake2b valid_key verifies relay req now_ms fresh).0
  proved-IsSpent relay req now_ms fresh queue_id right {key} h spent =
      let (proof, next, keeps, same) = proves-IsProved req now_ms fresh key h in
      rw (same relay) (
        after_spend-IsSpent queue_id right next keeps _
          (spend-IsSpent valid_key verifies relay key.0 proof queue_id key.1 right spent))

  -- Only a request for a challenge brings one back.
  handle-IsSpent :
      (relay : Relay) (req : Request) (now_ms : ℕ) (fresh queue_id : Bytes) (right : Right)
      → IsUnasked queue_id right (asked req now_ms fresh)
      → IsSpent queue_id right relay
      → IsSpent queue_id right (handle blake2b valid_key verifies relay req now_ms fresh).0
  unfolding handle
  handle-IsSpent relay (register_request a b c) now_ms fresh queue_id right other spent = spent
  handle-IsSpent relay (challenge_request q r) now_ms fresh queue_id right other spent =
      elim (Option-cases (registration_of relay.store q)) [
        | inl e ↦ rw (e, handle) spent
        | inr (reg, e) ↦
            rw (e, other, handle)
              (get-remove-none same_key (queue_id, right_byte right) (q, right_byte r)
                relay.challenges spent)
      ]
  handle-IsSpent relay (write_request a b c) now_ms fresh queue_id right other spent =
      proved-IsSpent relay (write_request a b c) now_ms fresh queue_id right refl spent
  handle-IsSpent relay (read_request a b) now_ms fresh queue_id right other spent =
      proved-IsSpent relay (read_request a b) now_ms fresh queue_id right refl spent
  handle-IsSpent relay (delete_request a b c) now_ms fresh queue_id right other spent =
      proved-IsSpent relay (delete_request a b c) now_ms fresh queue_id right refl spent

  serve-IsSpent :
      (relay : Relay) (events : List Event) (queue_id : Bytes) (right : Right)
      → All (IsUnasked queue_id right) events
      → IsSpent queue_id right relay
      → IsSpent queue_id right (serve blake2b valid_key verifies relay events)
  serve-IsSpent relay [] queue_id right others spent = spent
  serve-IsSpent relay (asked req now_ms fresh ∷ events) queue_id right others spent =
      serve-IsSpent (handle blake2b valid_key verifies relay req now_ms fresh).0 events queue_id
        right others.1 (handle-IsSpent relay req now_ms fresh queue_id right others.0 spent)
  serve-IsSpent relay (expired now_ms ∷ events) queue_id right others spent =
      serve-IsSpent (record relay { store = expire relay.store now_ms }) events queue_id right
        others.1 spent

  -- A request whose proof is of a spent right changes nothing.
  spent-IsRefused :
      (relay : Relay) (req : Request) (now_ms : ℕ) (fresh queue_id : Bytes) (right : Right)
      → proves req ≡ some (queue_id, right)
      → IsSpent queue_id right relay
      → let out = handle blake2b valid_key verifies relay req now_ms fresh in
        (out.0 ≡ relay) × IsRefused out.1
  spent-IsRefused relay req now_ms fresh queue_id right h spent =
      let (proof, next, keeps, same) = proves-IsProved req now_ms fresh (queue_id, right) h in
      let (refusal, e, why) = spend_refused valid_key verifies relay queue_id proof right spent in
      rw (same relay, e) (refl, why)

  -- After a request that proves a right to a queue, with a good or a bad proof, and that is not refused for
  -- an unknown queue, and after any further requests and expiries none of which asks for a challenge for
  -- that queue and right, every request that proves the right to the queue is refused, for an unknown queue
  -- or an unknown challenge, and changes nothing.
  pub handle_once :
      (relay : Relay) (req later : Request) (events : List Event) (now_ms later_ms : ℕ)
      (fresh fresh' queue_id : Bytes) (right : Right)
      → proves req ≡ some (queue_id, right)
      → ((handle blake2b valid_key verifies relay req now_ms fresh).1 ≡ refused unknown_queue → ⊥)
      → All (IsUnasked queue_id right) events
      → proves later ≡ some (queue_id, right)
      → let once = serve blake2b valid_key verifies relay (asked req now_ms fresh ∷ events) in
        let again = handle blake2b valid_key verifies once later later_ms fresh' in
        (again.0 ≡ once) × IsRefused again.1
  handle_once relay req later events now_ms later_ms fresh fresh' queue_id right h known others h' =
      elim (handle_cases relay req now_ms fresh queue_id right h) [
        | inl unknown ↦ absurd (known unknown)
        | inr spent ↦
            spent-IsRefused _ later later_ms fresh' queue_id right h'
              (serve-IsSpent _ events queue_id right others spent)
      ]
