-- ===== src/Sync/Session/Repeat.antt =====
-- crates/sync/src/session.rs: a second opportunity at the same time repeats nothing.
use onestein.Base.{ℕ, ◌<◌, ◌≡◌, refl, ap, ◌∙◌, ◌≢◌, ◌⊎◌, inl, inr, false, List, [], ◌∷◌, arith}
use onestein.Base.Words.{u64_max}
use onestein.Base.Bytes.{Bytes}
use onestein.Sync.Peer.{PeerMessageState, ready_to_send, on_sent, on_sent-ready_to_send}
use onestein.Sync.Session.{
  Mode, is_eager, Shared, Sends, nothing, Action, skip, send_it, offer_it, choose, acknowledge, act,
  visit, plan_loop, assemble, plan, request, unless_empty,
}

on_sent_clear :
    (now_ms latency : ℕ) (s : PeerMessageState)
    → s.ack_pending ≡ false
    → (on_sent now_ms latency s).ack_pending ≡ false
unfolding on_sent
on_sent_clear now_ms latency s h = h

acknowledge_clear : (s : PeerMessageState) → (acknowledge s).ack_pending ≡ false
acknowledge_clear s = ground arith

acknowledge_again : (s : PeerMessageState) → s.ack_pending ≡ false → acknowledge s ≡ s
acknowledge_again s h = rw h refl

choose_not_ready :
    (mode : Mode) (now_ms : ℕ) (s : PeerMessageState)
    → is_eager mode ≡ false
    → ready_to_send s now_ms ≡ false
    → choose mode now_ms s ≡ skip
unfolding choose
choose_not_ready mode now_ms s calm wait = rw (calm, wait) refl

Action-cases : (a : Action) → (a ≡ skip) ⊎ (a ≢ skip)
Action-cases skip = inl refl
Action-cases send_it = inr (λ e. cc)
Action-cases offer_it = inr (λ e. cc)

only_request {ℓ} :
    {M : Type ℓ} (later : List Bytes)
    → assemble (nothing {M = M}) later ≡ unless_empty request later
only_request [] = refl
only_request (id ∷ later) = refl

module _ (mode : Mode) (now_ms latency : ℕ) where
  act_clear :
      (a : Action) (s : PeerMessageState)
      → s.ack_pending ≡ false
      → (act mode now_ms latency a s).ack_pending ≡ false
  act_clear skip s h = h
  act_clear send_it s h = on_sent_clear now_ms latency s h
  act_clear offer_it s h = on_sent_clear now_ms latency s h

  visit_clear : (s : PeerMessageState) → (visit mode now_ms latency s).ack_pending ≡ false
  visit_clear s =
      act_clear (choose mode now_ms (acknowledge s)) (acknowledge s) (acknowledge_clear s)

  -- A round that sends puts the entry off; one that does not leaves it as it was.
  act_again :
      (a : Action) (s : PeerMessageState)
      → is_eager mode ≡ false
      → now_ms < u64_max
      → choose mode now_ms s ≡ a
      → choose mode now_ms (act mode now_ms latency a s) ≡ skip
  act_again skip s calm early e = e
  act_again send_it s calm early e =
      choose_not_ready mode now_ms _ calm (on_sent-ready_to_send now_ms latency s early)
  act_again offer_it s calm early e =
      choose_not_ready mode now_ms _ calm (on_sent-ready_to_send now_ms latency s early)

  visit_again :
      (s : PeerMessageState)
      → is_eager mode ≡ false
      → now_ms < u64_max
      → choose mode now_ms (acknowledge (visit mode now_ms latency s)) ≡ skip
  visit_again s calm early =
      rw (acknowledge_again (visit mode now_ms latency s) (visit_clear s))
        (act_again (choose mode now_ms (acknowledge s)) (acknowledge s) calm early refl)

module _ {ℓ} {M : Type ℓ} (mode : Mode) (now_ms latency : ℕ) (calm : is_eager mode ≡ false)
    (early : now_ms < u64_max) where
  -- An entry that was visited has nothing more to say at this time.
  settled_entry :
      (entry : Shared M) (rest after : List (Shared M)) (out : Sends M)
      → entry.state.ack_pending ≡ false
      → choose mode now_ms (acknowledge entry.state) ≡ skip
      → plan_loop mode now_ms latency rest ≡ (after, out)
      → plan_loop mode now_ms latency (entry ∷ rest) ≡ (entry ∷ after, out)
  unfolding plan_loop
  settled_entry entry rest after out clear idle more =
      rw (more, idle, acknowledge_again entry.state clear, clear) refl

  loop_again :
      (shared : List (Shared M))
      → let after = (plan_loop mode now_ms latency shared).0 in
        plan_loop mode now_ms latency after ≡ (after, nothing)
  unfolding plan_loop
  loop_again [] = refl
  loop_again (entry ∷ rest) =
      settled_entry _ _ _ _ (visit_clear mode now_ms latency entry.state)
        (visit_again mode now_ms latency entry.state calm early) (loop_again rest)

  -- Outside eager mode, a second opportunity at the same time sends nothing but the request for what
  -- the peer has offered since, and changes no state, unless the time is the last one there is.
  pub plan_again :
      (shared : List (Shared M)) (offered later : List Bytes)
      → let after = (plan mode now_ms latency shared offered).0 in
        plan mode now_ms latency after later ≡ (after, unless_empty request later)
  unfolding plan
  plan_again shared offered later =
      ap (λ p. (p.0, assemble p.1 later)) (loop_again shared)
      ∙ ap (λ r. ((plan_loop mode now_ms latency shared).0, r)) (only_request later)
