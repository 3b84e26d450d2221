-- ===== src/Sync/Session/Contents.antt =====
-- crates/sync/src/session.rs: which messages each record of an opportunity carries.
use onestein.Base.{
  ℕ, ◌≡◌, refl, ap, ◌∙◌, inl, inr, Bool, true, false, not, ◌&&◌, ◌||◌, none, some, List, [], ◌∷◌,
  ◌++◌, map, arith, leb, if◌then◌else◌, Option-cases,
}
use onestein.Base.Bytes.{Bytes}
use onestein.Sync.Peer.{PeerMessageState}
use onestein.Sync.Session.{
  Mode, interactive, batch, eager, is_eager, ack, message, offer, request, unavailable, Shared,
  Sends, skip, send_it, offer_it, choose, acknowledge, add_ack, add, plan_loop, assemble, plan,
  unless_empty,
}

-- May it go out now, is it sent, is it offered.
abbrev pub is_due : Mode → ℕ → PeerMessageState → Bool
is_due mode now_ms s = is_eager mode || leb s.next_send_time now_ms

abbrev pub is_interactive : Mode → Bool
is_interactive interactive = true
is_interactive _ = false

abbrev pub is_sent : Mode → ℕ → PeerMessageState → Bool
is_sent mode now_ms s =
    is_due mode now_ms s && (s.requested || not (is_interactive mode) && not s.seen)

abbrev pub is_offered : Mode → ℕ → PeerMessageState → Bool
is_offered mode now_ms s =
    is_due mode now_ms s && (is_interactive mode && (not s.requested && not s.seen))

module _ {ℓ} {M : Type ℓ} where
  -- The identifiers of the entries whose state passes, and those of them that are gone.
  abbrev pub ids_where : (PeerMessageState → Bool) → List (Shared M) → List Bytes
  ids_where p [] = []
  ids_where p (entry ∷ rest) =
      if p entry.state then entry.id ∷ ids_where p rest else ids_where p rest

  abbrev pub gone_where : (PeerMessageState → Bool) → List (Shared M) → List Bytes
  gone_where p [] = []
  gone_where p (entry ∷ rest) = elim entry.body [
    | some body ↦ gone_where p rest
    | none ↦ if p entry.state then entry.id ∷ gone_where p rest else gone_where p rest
  ]

  abbrev pub bodies_where : (PeerMessageState → Bool) → List (Shared M) → List M
  bodies_where p [] = []
  bodies_where p (entry ∷ rest) = elim entry.body [
    | some body ↦ if p entry.state then body ∷ bodies_where p rest else bodies_where p rest
    | none ↦ bodies_where p rest
  ]

  -- The four vectors by themselves.
  abbrev pub sends_of : Mode → ℕ → List (Shared M) → Sends M
  sends_of mode now_ms shared = record {
    acks = ids_where (λ s. s.ack_pending) shared;
    gone = gone_where (is_sent mode now_ms) shared;
    offers = ids_where (is_offered mode now_ms) shared;
    messages = bodies_where (is_sent mode now_ms) shared;
  }

choose_lem :
    (mode : Mode) (now_ms : ℕ) (s : PeerMessageState)
    → choose mode now_ms (acknowledge s) ≡ (
        if is_sent mode now_ms s
        then send_it
        else if is_offered mode now_ms s
        then offer_it
        else skip)
unfolding choose
choose_lem interactive now_ms s = ground arith
choose_lem batch now_ms s = ground arith
choose_lem eager now_ms s = ground arith

-- No entry is both sent and offered.
apart :
    (mode : Mode) (now_ms : ℕ) (s : PeerMessageState)
    → is_sent mode now_ms s ≡ true
    → is_offered mode now_ms s ≡ false
apart interactive now_ms s h = ground arith
apart batch now_ms s h = ground arith
apart eager now_ms s h = ground arith

module _ {ℓ} {M : Type ℓ} (mode : Mode) (now_ms latency : ℕ) where
  round_lem :
      (entry : Shared M) (rest : List (Shared M))
      → add_ack entry
          (add (choose mode now_ms (acknowledge entry.state)) entry (sends_of mode now_ms rest))
        ≡ sends_of mode now_ms (entry ∷ rest)
  round_lem entry rest = rw (choose_lem mode now_ms entry.state) (elim (Option-cases entry.body) [
    | inl e ↦ ground (arith, apart mode now_ms entry.state)
    | inr (body, e) ↦ ground (arith, apart mode now_ms entry.state)
  ])

  loop_sends :
      (shared : List (Shared M))
      → (plan_loop mode now_ms latency shared).1 ≡ sends_of mode now_ms shared
  unfolding plan_loop
  loop_sends [] = refl
  loop_sends (entry ∷ rest) =
      ap (λ out. add_ack entry (add (choose mode now_ms (acknowledge entry.state)) entry out))
        (loop_sends rest)
      ∙ round_lem entry rest

  -- The records of an opportunity are, in this order: acknowledgements for what is owed; a request for what
  -- the peer offered; in every mode what is due and wanted, seen or not, and in batch and eager mode also
  -- what is due and not seen, named as unavailable where the body is gone, and sent where it is held; and in
  -- interactive mode an offer of what is due and neither wanted nor seen, held or gone. Everything is due in
  -- eager mode, and else what has reached its time. A record without content is left out.
  pub plan_lem :
      (shared : List (Shared M)) (offered_by_peer : List Bytes)
      → (plan mode now_ms latency shared offered_by_peer).1
        ≡ unless_empty ack (ids_where (λ s. s.ack_pending) shared)
          ++ unless_empty request offered_by_peer
          ++ unless_empty unavailable (gone_where (is_sent mode now_ms) shared)
          ++ map message (bodies_where (is_sent mode now_ms) shared)
          ++ unless_empty offer (ids_where (is_offered mode now_ms) shared)
  unfolding plan
  plan_lem shared offered_by_peer = ap (λ out. assemble out offered_by_peer) (loop_sends shared)
