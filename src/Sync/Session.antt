-- ===== src/Sync/Session.antt =====
-- crates/sync/src/session.rs: what goes out at one opportunity to send, and what the state becomes.
pub mod Repeat
pub mod Contents
use onestein.Base.{
  ℕ, zero, suc, Bool, true, false, not, ◌||◌, Option, none, some, List, [], ◌∷◌, ◌++◌, map,
  if◌then◌else◌,
}
use onestein.Base.Bytes.{Bytes}
use onestein.Sync.Peer.{PeerMessageState, ready_to_send, on_sent, on_acknowledged}

pub data Mode : Type 0 where
  interactive batch eager : Mode

-- The signed messages are opaque here: `plan` passes them on.
module _ {ℓ} (M : Type ℓ) where
  -- The records of crates/sync/src/records.rs.
  pub data SyncRecord : Type ℓ where
    ack : List Bytes → SyncRecord
    message : M → SyncRecord
    offer : List Bytes → SyncRecord
    request : List Bytes → SyncRecord
    unavailable : List Bytes → SyncRecord
    unknown : ℕ → SyncRecord

  pub record Shared : Type ℓ where
    pub id : Bytes
    pub state : PeerMessageState
    pub body : Option M

  -- The four vectors that the loop fills.
  pub record Sends : Type ℓ where
    pub acks : List Bytes
    pub gone : List Bytes
    pub offers : List Bytes
    pub messages : List M

abbrev pub nothing {ℓ} : {M : Type ℓ} → Sends M
nothing = record { acks = []; gone = []; offers = []; messages = [] }

-- What one round does with an entry.
pub data Action : Type 0 where
  skip send_it offer_it : Action

abbrev pub is_eager : Mode → Bool
is_eager eager = true
is_eager _ = false

-- `ready`, `send` and the two conditions behind them.
unfoldable pub choose : Mode → ℕ → PeerMessageState → Action
choose mode now_ms s =
    if is_eager mode || ready_to_send s now_ms
    then elim mode [
      | interactive ↦ if s.requested then send_it else if not s.seen then offer_it else skip
      | _ ↦ if s.requested || not s.seen then send_it else skip
    ]
    else skip

abbrev pub acknowledge : PeerMessageState → PeerMessageState
acknowledge s = if s.ack_pending then on_acknowledged s else s

module _ (mode : Mode) (now_ms latency : ℕ) where
  abbrev pub act : Action → PeerMessageState → PeerMessageState
  act skip s = s
  act send_it s = on_sent now_ms latency s
  act offer_it s = on_sent now_ms latency s

  -- One round's effect on the entry's state.
  abbrev pub visit : PeerMessageState → PeerMessageState
  visit s = act (choose mode now_ms (acknowledge s)) (acknowledge s)

module _ {ℓ} {M : Type ℓ} where
  abbrev pub add_ack : Shared M → Sends M → Sends M
  add_ack entry out =
      if entry.state.ack_pending then record out { acks = entry.id ∷ out.acks } else out

  abbrev pub add : Action → Shared M → Sends M → Sends M
  add skip entry out = out
  add offer_it entry out = record out { offers = entry.id ∷ out.offers }
  add send_it entry out = elim entry.body [
    | some body ↦ record out { messages = body ∷ out.messages }
    | none ↦ record out { gone = entry.id ∷ out.gone }
  ]

  -- Nothing empty goes out.
  abbrev pub unless_empty : (List Bytes → SyncRecord M) → List Bytes → List (SyncRecord M)
  unless_empty kind [] = []
  unless_empty kind (x ∷ xs) = kind (x ∷ xs) ∷ []

  abbrev pub assemble : Sends M → List Bytes → List (SyncRecord M)
  assemble out offered_by_peer =
      unless_empty ack out.acks
      ++ unless_empty request offered_by_peer
      ++ unless_empty unavailable out.gone
      ++ map message out.messages
      ++ unless_empty offer out.offers

module _ {ℓ} {M : Type ℓ} (mode : Mode) (now_ms latency : ℕ) where
  -- The loop over the entries. Each vector keeps the order of the entries.
  unfoldable pub plan_loop : List (Shared M) → List (Shared M) × Sends M
  plan_loop [] = ([], nothing)
  plan_loop (entry ∷ rest) =
      let (after, out) = plan_loop rest in
      (
        (record entry { state = visit mode now_ms latency entry.state }) ∷ after,
        add_ack entry (add (choose mode now_ms (acknowledge entry.state)) entry out),
      )

  unfoldable pub plan : List (Shared M) → List Bytes → List (Shared M) × List (SyncRecord M)
  plan shared offered_by_peer =
      let (after, out) = plan_loop shared in (after, assemble out offered_by_peer)
