-- ===== src/Sync/Records/Opportunity.antt =====
-- crates/sync: what an opportunity to send puts on the wire, the other device reads.
use onestein.Base.{
  ℕ, ◌≡◌, Bool, true, false, Option, none, some, List, [], ◌∷◌, ◌++◌, map, if◌then◌else◌, All,
  All-append, ok,
}
use onestein.Base.Bytes.{Bytes}
use onestein.Record.Codec.{write_all}
use onestein.Sync.Identifiers.{malformed, IsIdentifier}
use onestein.Sync.Messages.{SignedMessage, sync_version}
use onestein.Sync.Session.{
  Mode, Action, skip, offer_it, send_it, Shared, Sends, SyncRecord, ack, message, offer, request,
  unavailable, add, add_ack, choose, acknowledge, unless_empty, plan, plan_loop,
}
use onestein.Sync.Records.{encode_record, read_record, decode_records}
use onestein.Sync.Records.RoundTrip.{IsSyncRecord, IsSigned, decode_records-encode_record}

-- The arrays of an entry have the lengths of their types.
abbrev pub IsBody : Option SignedMessage → Type 0
IsBody none = Unit {0}
IsBody (some signed) = IsSigned signed

abbrev pub IsShared : Shared SignedMessage → Type 0
IsShared entry = IsIdentifier entry.id × IsBody entry.body

abbrev AreSends : Sends SignedMessage → Type 0
AreSends out =
    All IsIdentifier out.acks
    × All IsIdentifier out.gone
    × All IsIdentifier out.offers
    × All IsSigned out.messages

add-AreSends :
    (action : Action) (entry : Shared SignedMessage) (out : Sends SignedMessage)
    → IsShared entry
    → AreSends out
    → AreSends (add action entry out)
add-AreSends skip entry out h all = all
add-AreSends offer_it entry out h (a, g, o, m) = (a, g, (h.0, o), m)
add-AreSends send_it entry out h (a, g, o, m) = sent entry.body h.1
  where
    sent :
        (body : Option SignedMessage)
        → IsBody body
        → AreSends (elim body [
          | some signed ↦ record out { messages = signed ∷ out.messages }
          | none ↦ record out { gone = entry.id ∷ out.gone }
        ])
    sent none hb = (a, (h.0, g), o, m)
    sent (some signed) hb = (a, g, o, (hb, m))

add_ack-AreSends :
    (entry : Shared SignedMessage) (out : Sends SignedMessage)
    → IsShared entry
    → AreSends out
    → AreSends (add_ack entry out)
add_ack-AreSends entry out h (a, g, o, m) = owed entry.state.ack_pending
  where
    owed :
        (pending : Bool)
        → AreSends (if pending then record out { acks = entry.id ∷ out.acks } else out)
    owed true = ((h.0, a), g, o, m)
    owed false = (a, g, o, m)

plan_loop-AreSends :
    (mode : Mode) (now_ms latency : ℕ) (shared : List (Shared SignedMessage))
    → All IsShared shared
    → AreSends (plan_loop mode now_ms latency shared).1
unfolding plan_loop
plan_loop-AreSends mode now_ms latency [] h = (tt, tt, tt, tt)
plan_loop-AreSends mode now_ms latency (entry ∷ rest) h =
    let out = (plan_loop mode now_ms latency rest).1 in
    let action = choose mode now_ms (acknowledge entry.state) in
    add_ack-AreSends entry (add action entry out) h.0
      (add-AreSends action entry out h.0 (plan_loop-AreSends mode now_ms latency rest h.1))

messages-All :
    (bodies : List SignedMessage) → All IsSigned bodies → All IsSyncRecord (map message bodies)
messages-All [] h = tt
messages-All (signed ∷ bodies) h = (h.0, messages-All bodies h.1)

ids-All :
    (kind : List Bytes → SyncRecord SignedMessage)
    → ((ids : List Bytes) → All IsIdentifier ids → IsSyncRecord (kind ids))
    → (ids : List Bytes) → All IsIdentifier ids
    → All IsSyncRecord (unless_empty kind ids)
ids-All kind good [] h = tt
ids-All kind good (id ∷ ids) h = (good (id ∷ ids) h, tt)

module _ (mode : Mode) (now_ms latency : ℕ) (shared : List (Shared SignedMessage))
    (offered_by_peer : List Bytes) (entries : All IsShared shared)
    (offered : All IsIdentifier offered_by_peer) where
  plan-IsSyncRecord : All IsSyncRecord (plan mode now_ms latency shared offered_by_peer).1
  unfolding plan
  plan-IsSyncRecord =
      let out = (plan_loop mode now_ms latency shared).1 in
      let (a, g, o, m) = plan_loop-AreSends mode now_ms latency shared entries in
      let acks = unless_empty ack out.acks in
      let asked = acks ++ unless_empty request offered_by_peer in
      let gone = asked ++ unless_empty unavailable out.gone in
      let sent = gone ++ map message out.messages in
      let asked-All : All IsSyncRecord asked =
        All-append IsSyncRecord acks (unless_empty request offered_by_peer)
          (ids-All ack (λ ids h. h) out.acks a)
          (ids-All request (λ ids h. h) offered_by_peer offered) in
      let gone-All : All IsSyncRecord gone =
        All-append IsSyncRecord asked (unless_empty unavailable out.gone) asked-All
          (ids-All unavailable (λ ids h. h) out.gone g) in
      let sent-All : All IsSyncRecord sent =
        All-append IsSyncRecord gone (map message out.messages) gone-All
          (messages-All out.messages m) in
      All-append IsSyncRecord sent (unless_empty offer out.offers) sent-All
        (ids-All offer (λ ids h. h) out.offers o)

  -- Whatever an opportunity sends, once it could be written, the other device reads as it was meant.
  pub decode_records-plan :
      (input : Bytes)
      → write_all
          (λ _. malformed)
          read_record
          encode_record
          sync_version
          (plan mode now_ms latency shared offered_by_peer).1
        ≡ ok input
      → decode_records input ≡ some (ok (plan mode now_ms latency shared offered_by_peer).1)
  decode_records-plan input =
      decode_records-encode_record (plan mode now_ms latency shared offered_by_peer).1 input
        plan-IsSyncRecord
