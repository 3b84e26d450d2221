-- ===== src/Tests/SyncRuns.antt =====
-- crates/sync at concrete messages. A message is a number here.
use onestein.Base.{
  ℕ, ◌+◌, ◌*◌, ◌≤◌, ◌<◌, ◌≡◌, refl, Bool, true, false, Option, none, some, List, [], ◌∷◌, ◌++◌, map,
  arith, if◌then◌else◌, replicate, bytes_eq, ok,
}
use onestein.Base.Words.{u64_max}
use Prim.Native.Nat.{max}
use onestein.Base.Bytes.{Bytes}
use onestein.Sync.Peer.{
  new, on_sent, on_sent_due, on_peer_acked, on_peer_offered, on_peer_requested,
}
use onestein.Sync.Session.{
  interactive, batch, ack, message, request, offer, unavailable, Shared, plan, plan_loop,
  unless_empty, choose,
}
use onestein.Sync.Session.Repeat.{plan_again}
use onestein.Sync.Session.Contents.{
  plan_lem, ids_where, gone_where, bodies_where, is_sent, is_offered,
}
use onestein.Sync.Identifiers.{identifiers}
use onestein.Sync.Delivery.{ready, deliverability, deliver_loop, rule, deliverability_lem}

-- One message is wanted, one wanted and gone, one unseen, and one owed an acknowledgement.
abbrev held : List (Shared ℕ)
held =
    record { id = 1 ∷ []; state = on_peer_requested new; body = some 70 }
    ∷ record { id = 2 ∷ []; state = on_peer_requested new; body = none }
    ∷ record { id = 3 ∷ []; state = new; body = some 80 }
    ∷ record { id = 4 ∷ []; state = on_peer_offered new; body = some 90 }
    ∷ []

run_interactive :
    (plan interactive 1000 60 held ((9 ∷ []) ∷ [])).1
    ≡ ack ((4 ∷ []) ∷ [])
      ∷ request ((9 ∷ []) ∷ [])
      ∷ unavailable ((2 ∷ []) ∷ [])
      ∷ message 70
      ∷ offer ((3 ∷ []) ∷ [])
      ∷ []
unfolding plan plan_loop choose
run_interactive = refl

run_batch :
    (plan batch 1000 60 held []).1
    ≡ ack ((4 ∷ []) ∷ []) ∷ unavailable ((2 ∷ []) ∷ []) ∷ message 70 ∷ message 80 ∷ []
unfolding plan plan_loop choose
run_batch = refl

-- Gone and unwanted: offered in interactive mode, named as unavailable in batch mode.
abbrev gone_entry : List (Shared ℕ)
gone_entry = record { id = 5 ∷ []; state = new; body = none } ∷ []

run_gone :
    ((plan interactive 1000 60 gone_entry []).1 ≡ offer ((5 ∷ []) ∷ []) ∷ [])
    × ((plan batch 1000 60 gone_entry []).1 ≡ unavailable ((5 ∷ []) ∷ []) ∷ [])
unfolding plan plan_loop choose
run_gone = (refl, refl)

-- Wanted and already seen: sent in batch mode.
abbrev seen_entry : List (Shared ℕ)
seen_entry =
    record { id = 6 ∷ []; state = on_peer_requested (on_peer_acked new); body = some 70 } ∷ []

run_seen : (plan batch 1000 60 seen_entry []).1 ≡ message 70 ∷ []
unfolding plan plan_loop choose
run_seen = refl

plan_again_example :
    plan interactive 1000 60 (plan interactive 1000 60 held []).0 []
    ≡ ((plan interactive 1000 60 held []).0, [])
plan_again_example = plan_again interactive 1000 60 refl (omega arith) held [] []

plan_lem_example :
    (plan batch 1000 60 held ((9 ∷ []) ∷ [])).1
    ≡ unless_empty ack (ids_where (λ s. s.ack_pending) held)
      ++ unless_empty request ((9 ∷ []) ∷ [])
      ++ unless_empty unavailable (gone_where (is_sent batch 1000) held)
      ++ map message (bodies_where (is_sent batch 1000) held)
      ++ unless_empty offer (ids_where (is_offered batch 1000) held)
plan_lem_example = plan_lem batch 1000 60 held ((9 ∷ []) ∷ [])

on_sent_due_example :
    (1000 < (on_sent 1000 60 new).next_send_time)
    × ((on_sent 1000 60 new).next_send_time ≤ 1000 + max (60 * 1024) 1)
    × ((on_sent 1000 60 new).next_send_time ≤ u64_max)
on_sent_due_example = on_sent_due 1000 60 new (omega arith)

-- One dependency was delivered, one lies inside the horizon, all else is missing.
abbrev arrived : Bytes → Option Bool
arrived id = if bytes_eq id (1 ∷ []) then some false else none

abbrev near : Bytes → Bool
near id = bytes_eq id (2 ∷ [])

run_incomplete : deliverability arrived near ((1 ∷ []) ∷ (2 ∷ []) ∷ []) ≡ ready true
unfolding deliverability deliver_loop
run_incomplete = refl

deliverability_lem_example :
    deliverability arrived near ((1 ∷ []) ∷ (3 ∷ []) ∷ [])
    ≡ rule arrived near ((1 ∷ []) ∷ (3 ∷ []) ∷ [])
deliverability_lem_example = deliverability_lem arrived near ((1 ∷ []) ∷ (3 ∷ []) ∷ [])

-- Two identifiers in one payload.
abbrev two_ids : List Bytes
two_ids = replicate 32 1 ∷ replicate 32 2 ∷ []

run_identifiers : identifiers two_ids ≡ ok (replicate 32 1 ++ replicate 32 2)
unfolding identifiers
run_identifiers = refl
