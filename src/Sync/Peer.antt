-- ===== src/Sync/Peer.antt =====
-- crates/sync/src/peer.rs: what a device remembers about one message and one peer.
use onestein.Base.{
  ℕ, ◌+◌, ◌-◌, ◌*◌, ◌^◌, ◌≤◌, ◌<◌, min, ◌≡◌, Bool, true, false, List, [], ◌∷◌, arith, leb, length,
}
use onestein.Base.Words.{u64_max, u32_max, saturating_add, saturating_mul, saturating_add_u32}
use Prim.Native.Nat.{max}
use native.Mathlib.Nat.{mul-le-mul_left, pow-le-pow_right}

pub record PeerMessageState : Type 0 where
  pub seen : Bool
  pub ack_pending : Bool
  pub requested : Bool
  pub send_count : ℕ
  pub next_send_time : ℕ
  pub max_latency : ℕ

abbrev pub max_backoff_doublings : ℕ
max_backoff_doublings = 10

abbrev pub new : PeerMessageState
new = record {
  seen = false;
  ack_pending = false;
  requested = false;
  send_count = 0;
  next_send_time = 0;
  max_latency = 0;
}

abbrev pub ready_to_send : PeerMessageState → ℕ → Bool
ready_to_send s now_ms = leb s.next_send_time now_ms

-- The delay behind a send count, for a transport of this latency. `1u64 << doublings` is below 2 ^ 11.
unfoldable pub delay : ℕ → ℕ → ℕ
delay send_count latency =
    max (saturating_mul latency (2 ^ min (send_count - 1) max_backoff_doublings)) 1

unfoldable pub on_sent : ℕ → ℕ → PeerMessageState → PeerMessageState
on_sent now_ms latency s =
    let count = saturating_add_u32 s.send_count 1 in
    record s {
      send_count = count;
      max_latency = latency;
      requested = false;
      next_send_time = saturating_add now_ms (delay count latency);
    }

abbrev pub on_peer_acked : PeerMessageState → PeerMessageState
on_peer_acked s = record s { seen = true }

abbrev pub on_peer_offered : PeerMessageState → PeerMessageState
on_peer_offered s = record s { seen = true; ack_pending = true }

abbrev pub on_acknowledged : PeerMessageState → PeerMessageState
on_acknowledged s = record s { ack_pending = false }

abbrev pub on_peer_requested : PeerMessageState → PeerMessageState
on_peer_requested s = record s { requested = true }

-- A message that was sent is not ready again at the same time, unless that is the last time there is.
pub on_sent-ready_to_send :
    (now_ms latency : ℕ) (s : PeerMessageState)
    → now_ms < u64_max
    → ready_to_send (on_sent now_ms latency s) now_ms ≡ false
unfolding on_sent delay
on_sent-ready_to_send now_ms latency s h = ground arith

-- The message is sent again and again over one transport, at the given times.
abbrev pub sent_at : ℕ → List ℕ → PeerMessageState → PeerMessageState
sent_at latency [] s = s
sent_at latency (t ∷ ts) s = sent_at latency ts (on_sent t latency s)

sent_at-send_count :
    (latency : ℕ) (ts : List ℕ) (s : PeerMessageState)
    → s.send_count ≤ u32_max
    → (sent_at latency ts s).send_count ≡ min (s.send_count + length ts) u32_max
unfolding on_sent
sent_at-send_count latency [] s h = omega arith
sent_at-send_count latency (t ∷ ts) s h =
    omega (arith, sent_at-send_count latency ts (on_sent t latency s) (omega arith))

delay_bounds :
    (count latency : ℕ) → (1 ≤ delay count latency) × (delay count latency ≤ max (latency * 1024) 1)
unfolding delay
delay_bounds count latency =
    let most : min (count - 1) 10 ≤ 10 = omega arith in
    let small : 2 ^ min (count - 1) 10 ≤ 2 ^ 10 = pow-le-pow_right (omega arith) most in
    (omega arith, omega (arith, mul-le-mul_left latency small))

-- After a send the message is due again later than now, at the latest behind 1024 times the latency
-- (or one millisecond), and at a time that a u64 clock reaches.
pub on_sent_due :
    (now_ms latency : ℕ) (s : PeerMessageState)
    → now_ms < u64_max
    → let due = (on_sent now_ms latency s).next_send_time in
      (now_ms < due) × (due ≤ now_ms + max (latency * 1024) 1) × (due ≤ u64_max)
unfolding on_sent
on_sent_due now_ms latency s h =
    let (least, most) = delay_bounds (saturating_add_u32 s.send_count 1) latency in
    (omega arith, omega arith, omega arith)
