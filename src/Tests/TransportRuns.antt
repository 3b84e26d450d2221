-- ===== src/Tests/TransportRuns.antt =====
-- crates/transport/src/window.rs at concrete stream numbers.
use onestein.Base.{
  ◌+◌, ◌-◌, ◌^◌, ◌≤◌, ◌<◌, min, ◌≡◌, refl, ap, ◌≢◌, ◌↔◌, false, ◌||◌, [], ◌∷◌, arith, leb, ◌==◌,
  if◌then◌else◌, ok, err,
}
use onestein.Base.Words.{u64_max}
use onestein.Transport.Window.{
  Window, mark_seen, is_seen, settle, slide_while, already_passed, outside_window, already_seen,
  counter_exhausted, window_len,
}
use onestein.Transport.Window.Replay.{
  IsValid, mark_seen_iff, offer, offer_no_replay, is_seen-mark_seen,
}
use onestein.Transport.Counter.{
  peek, restore, take_next, after, take_next-after, take_next-restore-peek,
}

-- Numbers 6 and 7 seen, five passed.
abbrev sample : Window
sample = record { base = 5; seen = 6 }

sample-IsValid : IsValid sample
sample-IsValid = record { word = omega arith; room = omega arith }

run_accepts : mark_seen sample 9 ≡ (record { base = 5; seen = 22 }, ok tt)
unfolding mark_seen settle slide_while
run_accepts = refl

run_slides : mark_seen sample 5 ≡ (record { base = 8; seen = 0 }, ok tt)
unfolding mark_seen settle slide_while
run_slides = refl

run_far : mark_seen sample 30 ≡ (record { base = 15; seen = 2 ^ 15 }, ok tt)
unfolding mark_seen settle slide_while
run_far = refl

run_refuses : (mark_seen sample 6).1 ≡ err (already_seen 6)
unfolding mark_seen
run_refuses = refl

run_behind : (mark_seen sample 4).1 ≡ err (already_passed 4 5)
unfolding mark_seen
run_behind = refl

run_beyond : (mark_seen sample 37).1 ≡ err (outside_window 37 37)
unfolding mark_seen
run_beyond = refl

-- At the top of the range the base cannot move, and the last number is accepted again.
run_top :
    mark_seen (record { base = u64_max; seen = 0 }) u64_max
    ≡ (record { base = u64_max; seen = 0 }, ok tt)
unfolding mark_seen settle slide_while
run_top = refl

mark_seen_iff_example :
    ((mark_seen sample 9).1 ≡ ok tt) ↔ ((5 ≤ 9) × (9 < 5 + window_len) × (is_seen sample 9 ≡ false))
mark_seen_iff_example = mark_seen_iff sample 9

offer_no_replay_example : (mark_seen (offer sample (9 ∷ 5 ∷ 30 ∷ 9 ∷ [])) 9).1 ≢ ok tt
offer_no_replay_example =
    offer_no_replay sample 9 (5 ∷ 30 ∷ 9 ∷ []) sample-IsValid
      (omega arith, (omega arith, (omega arith, (omega arith, tt)))) (ap (λ p. p.1) run_accepts)

is_seen-mark_seen_example : is_seen (mark_seen sample 9).0 9 ≡ (is_seen sample 9 || 9 == 9)
is_seen-mark_seen_example =
    is_seen-mark_seen sample 9 9 sample-IsValid (omega arith) (ap (λ p. p.1) run_accepts)
      (omega (arith, ap (λ p. p.0.base) run_accepts))

take_next-after_example :
    (take_next (after 2 (restore (u64_max - 1)))).1
    ≡ (if leb (u64_max - 1 + 2) u64_max then ok (u64_max - 1 + 2) else err counter_exhausted)
take_next-after_example = take_next-after 2 (u64_max - 1) (omega arith)

take_next-restore-peek_example :
    (take_next (restore (peek (after 2 (restore (u64_max - 1)))))).1
    ≡ ok (min (u64_max - 1 + 2) u64_max)
take_next-restore-peek_example = take_next-restore-peek 2 (u64_max - 1) (omega arith)
