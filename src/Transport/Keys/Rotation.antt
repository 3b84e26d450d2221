-- ===== src/Transport/Keys/Rotation.antt =====
-- crates/transport/src/lib.rs: rotating in several steps and rotating in one lead to the same keys.
use native.Mathlib.Nat.{zero-add, add-zero, suc-add}
use onestein.Base.{ℕ, zero, suc, ◌+◌, ◌-◌, ◌≤◌, ◌<◌, ◌≡◌, refl, sym, ap, ◌∙◌, arith, ok}
use onestein.Base.Bytes.{Bytes}
use onestein.Base.Words.{u64_max, saturating_add}
use onestein.Transport.Keys.{PeriodKeys, max_rotations, rotate_once, rotate_rounds, rotate_to}

module _ (keyed : Bytes → Bytes → Bytes) where
  rotate_rounds-add :
      (m n next : ℕ) (keys : PeriodKeys)
      → rotate_rounds keyed (m + n) next keys
        ≡ rotate_rounds keyed n (next + m) (rotate_rounds keyed m next keys)
  unfolding rotate_rounds
  rotate_rounds-add zero n next keys = rw (zero-add, add-zero) refl
  rotate_rounds-add (suc m) n next keys =
      let here : next + 1 + m ≡ next + suc m = omega arith in
      rw (suc-add, ← here) (rotate_rounds-add m n (next + 1) (rotate_once keyed next keys))

  -- The rounds look at no period.
  rotate_rounds-period :
      (n next period : ℕ) (keys : PeriodKeys)
      → rotate_rounds keyed n next (record keys { period = period })
        ≡ record (rotate_rounds keyed n next keys) { period = period }
  unfolding rotate_rounds
  rotate_rounds-period zero next period keys = refl
  rotate_rounds-period (suc n) next period keys =
      rotate_rounds-period n (next + 1) period (rotate_once keyed next keys)

  -- What rotation to a period within reach gives.
  rotate_to_near :
      (keys : PeriodKeys) (period : ℕ)
      → keys.period < u64_max
      → keys.period ≤ period
      → period - keys.period ≤ max_rotations
      → rotate_to keyed keys period
        ≡ ok (record (rotate_rounds keyed (period - keys.period) (keys.period + 1) keys) {
          period = period;
        })
  unfolding rotate_to
  rotate_to_near keys period top le near =
      let first : saturating_add keys.period 1 ≡ keys.period + 1 = omega arith in
      let rounds : period + 1 - (keys.period + 1) ≡ period - keys.period = omega arith in
      rw (first, rounds) (ground arith)

  rotate_to_ahead :
      (keys : PeriodKeys) (period : ℕ) {stop : PeriodKeys}
      → rotate_to keyed keys period ≡ ok stop
      → keys.period ≤ period
  unfolding rotate_to
  rotate_to_ahead keys period h = ground arith

  -- Rotating to a period and then to a later one gives what one rotation to the later one gives,
  -- while both are within reach of the first and the first stop is not the last period of a u64.
  pub rotate_to_twice :
      (keys stop : PeriodKeys) (between period : ℕ)
      → between < u64_max
      → between ≤ period
      → period - keys.period ≤ max_rotations
      → rotate_to keyed keys between ≡ ok stop
      → rotate_to keyed stop period ≡ rotate_to keyed keys period
  rotate_to_twice keys stop between period top le near h =
      let ahead = rotate_to_ahead keys between h in
      let m : ℕ = between - keys.period in
      let n : ℕ = period - between in
      let rounds = rotate_rounds keyed m (keys.period + 1) keys in
      let all : m + n ≡ period - keys.period = omega arith in
      let onwards : keys.period + 1 + m ≡ between + 1 = omega arith in
      let split =
        ap (λ t. rotate_rounds keyed t (keys.period + 1) keys) (sym all)
        ∙ rotate_rounds-add m n (keys.period + 1) keys
        ∙ ap (λ t. rotate_rounds keyed n t rounds) onwards in
      let there = rotate_to_near keys between (omega arith) ahead (omega arith) in
      let reached : record rounds { period = between } ≡ stop = cc (there, h) in
      rw (← reached, rotate_to_near keys period (omega arith) (omega arith) near)
        (rotate_to_near (record rounds { period = between }) period top le (omega arith)
          ∙ ap (λ (k : PeriodKeys). ok (record k { period = period }))
              (rotate_rounds-period n (between + 1) between rounds)
          ∙ ap (λ (k : PeriodKeys). ok (record k { period = period })) (sym split))
