-- ===== src/Transport/Counter.antt =====
-- crates/transport/src/window.rs: the counter of the streams sent to one peer in one period.
use onestein.Base.{
  ℕ, zero, suc, ◌+◌, ◌≤◌, min, ◌≡◌, refl, inl, inr, Bool, true, false, none, some, arith, leb,
  if◌then◌else◌, Bool-cases, Result, ok, err,
}
use onestein.Base.Words.{u64_max, checked_add}
use onestein.Transport.Window.{WindowError, counter_exhausted}

pub record StreamCounter : Type 0 where
  pub following : ℕ
  pub exhausted : Bool

abbrev pub new : StreamCounter
new = record { following = 0; exhausted = false }

abbrev pub restore : ℕ → StreamCounter
restore n = record { following = n; exhausted = false }

abbrev pub peek : StreamCounter → ℕ
peek c = c.following

-- `StreamCounter::take`.
pub take_next : StreamCounter → StreamCounter × Result WindowError ℕ
take_next c = if c.exhausted then (c, err counter_exhausted) else elim (checked_add c.following 1) [
  | some n ↦ (record c { following = n }, ok c.following)
  | none ↦ (record c { exhausted = true }, ok c.following)
]

-- The counter after a number of calls.
abbrev pub after : ℕ → StreamCounter → StreamCounter
after zero c = c
after (suc k) c = after k (take_next c).0

exhausted_stays : (k : ℕ) (c : StreamCounter) → c.exhausted ≡ true → after k c ≡ c
unfolding take_next
exhausted_stays zero c h = refl
exhausted_stays (suc k) c h =
    let same : (take_next c).0 ≡ c = rw (h, take_next) in rw same (exhausted_stays k c h)

-- The k-th call on a restored counter hands out the k-th number from there, and every call behind the
-- last number of the range is refused: no number is handed out twice.
pub take_next-after :
    (k n : ℕ)
    → n ≤ u64_max
    → (take_next (after k (restore n))).1
      ≡ (if leb (n + k) u64_max then ok (n + k) else err counter_exhausted)
unfolding take_next
take_next-after zero n h = ground arith
take_next-after (suc k) n h = elim (Bool-cases (leb (n + 1) u64_max)) [
  | inl more ↦ ground (arith, take_next-after k (n + 1))
  | inr last ↦ ground (arith, exhausted_stays k (record { following = n; exhausted = true }) refl)
]

peek-after : (k n : ℕ) → n ≤ u64_max → peek (after k (restore n)) ≡ min (n + k) u64_max
unfolding take_next
peek-after zero n h = omega arith
peek-after (suc k) n h = elim (Bool-cases (leb (n + 1) u64_max)) [
  | inl more ↦ ground (arith, peek-after k (n + 1))
  | inr last ↦ ground (arith, exhausted_stays k (record { following = n; exhausted = true }) refl)
]

-- Storing `peek` and restoring it keeps the next number while numbers are left. Once the range is
-- used up the restored counter hands out the last number of it again.
pub take_next-restore-peek :
    (k n : ℕ)
    → n ≤ u64_max
    → (take_next (restore (peek (after k (restore n))))).1 ≡ ok (min (n + k) u64_max)
unfolding take_next
take_next-restore-peek k n h = ground (arith, peek-after k n)
