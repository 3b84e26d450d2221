-- ===== src/Transport/Window.antt =====
-- crates/transport/src/window.rs: the reordering window of stream numbers.
pub mod Slide
pub mod Replay
pub mod Expected
use onestein.Base.{
  ℕ, zero, suc, ◌*◌, ◌/◌, ◌%◌, ◌^◌, bit_and, bit_or, Bool, false, not, Option, none, some, ltb, leb,
  ◌==◌, if◌then◌else◌, Result, ok, err,
}
use onestein.Base.Words.{saturating_add, checked_sub, u32_max, u32_mod}

abbrev pub window_len : ℕ
window_len = 32

pub data WindowError : Type 0 where
  -- The number offered, and the base; the number, and the first number beyond the window.
  already_passed : ℕ → ℕ → WindowError
  outside_window : ℕ → ℕ → WindowError
  already_seen : ℕ → WindowError
  counter_exhausted : WindowError

pub record Window : Type 0 where
  pub base : ℕ
  pub seen : ℕ

abbrev pub new : Window
new = record { base = 0; seen = 0 }

abbrev pub offset : Window → ℕ → Option ℕ
offset w n = elim (checked_sub n w.base) [
  | none ↦ none
  | some o ↦ if leb window_len o then none else some o
]

-- `1u32 << offset`: the offset is below 32.
abbrev pub bit : ℕ → ℕ
bit o = 2 ^ o

abbrev pub is_set : ℕ → ℕ → Bool
is_set seen mask = not (bit_and seen mask == 0)

unfoldable pub is_seen : Window → ℕ → Bool
is_seen w n = elim (offset w n) [ none ↦ false | some o ↦ is_set w.seen (bit o) ]

abbrev pub slide : Window → Window
slide w = record { base = saturating_add w.base 1; seen = w.seen / 2 }

-- `u32::MAX << (WINDOW_LEN / 2)`.
abbrev pub top_half : ℕ
top_half = u32_max * 2 ^ (window_len / 2) % u32_mod

-- `while self.seen & mask != 0 { self.slide() }`. The seen bits are a u32, so 32 slides empty them.
unfoldable pub slide_while : ℕ → ℕ → Window → Window
slide_while mask zero w = w
slide_while mask (suc fuel) w =
    let rest = slide_while mask fuel (slide w) in if is_set w.seen mask then rest else w

abbrev pub fuel : ℕ
fuel = 32

unfoldable pub settle : Window → Window
settle w = slide_while 1 fuel (slide_while top_half fuel w)

unfoldable pub mark_seen : Window → ℕ → Window × Result WindowError (Unit {0})
unfolding settle
mark_seen w n = if ltb n w.base then (w, err (already_passed n w.base)) else elim (offset w n) [
  | none ↦ (w, err (outside_window n (saturating_add w.base window_len)))
  | some o ↦
      if is_set w.seen (bit o)
      then (w, err (already_seen n))
      else (settle (record w { seen = bit_or w.seen (bit o) }), ok tt)
]
