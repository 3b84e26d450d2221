-- ===== src/Transport/Window/Slide.antt =====
-- crates/transport/src/window.rs: the two loops that slide the window.
use onestein.Base.{
  ℕ, zero, suc, ◌+◌, ◌-◌, ◌*◌, ◌/◌, ◌%◌, ◌^◌, ◌≤◌, ◌<◌, ◌≡◌, sym, ap, ◌∙◌, ◌⊎◌, inl, inr, false,
  not, arith, ◌==◌, Bool-cases,
}
use onestein.Base.Bits.{
  bit_and-pow, bit_and-shl, bit_and-ones, div_pow_suc, pow_pos, zero-bit_and, div_pow_add,
}
use onestein.Base.Words.{u64_max, saturating_add}
use native.Mathlib.Nat.{pow-succ', div-le_self}
use onestein.Transport.Window.{Window, slide, slide_while, is_set, top_half, bit, settle, fuel}

-- The window moved k places.
abbrev pub moved : ℕ → Window → Window
moved k w = record { base = w.base + k; seen = w.seen / 2 ^ k }

half-cases : (x : ℕ) → (x % 2 ≡ 0) ⊎ (x % 2 ≡ 1)
half-cases x = omega arith

-- The three masks that the window reads its seen bits by.
pub is_set-bit : (seen o : ℕ) → is_set seen (bit o) ≡ not (seen / 2 ^ o % 2 == 0)
is_set-bit seen o = elim (half-cases (seen / 2 ^ o)) [
  | inl e ↦ ground (arith, bit_and-pow o seen, ap (λ (t : ℕ). t * 2 ^ o) e)
  | inr e ↦ ground (arith, bit_and-pow o seen, ap (λ (t : ℕ). t * 2 ^ o) e, pow_pos o)
]

pub is_set-top : (seen : ℕ) → seen < 2 ^ 32 → is_set seen top_half ≡ not (seen / 2 ^ 16 == 0)
is_set-top seen h =
    ground (arith, bit_and-shl 16 seen (2 ^ 16 - 1), bit_and-ones 16 (seen / 2 ^ 16))

pub is_set-low : (seen : ℕ) → is_set seen 1 ≡ not (seen % 2 == 0)
is_set-low seen = ground (arith, is_set-bit seen 0)

moved-slide : (k : ℕ) (w : Window) → w.base + 1 ≤ u64_max → moved k (slide w) ≡ moved (suc k) w
moved-slide k w room = λ i. record { base = base i; seen = seen i }
  where
    base : saturating_add w.base 1 + k ≡ w.base + suc k
    base = omega arith

    seen : w.seen / 2 / 2 ^ k ≡ w.seen / 2 ^ suc k
    seen = sym (div_pow_suc w.seen k)

-- With enough fuel a loop ends by its test; it moves the window, and takes none of the seen bits.
pub slide_while_lem :
    (mask f : ℕ) (w : Window)
    → w.seen < 2 ^ f
    → w.base + f ≤ u64_max
    → (k : ℕ) × (k ≤ f)
      × (slide_while mask f w ≡ moved k w)
      × (is_set (slide_while mask f w).seen mask ≡ false)
unfolding slide_while
slide_while_lem mask zero w small room =
    (0, omega arith, ground arith, ground (arith, zero-bit_and mask))
slide_while_lem mask (suc f) w small room = elim (Bool-cases (is_set w.seen mask)) [
  | inr off ↦ (0, omega arith, ground arith, rw off off)
  | inl on ↦
      let half : w.seen / 2 < 2 ^ f = omega (arith, pow-succ' 2 f) in
      let (k, le, to, off) = slide_while_lem mask f (slide w) half (omega arith) in
      (suc k, omega arith, rw on (to ∙ moved-slide k w (omega arith)), rw on off)
]

moved_twice : (j k : ℕ) (w : Window) → moved k (moved j w) ≡ moved (j + k) w
moved_twice j k w = λ i. record { base = base i; seen = div_pow_add w.seen j k i }
  where
    base : w.base + j + k ≡ w.base + (j + k)
    base = omega arith

-- Both loops together move the window up, to where its top half and its lowest place are unseen.
pub settle_lem :
    (w : Window)
    → w.seen < 2 ^ 32
    → w.base + 64 ≤ u64_max
    → (k : ℕ) × (k ≤ 64)
      × (settle w ≡ moved k w)
      × ((settle w).seen < 2 ^ 16)
      × ((settle w).seen % 2 ≡ 0)
unfolding settle
settle_lem w small room =
    let (j, lej, toj, top) = slide_while_lem top_half fuel w small (omega arith) in
    let v = slide_while top_half fuel w in
    let vbase : v.base ≡ w.base + j = ap (λ u. u.base) toj in
    let vseen : v.seen ≤ w.seen = rw toj (div-le_self w.seen (2 ^ j)) in
    let vtop : v.seen < 2 ^ 16 = ground (arith, is_set-top v.seen) in
    let (k, lek, tok, low) = slide_while_lem 1 fuel v (omega arith) (omega arith) in
    let u = slide_while 1 fuel v in
    let useen : u.seen ≤ v.seen = rw tok (div-le_self v.seen (2 ^ k)) in
    (
      j + k,
      omega arith,
      tok ∙ ap (moved k) toj ∙ moved_twice j k w,
      omega arith,
      ground (arith, is_set-low u.seen),
    )
