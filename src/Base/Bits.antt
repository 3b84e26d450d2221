-- ===== src/Base/Bits.antt =====
-- Bitwise operations of machine words as arithmetic.
use Prim.Native.Nat.{
  ℕ, zero, suc, ◌+◌, ◌*◌, ◌/◌, ◌%◌, ◌^◌, ◌≤◌, ◌<◌, min, max, ◌-◌, bit_and, bit_or,
}
use Prim.Native.Nat.{digits, bit_and-bitwise, bit_or-bitwise}
use mathlib.Core.Path.{◌≡◌, refl}
use native.Mathlib.Omega.{arith}
use native.Mathlib.Nat.{
  mul-one, one-mul, div-one, pow-succ', one-le-pow, zero-add, suc-add, div-eq_of_lt, le_trans,
  pow-le-pow_right, div-div-eq-div-mul, div-add-mod,
}
use mathlib.Core.Logic.{◌≢◌}
use mathlib.Core.Path.{ap, sym, ◌∙◌}

-- What the native operations stand for is computed digit by digit on fuel. A larger fuel changes
-- nothing, for any operation on digits.
module _ (beyond : ℕ → ℕ) (merge : ℕ → ℕ → ℕ) where
  digits_stable :
      (x y fuel more : ℕ)
      → x ≤ fuel
      → digits beyond merge (fuel + more) x y ≡ digits beyond merge fuel x y
  digits_stable zero y zero zero le = refl
  digits_stable zero y zero (suc more) le = rw (zero-add (suc more)) refl
  digits_stable zero y (suc fuel) more le = rw (suc-add fuel more) refl
  digits_stable (suc x) y zero more le = absurd (omega arith)
  digits_stable (suc x) y (suc fuel) more le =
      rw (suc-add fuel more, digits_stable (suc x / 2) (y / 2) fuel more (omega arith)) refl

  -- One digit off the front, at the fuel that the operations are given.
  digits_step :
      (x y : ℕ)
      → digits beyond merge (suc x) (suc x) y
        ≡ digits beyond merge (suc x / 2) (suc x / 2) (y / 2) * 2 + merge (suc x % 2) (y % 2)
  digits_step x y =
      let enough : suc x / 2 + (x - suc x / 2) ≡ x = omega arith in
      omega (
        arith,
        digits_stable (suc x / 2) (y / 2) (suc x / 2) (x - suc x / 2) (omega arith),
        ap (λ f. digits beyond merge f (suc x / 2) (y / 2)) enough,
      )

pub zero-bit_and : (b : ℕ) → bit_and 0 b ≡ 0
zero-bit_and = bit_and-bitwise 0

pub bit_and_step : (a b : ℕ) → bit_and a b ≡ bit_and (a / 2) (b / 2) * 2 + min (a % 2) (b % 2)
bit_and_step zero b =
    let none_set : bit_and 0 (b / 2) ≡ 0 = zero-bit_and (b / 2) in
    omega (arith, none_set, zero-bit_and b)
bit_and_step (suc a) b =
    rw (bit_and-bitwise (suc a) b, bit_and-bitwise (suc a / 2) (b / 2)) (digits_step _ min a b)

pub zero-bit_or : (b : ℕ) → bit_or 0 b ≡ b
zero-bit_or = bit_or-bitwise 0

bit_or_step : (a b : ℕ) → bit_or a b ≡ bit_or (a / 2) (b / 2) * 2 + max (a % 2) (b % 2)
bit_or_step zero b = omega (arith, zero-bit_or (b / 2), zero-bit_or b)
bit_or_step (suc a) b =
    rw (bit_or-bitwise (suc a) b, bit_or-bitwise (suc a / 2) (b / 2)) (digits_step _ max a b)

pub div_pow_suc : (w k : ℕ) → w / 2 ^ suc k ≡ w / 2 / 2 ^ k
div_pow_suc w k = ap (λ t. w / t) (pow-succ' 2 k) ∙ sym (div-div-eq-div-mul w 2 (2 ^ k))

pub pow_pos : (k : ℕ) → 1 ≤ 2 ^ k
pow_pos k = one-le-pow k 2 (omega arith)

-- The lowest digit of a remainder.
pub mod_pow_suc : (w k : ℕ) → w % 2 ^ suc k ≡ w / 2 % 2 ^ k * 2 + w % 2
mod_pow_suc w k = omega (
  arith,
  div-add-mod w (2 ^ suc k),
  div-add-mod (w / 2) (2 ^ k),
  div_pow_suc w k,
  ap (λ (t : ℕ). t * (w / 2 / 2 ^ k)) (pow-succ' 2 k),
  ap (λ (t : ℕ). 2 ^ suc k * t) (div_pow_suc w k),
)

-- One step of `&` and of `|`, at halves that are known.
bit_and_halves :
    (a b c d : ℕ) → a / 2 ≡ c → b / 2 ≡ d → bit_and a b ≡ bit_and c d * 2 + min (a % 2) (b % 2)
bit_and_halves a b c d p q = rw (← p, ← q) (bit_and_step a b)

bit_or_halves :
    (a b c d : ℕ) → a / 2 ≡ c → b / 2 ≡ d → bit_or a b ≡ bit_or c d * 2 + max (a % 2) (b % 2)
bit_or_halves a b c d p q = rw (← p, ← q) (bit_or_step a b)

-- A zero mask, and nothing to set.
zero_masks : (bound a : ℕ) → a ≤ bound → (bit_and a 0 ≡ 0) × (bit_or a 0 ≡ a)
zero_masks bound zero le = (refl, refl)
zero_masks zero (suc a) le = absurd (omega arith)
zero_masks (suc bound) (suc a) le =
    let (none_left, all_left) = zero_masks bound (suc a / 2) (omega arith) in
    (omega (arith, bit_and_step (suc a) 0), omega (arith, bit_or_step (suc a) 0))

pub bit_and-zero : (a : ℕ) → bit_and a 0 ≡ 0
bit_and-zero a = (zero_masks a a (omega arith)).0

pub bit_or-zero : (a : ℕ) → bit_or a 0 ≡ a
bit_or-zero a = (zero_masks a a (omega arith)).1

-- A mask moved up by k digits looks at the word moved down by k digits.
pub bit_and-shl : (k w m : ℕ) → bit_and w (m * 2 ^ k) ≡ bit_and (w / 2 ^ k) m * 2 ^ k
bit_and-shl zero w m = rw (mul-one m, div-one w) (omega arith)
bit_and-shl (suc k) w m =
    rw (div_pow_suc w k, pow-succ' 2 k)
      (omega (
        arith,
        bit_and_halves w (m * (2 * 2 ^ k)) (w / 2) (m * 2 ^ k) refl (omega arith),
        bit_and-shl k (w / 2) m,
      ))

bit_and-one : (a : ℕ) → bit_and a 1 ≡ a % 2
bit_and-one a = omega (arith, bit_and_step a 1, bit_and-zero (a / 2))

-- The test of one bit.
pub bit_and-pow : (k w : ℕ) → bit_and w (2 ^ k) ≡ w / 2 ^ k % 2 * 2 ^ k
bit_and-pow k w =
    ap (bit_and w) (sym (one-mul (2 ^ k)))
    ∙ bit_and-shl k w 1
    ∙ ap (λ t. t * 2 ^ k) (bit_and-one (w / 2 ^ k))

-- A mask of k ones.
pub bit_and-ones : (k w : ℕ) → bit_and w (2 ^ k - 1) ≡ w % 2 ^ k
bit_and-ones zero w = omega (arith, bit_and-zero w)
bit_and-ones (suc k) w =
    rw (mod_pow_suc w k, pow-succ' 2 k)
      (omega (
        arith,
        pow_pos k,
        bit_and_halves w (2 * 2 ^ k - 1) (w / 2) (2 ^ k - 1) refl (omega (arith, pow_pos k)),
        bit_and-ones k (w / 2),
      ))

-- A bit that is not set is set by an addition.
pub bit_or-pow : (k w : ℕ) → w / 2 ^ k % 2 ≡ 0 → bit_or w (2 ^ k) ≡ w + 2 ^ k
bit_or-pow zero w h = omega (arith, bit_or_step w 1, bit_or-zero (w / 2), div-one w)
bit_or-pow (suc k) w h =
    let ih = bit_or-pow k (w / 2) (rw (← div_pow_suc w k) h) in
    rw (pow-succ' 2 k)
      (omega (arith, bit_or_halves w (2 * 2 ^ k) (w / 2) (2 ^ k) refl (omega arith), ih))

-- A word moved up by k digits, and a number of k digits put below it.
pub bit_or-shl : (k a b : ℕ) → b < 2 ^ k → bit_or (a * 2 ^ k) b ≡ a * 2 ^ k + b
bit_or-shl zero a b h = ap (bit_or (a * 1)) (omega arith) ∙ bit_or-zero (a * 1) ∙ omega arith
bit_or-shl (suc k) a b h =
    let lt : b < 2 * 2 ^ k = rw (pow-succ' 2 k) at h in
    rw (pow-succ' 2 k) (
      omega (
        arith,
        bit_or_halves (a * (2 * 2 ^ k)) b (a * 2 ^ k) (b / 2) (omega arith) refl,
        bit_or-shl k a (b / 2) (omega arith),
      ))

pub div_pow_add : (w a b : ℕ) → w / 2 ^ a / 2 ^ b ≡ w / 2 ^ (a + b)
div_pow_add w zero b = rw (div-one w, zero-add b)
div_pow_add w (suc a) b =
    rw (div_pow_suc w a, suc-add a b, div_pow_suc w (a + b)) (div_pow_add (w / 2) a b)

-- Setting bit o by an addition sets that bit and no other.
pub add_bit_self : (o s : ℕ) → s / 2 ^ o % 2 ≡ 0 → (s + 2 ^ o) / 2 ^ o % 2 ≡ 1
add_bit_self zero s h = omega (arith, div-one s, div-one (s + 1))
add_bit_self (suc o) s h =
    let half : (s + 2 ^ suc o) / 2 ≡ s / 2 + 2 ^ o = omega (arith, pow-succ' 2 o) in
    rw (div_pow_suc (s + 2 ^ suc o) o, half) (add_bit_self o (s / 2) (rw (← div_pow_suc s o) h))

pub add_bit_other :
    (o j s : ℕ) → s / 2 ^ o % 2 ≡ 0 → o ≢ j → (s + 2 ^ o) / 2 ^ j % 2 ≡ s / 2 ^ j % 2
add_bit_other zero zero s h ne = absurd (ne refl)
add_bit_other zero (suc j) s h ne =
    let half : (s + 1) / 2 ≡ s / 2 = omega (arith, div-one s) in
    rw (div_pow_suc (s + 1) j, half, div_pow_suc s j)
add_bit_other (suc o) zero s h ne = omega (arith, pow-succ' 2 o, div-one s, div-one (s + 2 ^ suc o))
add_bit_other (suc o) (suc j) s h ne =
    let half : (s + 2 ^ suc o) / 2 ≡ s / 2 + 2 ^ o = omega (arith, pow-succ' 2 o) in
    rw (div_pow_suc (s + 2 ^ suc o) j, half, div_pow_suc s j)
      (add_bit_other o j (s / 2) (rw (← div_pow_suc s o) h) (λ e. ne (ap suc e)))

-- A word has no bit above its width.
pub no_bit : (k j s : ℕ) → s < 2 ^ k → k ≤ j → s / 2 ^ j ≡ 0
no_bit k j s h le = div-eq_of_lt (le_trans h (pow-le-pow_right (omega arith) le))

pub add_bit-lt : (k o s : ℕ) → s < 2 ^ k → o < k → s / 2 ^ o % 2 ≡ 0 → s + 2 ^ o < 2 ^ k
add_bit-lt zero o s h lt e = absurd (omega arith)
add_bit-lt (suc k) zero s h lt e = omega (arith, pow-succ' 2 k, div-one s)
add_bit-lt (suc k) (suc o) s h lt e = omega (
  arith,
  pow-succ' 2 k,
  pow-succ' 2 o,
  add_bit-lt k o (s / 2) (omega (arith, pow-succ' 2 k)) (omega arith) (rw (← div_pow_suc s o) e),
)
