-- ===== src/Base/Bytes.antt =====
-- Bytes, byte arrays of a fixed length, and big-endian numbers (`to_be_bytes`, `from_be_bytes`).
use Prim.Native.Nat.{ℕ, zero, suc, ◌+◌, ◌*◌, ◌/◌, ◌%◌, ◌^◌, ◌≤◌, ◌<◌}
use mathlib.Core.Path.{◌≡◌, refl, ap, sym, ◌∙◌}
use mathlib.Core.List.{◌++◌, List, [], ◌∷◌}
use native.Mathlib.Omega.{arith}
use native.Mathlib.Nat.{
  pow-suc, one-le-pow, div-div-eq-div-mul, div-add-mod, mul-add-div_right, div-eq_of_lt,
  mod-eq_of_lt,
}
use onestein.Base.Lists.{length, All}

abbrev pub Bytes : Type 0
Bytes = List ℕ

abbrev pub IsByte : ℕ → Type 0
IsByte b = b < 256

-- `[u8; n]`.
abbrev pub IsArray : ℕ → Bytes → Type 0
IsArray n bs = (length bs ≡ n) × All IsByte bs

-- The low n bytes of a number, highest first.
abbrev pub to_be : ℕ → ℕ → Bytes
to_be zero x = []
to_be (suc n) x = (x / 256 ^ n % 256) ∷ to_be n x

abbrev pub from_be : Bytes → ℕ
from_be [] = 0
from_be (b ∷ bs) = b * 256 ^ length bs + from_be bs

pub length-to_be : (n x : ℕ) → length (to_be n x) ≡ n
length-to_be zero x = refl
length-to_be (suc n) x = ap suc (length-to_be n x)

pub to_be-IsByte : (n x : ℕ) → All IsByte (to_be n x)
to_be-IsByte zero x = tt
to_be-IsByte (suc n) x = (omega arith, to_be-IsByte n x)

pub to_be-IsArray : (n x : ℕ) → IsArray n (to_be n x)
to_be-IsArray n x = (length-to_be n x, to_be-IsByte n x)

pow_pos : (n : ℕ) → 1 ≤ 256 ^ n
pow_pos n = one-le-pow n 256 (omega arith)

mod_split : (x n : ℕ) → x / 256 ^ n % 256 * 256 ^ n + x % 256 ^ n ≡ x % 256 ^ suc n
mod_split x n = omega (
  arith,
  div-add-mod x (256 ^ n),
  div-add-mod x (256 ^ suc n),
  ap (λ (t : ℕ). t * (x / 256 ^ suc n)) (pow-suc 256 n),
  ap (λ (t : ℕ). x / t) (pow-suc 256 n) ∙ sym (div-div-eq-div-mul x (256 ^ n) 256),
  ap (λ (t : ℕ). 256 ^ n * t) (div-add-mod (x / 256 ^ n) 256),
  ap (λ (t : ℕ). 256 ^ n * t)
      (ap (λ (t : ℕ). x / t) (pow-suc 256 n) ∙ sym (div-div-eq-div-mul x (256 ^ n) 256)),
)

-- Reading the bytes of a number gives the number, cut to the width.
pub from_be-to_be : (n x : ℕ) → from_be (to_be n x) ≡ x % 256 ^ n
from_be-to_be zero x = omega arith
from_be-to_be (suc n) x = rw (length-to_be n x, from_be-to_be n x) (mod_split x n)

pub from_be-to_be_lt : (n x : ℕ) → x < 256 ^ n → from_be (to_be n x) ≡ x
from_be-to_be_lt n x h = from_be-to_be n x ∙ mod-eq_of_lt h

pub from_be-lt : (bs : Bytes) → All IsByte bs → from_be bs < 256 ^ length bs
from_be-lt [] h = omega arith
from_be-lt (b ∷ bs) h = rw (pow-suc 256 (length bs)) (grind (arith, from_be-lt bs h.1, h.0))

-- Only the digits below the width count.
pub to_be-add : (n a x : ℕ) → to_be n (a * 256 ^ n + x) ≡ to_be n x
to_be-add zero a x = refl
to_be-add (suc n) a x =
    let shift : a * 256 ^ suc n + x ≡ a * 256 * 256 ^ n + x =
      omega (arith, ap (λ (t : ℕ). a * t) (pow-suc 256 n)) in
    let top : (a * 256 * 256 ^ n + x) / 256 ^ n % 256 ≡ x / 256 ^ n % 256 =
      omega (arith, mul-add-div_right (pow_pos n) (a * 256) x) in
    rw shift (rw (top, to_be-add n (a * 256) x))

-- Writing the number that some bytes stand for gives the bytes.
pub to_be-from_be : (bs : Bytes) → All IsByte bs → to_be (length bs) (from_be bs) ≡ bs
to_be-from_be [] h = refl
to_be-from_be (b ∷ bs) h =
    let n = length bs in
    let top : (b * 256 ^ n + from_be bs) / 256 ^ n % 256 ≡ b = omega (
      arith,
      mul-add-div_right (pow_pos n) b (from_be bs),
      div-eq_of_lt (from_be-lt bs h.1),
      h.0,
    ) in
    rw (top, to_be-add n b (from_be bs), to_be-from_be bs h.1)

pub to_be-from_be_at : (n : ℕ) (bs : Bytes) → IsArray n bs → to_be n (from_be bs) ≡ bs
to_be-from_be_at n bs h = ap (λ k. to_be k (from_be bs)) (sym h.0) ∙ to_be-from_be bs h.1

-- An array of n zeroes written from the front: `for (slot, byte) in out.iter_mut().zip(bytes)`.
abbrev pub fill : ℕ → Bytes → Bytes
fill zero bs = []
fill (suc n) [] = 0 ∷ fill n []
fill (suc n) (b ∷ bs) = b ∷ fill n bs

pub fill-append : (xs ys : Bytes) (n : ℕ) → length xs ≡ n → fill n (xs ++ ys) ≡ xs
fill-append [] ys zero h = refl
fill-append [] ys (suc n) h = absurd (omega (arith, h))
fill-append (x ∷ xs) ys zero h = absurd (omega (arith, h))
fill-append (x ∷ xs) ys (suc n) h = ap (λ zs. x ∷ zs) (fill-append xs ys n (omega (arith, h)))

pub fill-whole : (xs : Bytes) (n : ℕ) → length xs ≡ n → fill n xs ≡ xs
fill-whole [] zero h = refl
fill-whole [] (suc n) h = absurd (omega (arith, h))
fill-whole (x ∷ xs) zero h = absurd (omega (arith, h))
fill-whole (x ∷ xs) (suc n) h = ap (λ zs. x ∷ zs) (fill-whole xs n (omega (arith, h)))

pub length-fill : (n : ℕ) (bs : Bytes) → length (fill n bs) ≡ n
length-fill zero bs = refl
length-fill (suc n) [] = omega (arith, length-fill n [])
length-fill (suc n) (b ∷ bs) = omega (arith, length-fill n bs)
