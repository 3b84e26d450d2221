-- ===== src/Bdf/Ints.antt =====
-- crates/bdf: integers on the wire, as `push_be` writes and `signed` reads them.
use onestein.Base.{
  ℕ, zero, suc, ◌+◌, ◌-◌, ◌*◌, ◌/◌, ◌%◌, ◌^◌, ◌<◌, bit_or, ◌≡◌, refl, sym, ap, ◌∙◌, subst, ◌≢◌, ◌⊎◌,
  inl, inr, Bool, true, false, [], ◌∷◌, ◌++◌, arith, ltb, if◌then◌else◌, Bool-cases, length, take,
  drop, All, length-take, take-append-drop, All-take, ok, err,
}
use onestein.Base.Bytes.{to_be-add, Bytes, IsByte, IsArray, to_be, from_be, from_be-lt}
use native.Mathlib.Nat.{pow-suc, div-add-mod, add-mul-mod_self_left}
use native.Mathlib.Decide.{dec_lt}
use onestein.Base.Bits.{bit_or-shl}
use onestein.Base.Words.{u64_mod}
use onestein.Bdf.{minimal_int_length}
use onestein.Bdf.Write.{push_be}
use onestein.Bdf.Read.{out_of_fuel, truncated, signed, signed_loop, sign_extend, is_size}

-- The pattern of n bytes in two's complement, extended to 64 bits.
abbrev pub extend : ℕ → ℕ → ℕ
extend n x = if ltb x (256 ^ n / 2) then x else x + (u64_mod - 256 ^ n)

shift_in : (v b : ℕ) → IsByte b → bit_or (v * 2 ^ 8 % u64_mod) b ≡ v * 256 % u64_mod + b
shift_in v b h =
    let top : v * 256 % u64_mod ≡ v % 2 ^ 56 * 2 ^ 8 = omega arith in
    rw top (bit_or-shl 8 (v % 2 ^ 56) b h)

-- A value that was cut to 64 bits goes on as the value itself would.
cut_early :
    (v b c r : ℕ)
    → ((v * 256 % u64_mod + b) * c + r) % u64_mod ≡ (v * (c * 256) + (b * c + r)) % u64_mod
cut_early v b c r =
    let q = v * 256 / u64_mod in
    let t = v * 256 % u64_mod in
    let whole : v * (c * 256) + (b * c + r) ≡ (t + b) * c + r + u64_mod * (q * c) =
      omega (arith, ap (λ (x : ℕ). x * c) (div-add-mod (v * 256) u64_mod)) in
    sym (rw whole (add-mul-mod_self_left ((t + b) * c + r) u64_mod (q * c)))

-- The rounds behind the first byte.
signed_loop-append :
    (v : ℕ) (bs rest : Bytes)
    → v < u64_mod
    → All IsByte bs
    → signed_loop (length bs) v false (bs ++ rest)
      ≡ ok ((v * 256 ^ length bs + from_be bs) % u64_mod, rest)
unfolding signed_loop
signed_loop-append v [] rest lt h =
    let same : v ≡ (v * 1 + 0) % u64_mod = omega arith in ap (λ n. ok (n, rest)) same
signed_loop-append v (b ∷ bs) rest lt h =
    let n = length bs in
    let r = from_be bs in
    let next = v * 256 % u64_mod + b in
    let total : (next * 256 ^ n + r) % u64_mod ≡ (v * 256 ^ suc n + (b * 256 ^ n + r)) % u64_mod =
      rw (pow-suc 256 n) (cut_early v b (256 ^ n) r) in
    rw (shift_in v b h.0)
      (signed_loop-append next bs rest (omega (arith, h.0)) h.1 ∙ ap (λ k. ok (k, rest)) total)

signed_loop-ne-out_of_fuel :
    (n v : ℕ) (first : Bool) (bs : Bytes) → signed_loop n v first bs ≢ err out_of_fuel
unfolding signed_loop
signed_loop-ne-out_of_fuel zero v first bs e = cc
signed_loop-ne-out_of_fuel (suc n) v first [] e = cc
signed_loop-ne-out_of_fuel (suc n) v first (b ∷ bs) e = signed_loop-ne-out_of_fuel n _ false bs e

pub signed-ne-out_of_fuel : (n : ℕ) (bs : Bytes) → signed n bs ≢ err out_of_fuel
unfolding signed
signed-ne-out_of_fuel n bs e = ground (arith, signed_loop-ne-out_of_fuel n 0 true bs)

-- Either the loop finds its bytes, or the input is too short for it.
signed_loop-truncated :
    (n v : ℕ) (first : Bool) (bs : Bytes) → length bs < n → signed_loop n v first bs ≡ err truncated
unfolding signed_loop
signed_loop-truncated zero v first bs h = absurd (omega arith)
signed_loop-truncated (suc n) v first [] h = refl
signed_loop-truncated (suc n) v first (b ∷ bs) h = signed_loop-truncated n _ false bs (omega arith)

abbrev pub IsSize : ℕ → Type 0
IsSize n = (n ≡ 1) ⊎ (n ≡ 2) ⊎ (n ≡ 4) ⊎ (n ≡ 8)

pub is_size→IsSize : (n : ℕ) → is_size n ≡ true → IsSize n
is_size→IsSize n h = ground arith

abbrev pub IsSize-elim {ℓ} : (P : ℕ → Type ℓ) → P 1 → P 2 → P 4 → P 8 → (n : ℕ) → IsSize n → P n
IsSize-elim P p q r s n (inl e) = subst P (sym e) p
IsSize-elim P p q r s n (inr (inl e)) = subst P (sym e) q
IsSize-elim P p q r s n (inr (inr (inl e))) = subst P (sym e) r
IsSize-elim P p q r s n (inr (inr (inr e))) = subst P (sym e) s

-- Extending the sign of the first byte extends the sign of the number.
abbrev ExtendsAt : ℕ → ℕ → Type 0
ExtendsAt n m =
    (b r : ℕ)
    → IsByte b
    → r < 256 ^ m
    → (sign_extend b * 256 ^ m + r) % u64_mod ≡ extend n (b * 256 ^ m + r)

abbrev FirstExtends : ℕ → Type 0
FirstExtends n = (m : ℕ) → m ≡ n - 1 → ExtendsAt n m

extends_1 : ExtendsAt 1 0
extends_1 b r hb hr = ground arith

first_1 : FirstExtends 1
first_1 m e = subst (ExtendsAt 1) (sym e) extends_1

extends_2 : ExtendsAt 2 1
extends_2 b r hb hr = ground arith

first_2 : FirstExtends 2
first_2 m e = subst (ExtendsAt 2) (sym e) extends_2

extends_4 : ExtendsAt 4 3
extends_4 b r hb hr = ground arith

first_4 : FirstExtends 4
first_4 m e = subst (ExtendsAt 4) (sym e) extends_4

extends_8 : ExtendsAt 8 7
extends_8 b r hb hr = ground arith

first_8 : FirstExtends 8
first_8 m e = subst (ExtendsAt 8) (sym e) extends_8

IsSize-FirstExtends : (n : ℕ) → IsSize n → FirstExtends n
IsSize-FirstExtends = IsSize-elim FirstExtends first_1 first_2 first_4 first_8

pub IsSize→is_size : (n : ℕ) → IsSize n → is_size n ≡ true
IsSize→is_size = IsSize-elim (λ n. is_size n ≡ true) refl refl refl refl

pub signed_lem : (n : ℕ) → IsSize n → (bs : Bytes) → signed n bs ≡ signed_loop n 0 true bs
unfolding signed
signed_lem n size bs = rw (IsSize→is_size n size)

-- `signed` reads the two's complement of the bytes.
pub signed-append :
    (bs rest : Bytes)
    → IsSize (length bs)
    → All IsByte bs
    → signed (length bs) (bs ++ rest) ≡ ok (extend (length bs) (from_be bs), rest)
unfolding signed_loop
signed-append [] rest size h = absurd (omega arith)
signed-append (b ∷ bs) rest size h =
    signed_lem _ size _
    ∙ signed_loop-append (sign_extend b) bs rest (ground (arith, h.0)) h.1
    ∙ ap (λ n. ok (n, rest))
        (IsSize-FirstExtends (suc (length bs)) size (length bs) (omega arith) b (from_be bs) h.0
          (from_be-lt bs h.1))

pub signed-truncated : (n : ℕ) (bs : Bytes) → IsSize n → length bs < n → signed n bs ≡ err truncated
signed-truncated n bs size h = signed_lem n size bs ∙ signed_loop-truncated n 0 true bs h

-- `signed` takes its bytes off the front of the input.
pub signed_sound :
    (n : ℕ) (bs rest : Bytes) {v : ℕ}
    → IsSize n
    → All IsByte bs
    → signed n bs ≡ ok (v, rest)
    → (front : Bytes) × (bs ≡ front ++ rest) × IsArray n front × (v ≡ extend n (from_be front))
signed_sound n bs rest {v} size h e = elim (dec_lt (length bs) n) [
  | yes short ↦ cc (signed-truncated n bs size short)
  | no enough ↦
      let front = take n bs in
      let fits : length front ≡ n = omega (arith, length-take n bs) in
      let read : signed n bs ≡ ok (extend n (from_be front), drop n bs) =
        ap (signed n) (sym (take-append-drop n bs))
        ∙ subst (λ k. signed k (front ++ drop n bs) ≡ ok (extend k (from_be front), drop n bs)) fits
            (signed-append front (drop n bs) (subst IsSize (sym fits) size)
              (All-take IsByte n bs h)) in
      let same : ok (v, rest) ≡ ok (extend n (from_be front), drop n bs) = sym e ∙ read in
      let tail : drop n bs ≡ rest = ground (arith, same) in
      (
        front,
        rw (← tail, take-append-drop n bs),
        (fits, All-take IsByte n bs h),
        ground (arith, same),
      )
]

-- What `push_be` writes is the low bytes of the pattern.
pub push_be_lem : (n x : ℕ) → IsSize n → push_be x n ≡ to_be n x
unfolding push_be
push_be_lem n x = IsSize-elim (λ k. push_be x k ≡ to_be k x) refl refl refl refl n

-- Extending adds a multiple of the width.
Extends : ℕ → Type 0
Extends n = (x : ℕ) → (a : ℕ) × (extend n x ≡ a * 256 ^ n + x)

extends_by :
    (a n x : ℕ) → a * 256 ^ n ≡ u64_mod - 256 ^ n → (c : ℕ) × (extend n x ≡ c * 256 ^ n + x)
extends_by a n x e = elim (Bool-cases (ltb x (256 ^ n / 2))) [
  | inl small ↦ (0, rw small (omega arith))
  | inr large ↦ (a, rw large (omega arith))
]

IsSize-Extends : (n : ℕ) → IsSize n → Extends n
unfolding Extends
IsSize-Extends =
    IsSize-elim Extends (λ x. extends_by (2 ^ 56 - 1) 1 x refl)
      (λ x. extends_by (2 ^ 48 - 1) 2 x refl) (λ x. extends_by (2 ^ 32 - 1) 4 x refl)
      (λ x. extends_by 0 8 x refl)

pub to_be-extend : (n x : ℕ) → IsSize n → to_be n (extend n x) ≡ to_be n x
unfolding Extends
to_be-extend n x size = let (a, e) = IsSize-Extends n size x in rw e (to_be-add n a x)

pub extend-lt : (n x : ℕ) → IsSize n → x < 256 ^ n → extend n x < u64_mod
extend-lt n x size =
    IsSize-elim (λ k. x < 256 ^ k → extend k x < u64_mod) (λ h. ground arith) (λ h. ground arith)
      (λ h. ground arith) (λ h. ground arith) n size

pub minimal-IsSize : (x : ℕ) → IsSize (minimal_int_length x)
unfolding minimal_int_length
minimal-IsSize x = ground arith

-- The minimal length holds the number.
pub extend-minimal :
    (x : ℕ) → x < u64_mod → let n = minimal_int_length x in extend n (x % 256 ^ n) ≡ x
unfolding minimal_int_length
extend-minimal x h = ground arith
