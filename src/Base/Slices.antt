-- ===== src/Base/Slices.antt =====
-- Ranges of a list, `xs.get(i..j)` and `xs.get(i..)`, read off its parts.
use onestein.Base.{
  ℕ, ◌+◌, ◌-◌, ◌≤◌, ◌≡◌, refl, sym, ap, ◌∙◌, some, List, [], ◌++◌, append-nil, arith, length, take,
  drop, slice?, slice_from?, length-append, take-append-drop, take-append, drop-append, drop_add,
}

module _ {A : Type 0} where
  pub slice?-front : (xs ys : List A) (n : ℕ) → length xs ≡ n → slice? 0 n (xs ++ ys) ≡ some xs
  slice?-front xs ys n h =
      ground
        (arith, length-append xs ys, take-append xs ys n h, ap (λ (k : ℕ). take k (xs ++ ys)) all)
    where
      all : n - 0 ≡ n
      all = omega arith

  pub whole_slice : (xs : List A) (n : ℕ) → length xs ≡ n → slice? 0 n xs ≡ some xs
  whole_slice xs n h = ap (slice? 0 n) (sym (append-nil xs)) ∙ slice?-front xs [] n h

  pub slice?-skip :
      (xs ys : List A) (k i j : ℕ)
      → length xs ≡ k
      → slice? (k + i) (k + j) (xs ++ ys) ≡ slice? i j ys
  slice?-skip xs ys k i j h = ground (
    arith,
    length-append xs ys,
    drop_add k i (xs ++ ys),
    drop-append xs ys k h,
    ap (λ (n : ℕ). take n (drop i ys)) same,
  )
    where
      same : k + j - (k + i) ≡ j - i
      same = omega arith

  pub slice_from?-skip :
      (xs ys : List A) (k i : ℕ) → length xs ≡ k → slice_from? (k + i) (xs ++ ys) ≡ slice_from? i ys
  slice_from?-skip xs ys k i h =
      ground (arith, length-append xs ys, drop_add k i (xs ++ ys), drop-append xs ys k h)

  pub slice_from?-zero : (xs : List A) → slice_from? 0 xs ≡ some xs
  slice_from?-zero xs = ground arith

  -- A range that is there is what it names.
  pub slice?-inv :
      (i j : ℕ) (xs : List A) {ys : List A}
      → slice? i j xs ≡ some ys
      → (i ≤ j) × (j ≤ length xs) × (take (j - i) (drop i xs) ≡ ys)
  slice?-inv i j xs h = ground arith

  pub slice_from?-inv :
      (i : ℕ) (xs : List A) {ys : List A}
      → slice_from? i xs ≡ some ys
      → (i ≤ length xs) × (drop i xs ≡ ys)
  slice_from?-inv i xs h = ground arith

  -- A list is cut at one place after the other.
  pub drop_cut : (i n : ℕ) (xs : List A) → take n (drop i xs) ++ drop (i + n) xs ≡ drop i xs
  drop_cut i n xs = rw (drop_add i n xs, take-append-drop n (drop i xs)) refl
