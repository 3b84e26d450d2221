-- ===== src/Bdf/Sizes.antt =====
-- crates/bdf: one number, length or byte string written and read back, and the other way round.
use onestein.Base.{
  ℕ, ◌^◌, ◌≤◌, ◌<◌, bit_or, ◌≡◌, refl, sym, ap, ◌∙◌, subst, inl, inr, Bool, true, not, ◌||◌, ◌∷◌,
  ◌++◌, append_assoc, arith, ltb, ◌==◌, ltb→lt, Bool-cases, length, All, length-append, length-take,
  take-append-drop, take-append, drop-append, All-append_left, All-append_right, ok, err,
}
use onestein.Base.Bytes.{
  Bytes, IsByte, to_be, from_be, length-to_be, to_be-IsByte, from_be-to_be, from_be-lt,
  to_be-from_be_at,
}
use mathlib.Core.Path.{ap₂}
use onestein.Base.Words.{u64_mod}
use onestein.Bdf.{int, float, minimal_int_length}
use onestein.Bdf.Write.{signed_length, write_sized, push_be}
use onestein.Bdf.Read.{
  is_size, invalid_length_of_length, non_minimal_length, negative_length, non_minimal_integer,
  invalid_float_length, read_float, take_bytes, read_length, read_int, Read, signed,
}
use onestein.Bdf.Ints.{
  IsSize, is_size→IsSize, extend, signed-append, signed_sound, signed-ne-out_of_fuel, push_be_lem,
  to_be-extend, extend-lt, minimal-IsSize, extend-minimal,
}
use onestein.Bdf.Valid.{IsRaw, Ensures-guard, Ensures-bind, Ensures, holds, rejected}

-- What is left of the input is bytes.
abbrev pub Left : Bytes → Bytes → Type 0
Left bs rest = All IsByte rest × (length rest ≤ length bs)

-- The number at the front of the input, in the bytes that `size` says.
abbrev pub Number : ℕ → Bytes → ℕ → Bytes → Type 0
Number size bs n rest = Left bs rest × (n < u64_mod) × (bs ≡ to_be size n ++ rest)

signed-IsSize : (size : ℕ) (bs : Bytes) {p : ℕ × Bytes} → signed size bs ≡ ok p → IsSize size
unfolding signed
signed-IsSize size bs e = is_size→IsSize size (ground arith)

pub signed-Ensures :
    (size : ℕ) (bs : Bytes) → All IsByte bs → Ensures (Number size bs) (signed size bs)
signed-Ensures size bs h = go (signed size bs) refl
  where
    found :
        (n : ℕ) (rest : Bytes) → IsSize size → signed size bs ≡ ok (n, rest) → Number size bs n rest
    found n rest isize e =
        let (front, split, array, value) = signed_sound size bs rest isize h e in
        let x = from_be front in
        let small : x < 256 ^ size = subst (λ k. x < 256 ^ k) array.0 (from_be-lt front array.1) in
        let wire : to_be size n ≡ front =
          ap (to_be size) value ∙ to_be-extend size x isize ∙ to_be-from_be_at size front array in
        let parts : All IsByte (front ++ rest) = rw split at h in
        (
          (
            All-append_right IsByte front rest parts,
            omega (arith, ap length split, length-append front rest),
          ),
          rw value (extend-lt size x isize small),
          rw wire split,
        )

    go : (r : Read ℕ) → signed size bs ≡ r → Ensures (Number size bs) r
    go (ok (n, rest)) e = holds (found n rest (signed-IsSize size bs e) e)
    go (err x) e = rejected (λ p. signed-ne-out_of_fuel size bs (e ∙ ap err p))

-- A number in its minimal bytes is read back.
pub signed-push_be :
    (n : ℕ) (rest : Bytes)
    → n < u64_mod
    → signed (minimal_int_length n) (push_be n (minimal_int_length n) ++ rest) ≡ ok (n, rest)
signed-push_be n rest h =
    let size = minimal_int_length n in
    let isize = minimal-IsSize n in
    let bytes = to_be size n in
    let whole =
      signed-append bytes rest (subst IsSize (sym (length-to_be size n)) isize)
        (to_be-IsByte size n) in
    let value : extend size (from_be bytes) ≡ n =
      ap (extend size) (from_be-to_be size n) ∙ extend-minimal n h in
    rw (push_be_lem size n isize) (
      subst (λ k. signed k (bytes ++ rest) ≡ ok (extend k (from_be bytes), rest))
        (length-to_be size n) whole
      ∙ ap (λ v. ok (v, rest)) value)

-- A number that strict reading accepts lies in its minimal bytes.
abbrev pub Minimal : Bool → ℕ → Bytes → ℕ → Bytes → Type 0
Minimal strict size bs n rest =
    strict ≡ true → (size ≡ minimal_int_length n) × (bs ≡ push_be n size ++ rest)

Minimal-if_strict :
    (strict : Bool) (size : ℕ) (bs : Bytes) (n : ℕ) (rest : Bytes)
    → Number size bs n rest
    → (not strict || minimal_int_length n == size) ≡ true
    → Minimal strict size bs n rest
Minimal-if_strict strict size bs n rest (_, _, split) test e =
    let fits : minimal_int_length n ≡ size = ground arith in
    let wire : push_be n size ≡ to_be size n =
      push_be_lem size n (subst IsSize fits (minimal-IsSize n)) in
    (sym fits, rw wire split)

abbrev pub Length : Bool → ℕ → Bytes → ℕ → Bytes → Type 0
Length strict size bs n rest = Left bs rest × (n < 2 ^ 63) × Minimal strict size bs n rest

pub read_length-Ensures :
    (strict : Bool) (size : ℕ) (bs : Bytes)
    → All IsByte bs
    → Ensures (Length strict size bs) (read_length strict size bs)
unfolding read_length
read_length-Ensures strict size bs h =
    Ensures-guard (is_size size) (invalid_length_of_length size) _ (λ e. cc)
      λ _. Ensures-bind _ (signed-Ensures size bs h) λ n rest num.
        Ensures-guard (not strict || minimal_int_length n == size)
          (non_minimal_length size (minimal_int_length n)) _ (λ e. cc)
          λ test.
            Ensures-guard (ltb n (2 ^ 63)) (negative_length n) _ (λ e. cc)
              λ small.
                holds (num.0, ltb→lt n _ small, Minimal-if_strict strict size bs n rest num test)

pub read_int-Ensures :
    (strict : Bool) (low : ℕ) (bs : Bytes)
    → All IsByte bs
    → Ensures
        (λ v rest.
          Left bs rest × ((n : ℕ) × (v ≡ int n) × (n < u64_mod) × Minimal strict low bs n rest))
        (read_int strict low bs)
unfolding read_int
read_int-Ensures strict low bs h = Ensures-bind _ (signed-Ensures low bs h) λ n rest num.
    Ensures-guard (not strict || minimal_int_length n == low)
      (non_minimal_integer low (minimal_int_length n)) _ (λ e. cc)
      λ test. holds (num.0, (n, refl, num.1, Minimal-if_strict strict low bs n rest num test))

pub take_bytes-Ensures :
    (count : ℕ) (bs : Bytes)
    → Ensures (λ bytes rest. (bs ≡ bytes ++ rest) × (length bytes ≡ count)) (take_bytes count bs)
unfolding take_bytes
take_bytes-Ensures count bs = elim (Bool-cases (ltb (length bs) count)) [
  | inl short ↦ rw short (rejected (λ e. cc))
  | inr enough ↦
      rw enough (holds (sym (take-append-drop count bs), ground (arith, length-take count bs)))
]

pub take_bytes-append : (bs rest : Bytes) → take_bytes (length bs) (bs ++ rest) ≡ ok (bs, rest)
unfolding take_bytes
take_bytes-append bs rest = ground (
  arith,
  length-append bs rest,
  take-append bs rest (length bs) refl,
  drop-append bs rest (length bs) refl,
)

pub read_float-Ensures :
    (low : ℕ) (bs : Bytes)
    → All IsByte bs
    → Ensures
        (λ v rest.
          Left bs rest
          × ((n : ℕ) × (v ≡ float n) × (n < u64_mod) × (low ≡ 8) × (bs ≡ to_be 8 n ++ rest)))
        (read_float low bs)
unfolding read_float
read_float-Ensures low bs h =
    Ensures-guard (low == 8) (invalid_float_length low) _ (λ e. cc)
      λ eight. Ensures-bind _ (take_bytes-Ensures 8 bs) λ bytes rest (split, size).
        let parts : All IsByte (bytes ++ rest) = rw split at h in
        let array = All-append_left IsByte bytes rest parts in
        holds (
          (
            All-append_right IsByte bytes rest parts,
            omega (arith, ap length split, length-append bytes rest),
          ),
          (
            from_be bytes,
            refl,
            subst (λ k. from_be bytes < 256 ^ k) size (from_be-lt bytes array),
            ground arith,
            split ∙ ap (λ t. t ++ rest) (sym (to_be-from_be_at 8 bytes (size, array))),
          ),
        )

-- A byte string behind its length, as the writer puts it there when reading is strict.
abbrev pub Sized : Bool → ℕ → ℕ → Bytes → Bytes → Bytes → Type 0
Sized strict kind low bs bytes rest =
    Left bs rest
    × IsRaw bytes
    × (strict ≡ true → bit_or kind low ∷ bs ≡ write_sized kind bytes ++ rest)

pub Sized-if_taken :
    (strict : Bool) (kind low n : ℕ) (bs behind bytes rest : Bytes)
    → Length strict low bs n behind
    → behind ≡ bytes ++ rest
    → length bytes ≡ n
    → Sized strict kind low bs bytes rest
unfolding write_sized
Sized-if_taken strict kind low n bs behind bytes rest ((left, shrunk), small, minimal) split size =
    let parts : All IsByte (bytes ++ rest) = rw split at left in
    let fits : signed_length (length bytes) ≡ n = omega arith in
    (
      (
        All-append_right IsByte bytes rest parts,
        omega (arith, ap length split, length-append bytes rest),
      ),
      (All-append_left IsByte bytes rest parts, omega arith),
      λ e.
          let (least, wire) = minimal e in
          let put = λ (k : ℕ). push_be k (minimal_int_length k) ++ (bytes ++ rest) in
          let body : bs ≡ put n =
            wire
            ∙ ap (λ k. push_be n k ++ behind) least
            ∙ ap (◌++◌ (push_be n (minimal_int_length n))) split in
          let whole : bit_or kind low ∷ bs ≡ bit_or kind (minimal_int_length n) ∷ put n =
            ap₂ (λ k t. bit_or kind k ∷ t) least body in
          whole ∙ rw (fits, append_assoc) refl,
    )
