-- ===== src/Contact/Base32/Symbols.antt =====
-- crates/contact/src/base32.rs: the reader knows the symbols that the writer uses, and what one of them does.
use onestein.Base.{
  ℕ, zero, suc, ◌+◌, ◌-◌, ◌*◌, ◌/◌, ◌%◌, ◌^◌, ◌≤◌, ◌<◌, bit_or, ◌≡◌, refl, sym, ap, ◌∙◌, ◌≢◌, inl,
  inr, Bool, true, false, not, ◌&&◌, ◌∷◌, arith, leb, ◌==◌, ==_iff, Bool-cases, Result, ok, err,
}
use onestein.Base.Bytes.{Bytes}
use onestein.Base.Bits.{bit_or-shl, bit_and-ones}
use onestein.Contact.Base32.{Error, symbol, value_of, is_whitespace, shl, decode_from}

-- A test of every number below a bound.
abbrev all_below : ℕ → (ℕ → Bool) → Bool
all_below zero test = true
all_below (suc n) test = test n && all_below n test

all_below-at : (n : ℕ) (test : ℕ → Bool) (v : ℕ) → all_below n test ≡ true → v < n → test v ≡ true
all_below-at zero test v h lt = absurd (omega arith)
all_below-at (suc n) test v h lt =
    let (here, below) : (test n ≡ true) × (all_below n test ≡ true) = ground arith in
    elim (Bool-cases (v == n)) [
      | inl same ↦ ap test ((==_iff v n).0 same) ∙ here
      | inr other ↦
          let differ : v ≢ n = λ p. let yes = (==_iff v n).1 p in cc in
          all_below-at n test v below (omega (arith, lt, differ))
    ]

abbrev is_value : ℕ → Result Error ℕ → Bool
is_value v (ok w) = v == w
is_value v (err e) = false

is_value-eq : (v : ℕ) (r : Result Error ℕ) → is_value v r ≡ true → r ≡ ok v
is_value-eq v (ok w) h = ap ok (sym ((==_iff v w).0 h))
is_value-eq v (err e) h = cc

all_symbols :
    all_below 32 (λ v. not (is_whitespace (symbol v)) && is_value v (value_of (symbol v))) ≡ true
unfolding symbol value_of
all_symbols = refl

pub symbol_back :
    (v : ℕ) → v < 32 → (is_whitespace (symbol v) ≡ false) × (value_of (symbol v) ≡ ok v)
symbol_back v lt =
    let both =
      all_below-at 32 (λ v. not (is_whitespace (symbol v)) && is_value v (value_of (symbol v))) v
        all_symbols lt in
    let (plain, known) : (is_whitespace (symbol v) ≡ false)
        × (is_value v (value_of (symbol v)) ≡ true) =
      split (is_whitespace (symbol v)) (is_value v (value_of (symbol v))) both in
    (plain, is_value-eq v (value_of (symbol v)) known)
  where
    split : (w k : Bool) → (not w && k) ≡ true → (w ≡ false) × (k ≡ true)
    split true k h = cc
    split false k h = (refl, h)

-- The buffer behind a symbol, and behind a byte.
abbrev pub with_symbol : ℕ → ℕ → ℕ
with_symbol buffer v = buffer % 2 ^ 27 * 32 + v

abbrev pub with_byte : ℕ → ℕ → ℕ
with_byte buffer b = buffer % 2 ^ 24 * 256 + b

pub with_symbol_lem : (buffer v : ℕ) → v < 32 → bit_or (shl buffer 5) v ≡ with_symbol buffer v
with_symbol_lem buffer v lt =
    let moved : shl buffer 5 ≡ buffer % 2 ^ 27 * 2 ^ 5 = omega arith in
    rw moved (bit_or-shl 5 (buffer % 2 ^ 27) v lt)

pub with_byte_lem : (buffer b : ℕ) → b < 256 → bit_or (shl buffer 8) b ≡ with_byte buffer b
with_byte_lem buffer b lt =
    let moved : shl buffer 8 ≡ buffer % 2 ^ 24 * 2 ^ 8 = omega arith in
    rw moved (bit_or-shl 8 (buffer % 2 ^ 24) b lt)

-- A symbol that fills no byte, and one that does.
pub decode_from-keep :
    (buffer bits v : ℕ) (cs out : Bytes)
    → v < 32
    → bits < 3
    → decode_from (with_symbol buffer v) (bits + 5) cs ≡ ok out
    → decode_from buffer bits (symbol v ∷ cs) ≡ ok out
unfolding decode_from
decode_from-keep buffer bits v cs out lt few h =
    let (plain, known) = symbol_back v lt in
    let none_full : leb 8 (bits + 5) ≡ false = ground (arith, few) in
    rw (plain, known, none_full, with_symbol_lem buffer v lt, h) refl

pub decode_from-full :
    (buffer bits v p : ℕ) (cs out : Bytes)
    → v < 32
    → 3 ≤ bits
    → with_symbol buffer v / 2 ^ (bits + 5 - 8) % 256 ≡ p
    → decode_from (with_symbol buffer v) (bits + 5 - 8) cs ≡ ok out
    → decode_from buffer bits (symbol v ∷ cs) ≡ ok (p ∷ out)
unfolding decode_from
decode_from-full buffer bits v p cs out lt many e h =
    let (plain, known) = symbol_back v lt in
    let is_full : leb 8 (bits + 5) ≡ true = ground (arith, many) in
    let byte = bit_and-ones 8 (with_symbol buffer v / 2 ^ (bits + 5 - 8)) ∙ e in
    rw (plain, known, is_full, with_symbol_lem buffer v lt) (rw (h, byte) refl)
