-- ===== src/Bdf/Canonical.antt =====
-- crates/bdf: whatever the reader accepts is a valid value, and strictly read bytes are the one
-- encoding of theirs.
use onestein.Base.{
  ℕ, zero, suc, ◌+◌, ◌*◌, ◌<◌, ◌≡◌, refl, sym, ap, ◌∙◌, subst, ◌≢◌, ◌↔◌, inl, inr, Bool, true,
  false, Option, none, some, [], ◌∷◌, ◌++◌, append_assoc, append-nil, arith, ◌==◌, if◌then◌else◌,
  Bool-cases, length, drop, All, All-drop, Result, ok, err, ◌>>=◌, >>=-eq-ok,
}
use onestein.Base.Bytes.{Bytes, IsByte}
use onestein.Bdf.{
  Value, Items, Entries, null, str, no_items, item, no_entries, entry, is_canonical, all_items,
  all_entries,
}
use onestein.Bdf.Write.{to_bytes, items_bytes, entries_bytes, write_sized, end_byte}
use onestein.Bdf.Read.{
  trailing_bytes, Error, Read, classify, at_end, as_key, check_order, out_of_fuel, read_value,
  read_items, read_entries, read_one, from_bytes, from_bytes_canonical,
}
use onestein.Bdf.Valid.{
  IsValid, Ensures, holds, rejected, Ensures-ok, Ensures-fuel, Ensures-bind, Ensures-check,
}
use onestein.Bdf.Order.{follows-check_order, check_order-ne-out_of_fuel}
use onestein.Bdf.Sound.{Whole, WholeItems, WholeEntries, object-Ensures, both}
use onestein.Bdf.RoundTrip.{from_bytes-to_bytes, from_bytes_canonical-to_bytes}

at_end-cons : (bs : Bytes) → at_end bs ≡ true → bs ≡ end_byte ∷ drop 1 bs
at_end-cons [] h = cc
at_end-cons (b ∷ bs) h = ground arith

as_key-ne-out_of_fuel : (v : Value) (e : Error) → as_key v ≡ err e → e ≢ out_of_fuel
as_key-ne-out_of_fuel (str k) e h p = cc
as_key-ne-out_of_fuel null e h p = cc
as_key-ne-out_of_fuel _ e h p = cc

as_key-str : (v : Value) {k : Bytes} → as_key v ≡ ok k → v ≡ str k
as_key-str (str k) h = cc
as_key-str null h = cc
as_key-str _ h = cc

-- The end of a container.
items_end-Ensures :
    (strict : Bool) (depth : ℕ) (bs : Bytes)
    → All IsByte bs
    → at_end bs ≡ true
    → WholeItems strict depth bs no_items (drop 1 bs)
unfolding all_items items_bytes
items_end-Ensures strict depth bs h e =
    let split = at_end-cons bs e in
    (All-drop IsByte 1 bs h, omega (arith, ap length split), tt, λ _. (refl, split))

entries_end-Ensures :
    (strict : Bool) (depth : ℕ) (previous : Option Bytes) (bs : Bytes)
    → All IsByte bs
    → at_end bs ≡ true
    → WholeEntries strict depth previous bs no_entries (drop 1 bs)
unfolding all_items entries_bytes
entries_end-Ensures strict depth none bs h e =
    let split = at_end-cons bs e in
    (All-drop IsByte 1 bs h, omega (arith, ap length split), tt, λ _. (refl, refl, split))
entries_end-Ensures strict depth (some p) bs h e =
    let split = at_end-cons bs e in
    (All-drop IsByte 1 bs h, omega (arith, ap length split), tt, λ _. (refl, refl, split))

-- One more item, one more entry.
item-Whole :
    (strict : Bool) (depth : ℕ) (bs behind rest : Bytes) (v : Value) (xs : Items)
    → Whole strict depth bs v behind
    → WholeItems strict depth behind xs rest
    → WholeItems strict depth bs (item v xs) rest
unfolding all_items items_bytes
item-Whole strict depth bs behind rest v xs (_, less, valid, c) (left, less', valid', c') = (
  left,
  omega arith,
  (valid, valid'),
  λ s. (
    both (c s).0 (c' s).0,
    (c s).1
        ∙ ap (◌++◌ (to_bytes v)) (c' s).1
        ∙ sym (append_assoc (to_bytes v) (items_bytes xs) (end_byte ∷ rest)),
  ),
)

entry-Whole :
    (strict : Bool) (depth : ℕ) (previous : Option Bytes) (bs behind behind' rest k : Bytes)
    (v : Value) (es : Entries)
    → Whole strict depth bs (str k) behind
    → check_order strict previous k ≡ ok tt
    → Whole strict depth behind v behind'
    → WholeEntries strict depth (some k) behind' es rest
    → WholeEntries strict depth previous bs (entry k v es) rest
unfolding all_entries entries_bytes
entry-Whole strict depth previous bs behind behind' rest k v es (_, lk, ik, ck) order
      (_, lv, iv, cv) (left, le, ie, ce) =
    (
      left,
      omega arith,
      (ik, iv, ie),
      λ s. (
        follows-check_order previous k v es (ap (λ b. check_order b previous k) (sym s) ∙ order)
            (ce s).0,
        both (cv s).0 (ce s).1,
        (ck s).1
            ∙ ap (◌++◌ (write_sized 0x40 k)) (
                (cv s).1
                ∙ ap (◌++◌ (to_bytes v)) (ce s).2
                ∙ sym (append_assoc (to_bytes v) (entries_bytes es) (end_byte ∷ rest)))
            ∙ sym (
                append_assoc (write_sized 0x40 k) (to_bytes v ++ entries_bytes es)
                  (end_byte ∷ rest)),
      ),
    )

-- One induction on the fuel: what is read is shorter, so the fuel stays above its bound.
mutual
  unfolding read_value

  value-Ensures :
      (fuel : ℕ) (strict : Bool) (depth : ℕ) (bs : Bytes)
      → All IsByte bs
      → 2 * length bs < fuel
      → Ensures (Whole strict depth bs) (read_value fuel strict depth bs)
  value-Ensures zero strict depth bs h lt = absurd (omega arith)
  value-Ensures (suc f) strict depth [] h lt = rejected (λ p. cc)
  value-Ensures (suc f) strict depth (b ∷ bs) h lt =
      object-Ensures strict depth b bs h.0 h.1 (λ d. read_items f strict d)
        (λ d. read_entries f strict d none)
        (items-Ensures f strict (depth + 1) bs h.1 (omega arith))
        (entries-Ensures f strict (depth + 1) none bs h.1 (omega arith)) (classify b) refl

  items-Ensures :
      (fuel : ℕ) (strict : Bool) (depth : ℕ) (bs : Bytes)
      → All IsByte bs
      → 2 * length bs + 1 < fuel
      → Ensures (WholeItems strict depth bs) (read_items fuel strict depth bs)
  items-Ensures zero strict depth bs h lt = absurd (omega arith)
  items-Ensures (suc f) strict depth bs h lt = elim (Bool-cases (at_end bs)) [
    | inl e ↦ rw (e, read_items) (holds (items_end-Ensures strict depth bs h e))
    | inr e ↦
        rw (e, read_items)
          (Ensures-bind _ (value-Ensures f strict depth bs h (omega arith)) λ v behind one.
            Ensures-bind _ (items-Ensures f strict depth behind one.0 (omega (arith, one.1)))
              λ xs rest more. holds (item-Whole strict depth bs behind rest v xs one more))
  ]

  entries-Ensures :
      (fuel : ℕ) (strict : Bool) (depth : ℕ) (previous : Option Bytes) (bs : Bytes)
      → All IsByte bs
      → 2 * length bs + 1 < fuel
      → Ensures (WholeEntries strict depth previous bs) (read_entries fuel strict depth previous bs)
  entries-Ensures zero strict depth previous bs h lt = absurd (omega arith)
  entries-Ensures (suc f) strict depth previous bs h lt = elim (Bool-cases (at_end bs)) [
    | inl e ↦ rw (e, read_entries) (holds (entries_end-Ensures strict depth previous bs h e))
    | inr e ↦
        rw (e, read_entries)
          (Ensures-bind _ (value-Ensures f strict depth bs h (omega arith)) λ k behind one.
            Ensures-check (as_key k) (as_key-ne-out_of_fuel k) λ key iskey.
              Ensures-check (check_order strict previous key)
                (check_order-ne-out_of_fuel strict previous key)
                λ u order.
                  Ensures-bind _ (value-Ensures f strict depth behind one.0 (omega (arith, one.1)))
                    λ v behind' two.
                      Ensures-bind _
                        (entries-Ensures f strict depth (some key) behind' two.0
                          (omega (arith, one.1, two.1)))
                        λ es rest more. holds (
                          entry-Whole strict depth previous bs behind behind' rest key v es
                            (subst (λ w. Whole strict depth bs w behind) (as_key-str k iskey) one)
                            order two more))
  ]

-- The whole input.
Whole-input :
    (strict : Bool) (bs : Bytes)
    → All IsByte bs
    → Ensures (Whole strict 0 bs) (read_value (2 * length bs + 1) strict 0 bs)
Whole-input strict bs h = value-Ensures (2 * length bs + 1) strict 0 bs h (omega arith)

nothing_left :
    (rest : Bytes) {v w : Value} (e : Error)
    → (if length rest == 0 then ok w else err e) ≡ ok v
    → (rest ≡ []) × (w ≡ v)
nothing_left [] e h = (refl, cc)
nothing_left (b ∷ rest) e h = ground arith

read_one_sound :
    (strict : Bool) (bs : Bytes) (v : Value)
    → All IsByte bs
    → read_one strict bs ≡ ok v
    → IsValid 0 v × (strict ≡ true → (is_canonical v ≡ true) × (bs ≡ to_bytes v))
unfolding read_one
read_one_sound strict bs v h e =
    let (p, read, done) = >>=-eq-ok (read_value (2 * length bs + 1) strict 0 bs) _ e in
    let (_, _, valid, canon) = Ensures-ok (Whole-input strict bs h) read in
    let (empty, same) = nothing_left p.1 (trailing_bytes (length p.1)) done in
    (
      subst (IsValid 0) same valid,
      λ s. (
        subst (λ w. is_canonical w ≡ true) same (canon s).0,
        (canon s).1 ∙ ap (◌++◌ (to_bytes p.0)) empty ∙ append-nil (to_bytes p.0) ∙ ap to_bytes same,
      ),
    )

left_over-ne-out_of_fuel :
    (n : ℕ) (v : Value) → (if n == 0 then ok v else err (trailing_bytes n)) ≢ err out_of_fuel
left_over-ne-out_of_fuel n v h = ground arith

whole : Value × Bytes → Result Error Value
whole (v, rest) = if length rest == 0 then ok v else err (trailing_bytes (length rest))

whole-out_of_fuel : (r : Read Value) → (r >>= whole) ≡ err out_of_fuel → r ≡ err out_of_fuel
unfolding whole
whole-out_of_fuel (ok (v, rest)) e = absurd (left_over-ne-out_of_fuel (length rest) v e)
whole-out_of_fuel (err x) e = let same : x ≡ out_of_fuel = cc in ap err same

-- The fuel is enough for every input, in both modes.
pub read_one-ne-out_of_fuel :
    (strict : Bool) (bs : Bytes) → All IsByte bs → read_one strict bs ≢ err out_of_fuel
unfolding read_one whole
read_one-ne-out_of_fuel strict bs h e =
    Ensures-fuel (Whole-input strict bs h)
      (whole-out_of_fuel (read_value (2 * length bs + 1) strict 0 bs) e)

-- Strict decoding accepts exactly the encoding of each valid value in canonical form, so no value has
-- a second encoding.
pub from_bytes_canonical_iff :
    (bs : Bytes) (v : Value)
    → All IsByte bs
    → (from_bytes_canonical bs ≡ ok v) ↔ (IsValid 0 v × (is_canonical v ≡ true) × (bs ≡ to_bytes v))
unfolding from_bytes_canonical
from_bytes_canonical_iff bs v h = (
  λ e. let (valid, canon) = read_one_sound true bs v h e in (valid, (canon refl).0, (canon refl).1),
  λ (valid, canon, wire). ap (read_one true) wire ∙ from_bytes_canonical-to_bytes v valid canon,
)

-- Whatever strict decoding accepts, lenient decoding reads as the same value.
pub from_bytes-from_bytes_canonical :
    (bs : Bytes) (v : Value) → All IsByte bs → from_bytes_canonical bs ≡ ok v → from_bytes bs ≡ ok v
from_bytes-from_bytes_canonical bs v h e =
    let (valid, canon, wire) = (from_bytes_canonical_iff bs v h).0 e in
    ap from_bytes wire ∙ from_bytes-to_bytes v valid

-- Encoding what lenient decoding read gives an encoding of the same value.
pub from_bytes-reencode :
    (bs : Bytes) (v : Value) → All IsByte bs → from_bytes bs ≡ ok v → from_bytes (to_bytes v) ≡ ok v
unfolding from_bytes
from_bytes-reencode bs v h e = from_bytes-to_bytes v (read_one_sound false bs v h e).0
