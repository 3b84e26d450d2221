-- ===== src/Bdf/RoundTrip.antt =====
-- crates/bdf: what the writer writes, the reader reads back.
use onestein.Base.{
  ℕ, zero, suc, ◌+◌, ◌*◌, ◌≤◌, ◌<◌, ◌≡◌, refl, Bool, true, false, ◌&&◌, Option, none, some, [], ◌∷◌,
  ◌++◌, append_assoc, append-nil, arith, length, length-append, ok,
}
use onestein.Base.Bytes.{Bytes}
use onestein.Bdf.{
  Value, Items, Entries, null, bool, int, float, str, raw, list, dict, no_items, item, no_entries,
  entry, max_nesting, is_canonical, is_sorted, all_items, all_entries,
}
use onestein.Bdf.Write.{to_bytes, items_bytes, entries_bytes, write_sized, end_byte}
use onestein.Bdf.Read.{
  classify, deeper, at_end, check_order, read_value, read_items, read_entries, read_one, from_bytes,
  from_bytes_canonical,
}
use onestein.Bdf.Valid.{IsValid, AreValid, HoldValid}
use onestein.Bdf.Order.{follows, follows-tail, check_order-follows}
use onestein.Bdf.Scalars.{
  read_value-key, read_value-null, read_value-bool, at_end-to_bytes, at_end-write_str, to_bytes_pos,
  read_value-int, read_value-str, read_value-raw, read_value-float,
}

-- What the mode asks of a value.
abbrev pub Asks : Bool → Bool → Type 0
Asks strict b = strict ≡ true → b ≡ true

both_left : (a b : Bool) → (a && b) ≡ true → a ≡ true
both_left true b h = refl
both_left false b h = cc

both_right : (a b : Bool) → (a && b) ≡ true → b ≡ true
both_right true b h = h
both_right false b h = cc

deeper_lem : (depth : ℕ) → depth + 1 ≤ max_nesting → deeper depth ≡ ok (depth + 1)
deeper_lem depth h = ground arith

-- One round of each loop, with the parts shut.
items_round :
    (fuel depth : ℕ) (strict : Bool) (bs behind rest : Bytes) (v : Value) (xs : Items)
    → at_end bs ≡ false
    → read_value fuel strict depth bs ≡ ok (v, behind)
    → read_items fuel strict depth behind ≡ ok (xs, rest)
    → read_items (suc fuel) strict depth bs ≡ ok (item v xs, rest)
unfolding read_items
items_round fuel depth strict bs behind rest v xs go hv hx = rw (go, read_items) (rw hv (rw hx))

items_end :
    (fuel depth : ℕ) (strict : Bool) (rest : Bytes)
    → read_items (suc fuel) strict depth (end_byte ∷ rest) ≡ ok (no_items, rest)
unfolding read_items
items_end fuel depth strict rest = refl

entries_end :
    (fuel depth : ℕ) (strict : Bool) (previous : Option Bytes) (rest : Bytes)
    → read_entries (suc fuel) strict depth previous (end_byte ∷ rest) ≡ ok (no_entries, rest)
unfolding read_entries
entries_end fuel depth strict previous rest = refl

entries_round :
    (fuel depth : ℕ) (strict : Bool) (previous : Option Bytes) (bs behind behind' rest k : Bytes)
    (v : Value) (es : Entries)
    → at_end bs ≡ false
    → read_value fuel strict depth bs ≡ ok (str k, behind)
    → check_order strict previous k ≡ ok tt
    → read_value fuel strict depth behind ≡ ok (v, behind')
    → read_entries fuel strict depth (some k) behind' ≡ ok (es, rest)
    → read_entries (suc fuel) strict depth previous bs ≡ ok (entry k v es, rest)
unfolding read_entries
entries_round fuel depth strict previous bs behind behind' rest k v es go hk hc hv he =
    rw (go, read_entries) (rw hk (rw hc (rw hv (rw he))))

read_value-list :
    (fuel depth : ℕ) (strict : Bool) (bs rest : Bytes) (xs : Items)
    → depth + 1 ≤ max_nesting
    → read_items fuel strict (depth + 1) bs ≡ ok (xs, rest)
    → read_value (suc fuel) strict depth (0x60 ∷ bs) ≡ ok (list xs, rest)
unfolding read_value classify
read_value-list fuel depth strict bs rest xs h e = rw (deeper_lem depth h) (rw e)

read_value-dict :
    (fuel depth : ℕ) (strict : Bool) (bs rest : Bytes) (es : Entries)
    → depth + 1 ≤ max_nesting
    → read_entries fuel strict (depth + 1) none bs ≡ ok (es, rest)
    → read_value (suc fuel) strict depth (0x70 ∷ bs) ≡ ok (dict es, rest)
unfolding read_value classify
read_value-dict fuel depth strict bs rest es h e = rw (deeper_lem depth h) (rw e)

abbrev Answers : Bool → Value → Type 0
Answers strict v =
    (fuel depth : ℕ) (rest : Bytes)
    → IsValid depth v
    → Asks strict (is_canonical v)
    → 2 * length (to_bytes v) < fuel
    → read_value fuel strict depth (to_bytes v ++ rest) ≡ ok (v, rest)

abbrev AnswersItems : Bool → Items → Type 0
AnswersItems strict xs =
    (fuel depth : ℕ) (rest : Bytes)
    → AreValid depth xs
    → Asks strict (all_items xs)
    → 2 * length (items_bytes xs) + 1 < fuel
    → read_items fuel strict depth (items_bytes xs ++ (end_byte ∷ rest)) ≡ ok (xs, rest)

abbrev AnswersEntries : Bool → Entries → Type 0
AnswersEntries strict es =
    (fuel depth : ℕ) (previous : Option Bytes) (rest : Bytes)
    → HoldValid depth es
    → Asks strict (follows previous es)
    → Asks strict (all_entries es)
    → 2 * length (entries_bytes es) + 1 < fuel
    → read_entries fuel strict depth previous (entries_bytes es ++ (end_byte ∷ rest))
      ≡ ok (es, rest)

mutual
  unfolding to_bytes is_canonical

  answer : (strict : Bool) (v : Value) → Answers strict v
  answer strict null (suc f) d rest h c lt = read_value-null f d strict rest
  answer strict (bool b) (suc f) d rest h c lt = read_value-bool f d strict b rest
  answer strict (int n) (suc f) d rest h c lt = read_value-int f d n strict rest h
  answer strict (float n) (suc f) d rest h c lt = read_value-float f d n strict rest h
  answer strict (str b) (suc f) d rest h c lt = read_value-str f d strict b rest h
  answer strict (raw b) (suc f) d rest h c lt = read_value-raw f d strict b rest h
  answer strict (list xs) (suc f) d rest h c lt = rw append_assoc (
      read_value-list f d strict _ rest xs h.0 (
        answer_items strict xs f (d + 1) rest h.1 c
          (omega (arith, length-append (items_bytes xs) (end_byte ∷ [])))))
  answer strict (dict es) (suc f) d rest h c lt = rw append_assoc (
      read_value-dict f d strict _ rest es h.0 (
        answer_entries strict es f (d + 1) none rest h.1
          (λ e. both_left (is_sorted es) (all_entries es) (c e))
          (λ e. both_right (is_sorted es) (all_entries es) (c e))
          (omega (arith, length-append (entries_bytes es) (end_byte ∷ [])))))
  answer strict v zero d rest h c lt = absurd (omega arith)

  answer_items : (strict : Bool) (xs : Items) → AnswersItems strict xs
  answer_items strict xs zero d rest h c lt = absurd (omega arith)
  answer_items strict no_items (suc f) d rest h c lt = items_end f d strict rest
  answer_items strict (item v xs) (suc f) d rest h c lt =
      let size = length-append (to_bytes v) (items_bytes xs) in
      rw append_assoc (
        items_round f d strict _ _ rest v xs (at_end-to_bytes v _)
          (answer strict v f d _ h.0 (λ e. both_left _ (all_items xs) (c e)) (omega (arith, size)))
          (answer_items strict xs f d rest h.1 (λ e. both_right (is_canonical v) _ (c e))
            (omega (arith, size, to_bytes_pos v))))

  answer_entries : (strict : Bool) (es : Entries) → AnswersEntries strict es
  answer_entries strict es zero d previous rest h o c lt = absurd (omega arith)
  answer_entries strict no_entries (suc f) d previous rest h o c lt =
      entries_end f d strict previous rest
  answer_entries strict (entry k v es) (suc f) d previous rest h o c lt =
      let head = write_sized 0x40 k in
      let body = to_bytes v in
      let size = length-append head (body ++ entries_bytes es) in
      let size' = length-append body (entries_bytes es) in
      rw (append_assoc, append_assoc)
        (entries_round f d strict previous _ _ _ rest k v es (at_end-write_str k _)
          (read_value-key f d strict k _ (omega arith) h.0)
          (check_order-follows strict previous k v es o)
          (answer strict v f d _ h.1 (λ e. both_left _ (all_entries es) (c e))
            (omega (arith, size, size')))
          (answer_entries strict es f d (some k) rest h.2 (λ e. follows-tail previous k v es (o e))
            (λ e. both_right (is_canonical v) _ (c e))
            (omega (arith, size, size', to_bytes_pos v))))

-- An object that was written is read back off the front of any input, in strict mode if it is in
-- canonical form.
pub read_value-to_bytes :
    (strict : Bool) (v : Value) (fuel depth : ℕ) (rest : Bytes)
    → IsValid depth v
    → Asks strict (is_canonical v)
    → 2 * length (to_bytes v) < fuel
    → read_value fuel strict depth (to_bytes v ++ rest) ≡ ok (v, rest)
read_value-to_bytes = answer

read_one-to_bytes :
    (strict : Bool) (v : Value)
    → IsValid 0 v
    → Asks strict (is_canonical v)
    → read_one strict (to_bytes v) ≡ ok v
unfolding read_one
read_one-to_bytes strict v h c =
    let whole = answer strict v (2 * length (to_bytes v) + 1) 0 [] h c (omega arith) in
    rw (rw append-nil at whole)

-- Decoding gives back every value that was encoded.
pub from_bytes-to_bytes : (v : Value) → IsValid 0 v → from_bytes (to_bytes v) ≡ ok v
unfolding from_bytes
from_bytes-to_bytes v h = read_one-to_bytes false v h (λ e. cc)

-- Strict decoding gives back every value in canonical form.
pub from_bytes_canonical-to_bytes :
    (v : Value) → IsValid 0 v → is_canonical v ≡ true → from_bytes_canonical (to_bytes v) ≡ ok v
unfolding from_bytes_canonical
from_bytes_canonical-to_bytes v h c = read_one-to_bytes true v h (λ _. c)
