-- ===== src/Bdf/Order.antt =====
-- crates/bdf: the order of dictionary keys, as the reader checks it and as the canonical form asks.
use onestein.Base.{
  ◌≡◌, refl, sym, ◌∙◌, ◌≢◌, Bool, true, false, ◌&&◌, Option, none, some, [], ◌∷◌, arith, ok, err,
}
use onestein.Base.Bytes.{Bytes}
use Prim.Native.Nat.{Ordering}
use onestein.Bdf.{Value, Entries, no_entries, entry, cmp_bytes, is_below, is_sorted}
use onestein.Bdf.Read.{Error, check_order, out_of_fuel}

cmp_bytes-swap_lt : (xs ys : Bytes) → cmp_bytes xs ys ≡ Ordering.lt → cmp_bytes ys xs ≡ Ordering.gt
cmp_bytes-swap_lt [] [] h = cc
cmp_bytes-swap_lt [] (y ∷ ys) h = refl
cmp_bytes-swap_lt (x ∷ xs) [] h = cc
cmp_bytes-swap_lt (x ∷ xs) (y ∷ ys) h = ground (arith, cmp_bytes-swap_lt xs ys)

cmp_bytes-swap_gt : (xs ys : Bytes) → cmp_bytes xs ys ≡ Ordering.gt → cmp_bytes ys xs ≡ Ordering.lt
cmp_bytes-swap_gt [] [] h = cc
cmp_bytes-swap_gt [] (y ∷ ys) h = cc
cmp_bytes-swap_gt (x ∷ xs) [] h = refl
cmp_bytes-swap_gt (x ∷ xs) (y ∷ ys) h = ground (arith, cmp_bytes-swap_gt xs ys)

-- The entries are sorted, and their keys lie above an earlier one.
abbrev pub follows : Option Bytes → Entries → Bool
follows none es = is_sorted es
follows (some p) no_entries = true
follows (some p) (entry k v es) = is_below p k && is_sorted (entry k v es)

is_sorted-follows :
    (k : Bytes) (v : Value) (es : Entries) → is_sorted (entry k v es) ≡ follows (some k) es
is_sorted-follows k v no_entries = refl
is_sorted-follows k v (entry l w es) = refl

pub follows-tail :
    (previous : Option Bytes) (k : Bytes) (v : Value) (es : Entries)
    → follows previous (entry k v es) ≡ true
    → follows (some k) es ≡ true
follows-tail none k v es h = sym (is_sorted-follows k v es) ∙ h
follows-tail (some p) k v es h = ground (arith, is_sorted-follows k v es)

-- The reader lets a key through exactly when the entries behind the earlier ones are sorted.
pub check_order-follows :
    (strict : Bool) (previous : Option Bytes) (k : Bytes) (v : Value) (es : Entries)
    → (strict ≡ true → follows previous (entry k v es) ≡ true)
    → check_order strict previous k ≡ ok tt
check_order-follows false previous k v es h = refl
check_order-follows true none k v es h = refl
check_order-follows true (some p) k v es h = let g = h refl in ground (arith, cmp_bytes-swap_lt p k)

pub follows-check_order :
    (previous : Option Bytes) (k : Bytes) (v : Value) (es : Entries)
    → check_order true previous k ≡ ok tt
    → follows (some k) es ≡ true
    → follows previous (entry k v es) ≡ true
follows-check_order none k v es c h = is_sorted-follows k v es ∙ h
follows-check_order (some p) k v es c h =
    ground (arith, cmp_bytes-swap_gt k p, is_sorted-follows k v es)

pub check_order-ne-out_of_fuel :
    (strict : Bool) (previous : Option Bytes) (k : Bytes) (e : Error)
    → check_order strict previous k ≡ err e
    → e ≢ out_of_fuel
check_order-ne-out_of_fuel false previous k e h p = cc
check_order-ne-out_of_fuel true none k e h p = cc
check_order-ne-out_of_fuel true (some q) k e h p = ground arith
