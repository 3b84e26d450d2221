-- ===== src/Bdf.antt =====
-- crates/bdf/src/lib.rs: BDF objects, minimal integer lengths and the canonical form.
pub mod Utf8
pub mod Write
pub mod Read
pub mod Ints
pub mod Valid
pub mod Sizes
pub mod Strings
pub mod Order
pub mod Sound
pub mod Scalars
pub mod RoundTrip
pub mod Canonical
pub mod Extent
use onestein.Base.{
  ℕ, zero, suc, ◌+◌, ◌-◌, ◌%◌, ◌^◌, Bool, true, false, ◌&&◌, [], ◌∷◌, leb, if◌then◌else◌,
}
use onestein.Base.Bytes.{Bytes}
use Prim.Native.Nat.{compare, Ordering}
use onestein.Base.Words.{u64_mod}

-- An `i64` is its 64-bit pattern, and so is an `f64`. A string is its UTF-8 bytes.
mutual
  pub data Value : Type 0 where
    null : Value
    bool : Bool → Value
    int : ℕ → Value
    float : ℕ → Value
    str : Bytes → Value
    raw : Bytes → Value
    list : Items → Value
    dict : Entries → Value

  pub data Items : Type 0 where
    no_items : Items
    item : Value → Items → Items

  pub data Entries : Type 0 where
    no_entries : Entries
    entry : Bytes → Value → Entries → Entries

-- `<=` on `i64`, which orders the patterns with the sign bit turned.
abbrev pub le_i64 : ℕ → ℕ → Bool
le_i64 a b = leb ((a + 2 ^ 63) % u64_mod) ((b + 2 ^ 63) % u64_mod)

-- The range of an i8, i16 or i32, by its bits less one.
abbrev pub in_range : ℕ → ℕ → Bool
in_range k n = le_i64 (u64_mod - 2 ^ k) n && le_i64 n (2 ^ k - 1)

unfoldable pub minimal_int_length : ℕ → ℕ
minimal_int_length n =
    if in_range 7 n then 1 else if in_range 15 n then 2 else if in_range 31 n then 4 else 8

abbrev pub max_nesting : ℕ
max_nesting = 64

-- `Ord` on byte strings.
abbrev pub cmp_bytes : Bytes → Bytes → Ordering
cmp_bytes [] [] = Ordering.eq
cmp_bytes [] (y ∷ ys) = Ordering.lt
cmp_bytes (x ∷ xs) [] = Ordering.gt
cmp_bytes (x ∷ xs) (y ∷ ys) = elim (compare x y) [
  | Ordering.lt ↦ Ordering.lt
  | Ordering.gt ↦ Ordering.gt
  | Ordering.eq ↦ cmp_bytes xs ys
]

abbrev pub is_below : Bytes → Bytes → Bool
is_below xs ys = elim (cmp_bytes xs ys) [ Ordering.lt ↦ true | _ ↦ false ]

-- Each key against the one behind it.
abbrev pub is_sorted : Entries → Bool
is_sorted no_entries = true
is_sorted (entry k v no_entries) = true
is_sorted (entry k v (entry l w es)) = is_below k l && is_sorted (entry l w es)

unfoldable mutual
  pub is_canonical : Value → Bool
  is_canonical (list xs) = all_items xs
  is_canonical (dict es) = is_sorted es && all_entries es
  is_canonical _ = true

  pub all_items : Items → Bool
  all_items no_items = true
  all_items (item v xs) = is_canonical v && all_items xs

  pub all_entries : Entries → Bool
  all_entries no_entries = true
  all_entries (entry k v es) = is_canonical v && all_entries es
