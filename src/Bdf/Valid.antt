-- ===== src/Bdf/Valid.antt =====
-- crates/bdf: which values the types of the source can hold, and what is said of a read.
use onestein.Base.{
  ℕ, ◌+◌, ◌^◌, ◌≤◌, ◌<◌, ◌≡◌, refl, subst, ◌≢◌, Bool, true, false, length, All, Result, ok, err,
  ◌>>=◌, guard,
}
use onestein.Base.Bytes.{Bytes, IsByte}
use onestein.Base.Words.{u64_mod}
use onestein.Bdf.{
  Value, Items, Entries, null, bool, int, float, str, raw, list, dict, no_items, item, no_entries,
  entry, max_nesting,
}
use onestein.Bdf.Utf8.{is_utf8}
use onestein.Bdf.Read.{Error, Read, out_of_fuel}

-- A byte string whose length is an i64.
abbrev pub IsRaw : Bytes → Type 0
IsRaw bs = All IsByte bs × (length bs < 2 ^ 63)

abbrev pub IsText : Bytes → Type 0
IsText bs = (is_utf8 bs ≡ true) × All IsByte bs × (length bs < 2 ^ 63)

-- A value of the source's types, whose containers nest no deeper than the limit below `depth`.
abbrev mutual
  pub IsValid : ℕ → Value → Type 0
  IsValid depth null = Unit {0}
  IsValid depth (bool b) = Unit {0}
  IsValid depth (int n) = n < u64_mod
  IsValid depth (float n) = n < u64_mod
  IsValid depth (str bs) = IsText bs
  IsValid depth (raw bs) = IsRaw bs
  IsValid depth (list xs) = (depth + 1 ≤ max_nesting) × AreValid (depth + 1) xs
  IsValid depth (dict es) = (depth + 1 ≤ max_nesting) × HoldValid (depth + 1) es

  pub AreValid : ℕ → Items → Type 0
  AreValid depth no_items = Unit {0}
  AreValid depth (item v xs) = IsValid depth v × AreValid depth xs

  pub HoldValid : ℕ → Entries → Type 0
  HoldValid depth no_entries = Unit {0}
  HoldValid depth (entry k v es) = IsText k × IsValid depth v × HoldValid depth es

-- The read kept within its fuel, and its value and the input left have the property.
pub data Ensures {A : Type 0} (P : A → Bytes → Type 0) : Read A → Type 0 where
  holds : {a : A} {rest : Bytes} → P a rest → Ensures P (ok (a, rest))
  rejected : {e : Error} → e ≢ out_of_fuel → Ensures P (err e)

module _ {A : Type 0} {P : A → Bytes → Type 0} where
  pub Ensures-ok : {r : Read A} {a : A} {rest : Bytes} → Ensures P r → r ≡ ok (a, rest) → P a rest
  Ensures-ok (holds {a} {rest} h) e = subst {A = A × Bytes} (λ p. P p.0 p.1) (cc) h
  Ensures-ok (rejected n) e = cc

  pub Ensures-fuel : {r : Read A} → Ensures P r → r ≢ err out_of_fuel
  Ensures-fuel (holds h) e = cc
  Ensures-fuel (rejected n) e = n (cc)

  pub Ensures-bind :
      {B : Type 0} {Q : B → Bytes → Type 0} {r : Read A} (f : A × Bytes → Read B)
      → Ensures P r
      → ((a : A) (rest : Bytes) → P a rest → Ensures Q (f (a, rest)))
      → Ensures Q (r >>= f)
  Ensures-bind f (holds {a} {rest} h) k = k a rest h
  Ensures-bind f (rejected n) k = rejected n

module _ {A : Type 0} {P : A → Bytes → Type 0} where
  pub Ensures-map :
      {Q : A → Bytes → Type 0} {r : Read A}
      → Ensures P r
      → ((a : A) (rest : Bytes) → P a rest → Q a rest)
      → Ensures Q r
  Ensures-map (holds {a} {rest} h) k = holds (k a rest h)
  Ensures-map (rejected n) k = rejected n

  -- A step that reads nothing.
  pub Ensures-check :
      {B : Type 0} (r : Result Error B) {f : B → Read A}
      → ((e : Error) → r ≡ err e → e ≢ out_of_fuel)
      → ((b : B) → r ≡ ok b → Ensures P (f b))
      → Ensures P (r >>= f)
  Ensures-check (ok b) fine k = k b refl
  Ensures-check (err e) fine k = rejected (fine e refl)

  pub Ensures-guard :
      (b : Bool) (e : Error) (f : Unit {0} → Read A)
      → e ≢ out_of_fuel
      → (b ≡ true → Ensures P (f tt))
      → Ensures P (guard b e >>= f)
  Ensures-guard true e f n k = k refl
  Ensures-guard false e f n k = rejected n
