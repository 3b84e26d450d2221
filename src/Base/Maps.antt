-- ===== src/Base/Maps.antt =====
-- A `BTreeMap` as an association list: the code uses no order of the keys.
use onestein.Base.Lists.{All}
use onestein.Base.Tests.{if◌then◌else◌, Bool-cases}
use mathlib.Core.Path.{◌≡◌, refl, subst}
use mathlib.Core.Logic.{inl, inr}
use mathlib.Core.Bool.{Bool}
use mathlib.Core.Option.{Option, none, some}
use mathlib.Core.List.{List, [], ◌∷◌}
use native.Mathlib.Omega.{arith}

pub record Entry {ℓ κ} (K : Type ℓ) (V : Type κ) : Type (ℓ ⊔ κ) where
  pub key : K
  pub value : V

module _ {ℓ κ} {K : Type ℓ} {V : Type κ} (same : K → K → Bool) where
  abbrev pub get : K → List (Entry K V) → Option V
  get k [] = none
  get k (e ∷ es) = if same k e.key then some e.value else get k es

  abbrev pub remove : K → List (Entry K V) → List (Entry K V)
  remove k [] = []
  remove k (e ∷ es) = let rest = remove k es in if same k e.key then rest else e ∷ rest

  abbrev pub insert : K → V → List (Entry K V) → List (Entry K V)
  insert k v es = record { key = k; value = v } ∷ remove k es

  -- `*map.get_mut(k)? = f(..)`.
  abbrev pub alter : K → (V → V) → List (Entry K V) → List (Entry K V)
  alter k f [] = []
  alter k f (e ∷ es) =
      if same k e.key then record e { value = f e.value } ∷ es else e ∷ alter k f es

  pub get-remove : (k : K) (es : List (Entry K V)) → get k (remove k es) ≡ none
  get-remove k [] = refl
  get-remove k (e ∷ es) = ground (arith, get-remove k es)

  pub get-remove-none :
      (k k' : K) (es : List (Entry K V)) → get k es ≡ none → get k (remove k' es) ≡ none
  get-remove-none k k' [] h = h
  get-remove-none k k' (e ∷ es) h = elim (Bool-cases (same k e.key)) [
    | inl p ↦ let found : some e.value ≡ none = rw p at h in cc
    | inr p ↦
        let ih = get-remove-none k k' es (rw p at h) in
        elim (Bool-cases (same k' e.key)) [ inl q ↦ rw q ih | inr q ↦ rw (q, p) ih ]
  ]

  -- What holds of every value.
  abbrev pub EachValue {μ} : (V → Type μ) → List (Entry K V) → Type μ
  EachValue P = All (λ e. P e.value)

  pub EachValue-get {μ} :
      (P : V → Type μ) (k : K) (es : List (Entry K V)) {v : V}
      → EachValue P es
      → get k es ≡ some v
      → P v
  EachValue-get P k [] all h = cc
  EachValue-get P k (e ∷ es) all h = elim (Bool-cases (same k e.key)) [
    | inl p ↦ let here : some e.value ≡ _ = rw p at h in subst P (cc) all.0
    | inr p ↦ EachValue-get P k es all.1 (rw p at h)
  ]

  pub EachValue-alter {μ} :
      (P : V → Type μ) (k : K) (f : V → V) (es : List (Entry K V))
      → ((v : V) → get k es ≡ some v → P v → P (f v))
      → EachValue P es
      → EachValue P (alter k f es)
  EachValue-alter P k f [] step all = all
  EachValue-alter P k f (e ∷ es) step all = elim (Bool-cases (same k e.key)) [
    | inl p ↦ rw p (step e.value (rw p refl) all.0, all.1)
    | inr p ↦ rw p (all.0, EachValue-alter P k f es (λ v g. step v (rw p g)) all.1)
  ]

  pub EachValue-remove {μ} :
      (P : V → Type μ) (k : K) (es : List (Entry K V)) → EachValue P es → EachValue P (remove k es)
  EachValue-remove P k [] all = all
  EachValue-remove P k (e ∷ es) all = elim (Bool-cases (same k e.key)) [
    | inl p ↦ rw p (EachValue-remove P k es all.1)
    | inr p ↦ rw p (all.0, EachValue-remove P k es all.1)
  ]
