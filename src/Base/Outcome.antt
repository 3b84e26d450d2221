-- ===== src/Base/Outcome.antt =====
-- Rust's `Result`, its `?` as a bind, and `ok_or`.
use mathlib.Core.Path.{◌≡◌, refl}
use mathlib.Core.Logic.{◌⊎◌, inl, inr, ◌≢◌}
use mathlib.Core.Bool.{Bool, true, false}
use mathlib.Core.Option.{Option, none, some}

pub data Result {ℓ κ} (E : Type ℓ) (A : Type κ) : Type (ℓ ⊔ κ) where
  ok : A → Result E A
  err : E → Result E A

-- `?` on each line of a body, and a check that returns early.
infixl 5 ◌>>=◌ ◌>>◌
abbrev pub ◌>>=◌ {ℓ κ μ} :
    {E : Type ℓ} {A : Type κ} {B : Type μ} → Result E A → (A → Result E B) → Result E B
err refusal >>= later = err refusal
ok value >>= later = later value

abbrev pub guard {ℓ} : {E : Type ℓ} → Bool → E → Result E (Unit {0})
guard false refusal = err refusal
guard true refusal = ok tt

abbrev pub ◌>>◌ {ℓ κ μ} :
    {E : Type ℓ} {A : Type κ} {B : Type μ} → Result E A → Result E B → Result E B
first >> later = first >>= λ _. later

abbrev pub ok_or {ℓ κ} : {E : Type ℓ} {A : Type κ} → Option A → E → Result E A
ok_or (some a) e = ok a
ok_or none e = err e

-- `map_err(|_| e)`.
abbrev pub or_err {ℓ κ μ} : {E : Type ℓ} {F : Type κ} {A : Type μ} → Result E A → F → Result F A
or_err (ok a) f = ok a
or_err (err e) f = err f

abbrev pub map_err {ℓ κ μ} :
    {E : Type ℓ} {F : Type κ} {A : Type μ} → (E → F) → Result E A → Result F A
map_err f (ok a) = ok a
map_err f (err e) = err (f e)

pub map_err-inv {ℓ κ μ} :
    {E : Type ℓ} {F : Type κ} {A : Type μ} {a : A} (f : E → F) (r : Result E A)
    → map_err f r ≡ ok a
    → r ≡ ok a
map_err-inv f (ok a) h = cc
map_err-inv f (err e) h = cc

pub >>=-eq-ok {ℓ κ μ} :
    {E : Type ℓ} {A : Type κ} {B : Type μ} {out : B} (first : Result E A) (later : A → Result E B)
    → (first >>= later) ≡ ok out
    → (value : A) × (first ≡ ok value) × (later value ≡ ok out)
>>=-eq-ok (err refusal) later e = cc
>>=-eq-ok (ok value) later e = (value, refl, e)

pub ok_or-inv {ℓ κ} :
    {E : Type ℓ} {A : Type κ} {a : A} (o : Option A) (e : E) → ok_or o e ≡ ok a → o ≡ some a
ok_or-inv none e h = cc
ok_or-inv (some a) e h = cc

pub guard-inv {ℓ} :
    {E : Type ℓ} {u : Unit {0}} (test : Bool) (e : E) → guard test e ≡ ok u → test ≡ true
guard-inv true e h = refl
guard-inv false e h = cc

pub or_err-inv {ℓ κ μ} :
    {E : Type ℓ} {F : Type κ} {A : Type μ} {a : A} (r : Result E A) (f : F)
    → or_err r f ≡ ok a
    → r ≡ ok a
or_err-inv (ok a) f h = cc
or_err-inv (err e) f h = cc

pub Result-cases {ℓ} : {E : Type ℓ} (r : Result E (Unit {0})) → (r ≡ ok tt) ⊎ (r ≢ ok tt)
Result-cases (ok tt) = inl refl
Result-cases (err e) = inr (λ p. cc)
