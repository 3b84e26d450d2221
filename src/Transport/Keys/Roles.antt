-- ===== src/Transport/Keys/Roles.antt =====
-- crates/transport/src/lib.rs: what one role sends under, the other receives under.
use onestein.Base.{
  ℕ, zero, suc, ◌+◌, ◌-◌, ◌≡◌, refl, inl, inr, arith, ltb, Bool-cases, Result, ok, err, ◌>>=◌,
}
use onestein.Base.Bytes.{Bytes}
use onestein.Transport.Keys.{
  max_rotations, Transport, Role, role_a, role_b, Error, PeriodKeys, initial, rotate_rounds,
  rotate_once, rotate_to,
}

abbrev pub mirror : PeriodKeys → PeriodKeys
mirror keys = record keys { outgoing = keys.incoming; incoming = keys.outgoing }

abbrev pub map_ok {ℓ κ μ} :
    {E : Type ℓ} {A : Type κ} {B : Type μ} → (A → B) → Result E A → Result E B
map_ok f (ok a) = ok (f a)
map_ok f (err e) = err e

abbrev pub other : Role → Role
other role_a = role_b
other role_b = role_a

module _ (keyed : Bytes → Bytes → Bytes) where
  -- The keys of a role in a period.
  abbrev pub keys_at : Bytes → Transport → Role → ℕ → ℕ → Result Error PeriodKeys
  keys_at root_key transport role timestamp_ms period = do
    keys ← initial keyed root_key transport role timestamp_ms
    rotate_to keyed keys period

  rotate_rounds-mirror :
      (n next : ℕ) (keys : PeriodKeys)
      → rotate_rounds keyed n next (mirror keys) ≡ mirror (rotate_rounds keyed n next keys)
  unfolding rotate_rounds
  rotate_rounds-mirror zero next keys = refl
  rotate_rounds-mirror (suc n) next keys =
      rotate_rounds-mirror n (next + 1) (rotate_once keyed next keys)

  rotate_to-mirror :
      (keys : PeriodKeys) (period : ℕ)
      → rotate_to keyed (mirror keys) period ≡ map_ok mirror (rotate_to keyed keys period)
  unfolding rotate_to
  rotate_to-mirror keys period = elim (Bool-cases (ltb period keys.period)) [
    | inl past ↦ rw past refl
    | inr ahead ↦ elim (Bool-cases (ltb max_rotations (period - keys.period))) [
      | inl far ↦ rw (ahead, far) refl
      | inr near ↦ rw (ahead, near, rotate_rounds-mirror) refl
    ]
  ]

  initial-mirror :
      (root_key : Bytes) (transport : Transport) (role : Role) (timestamp_ms : ℕ)
      → initial keyed root_key transport (other role) timestamp_ms
        ≡ map_ok mirror (initial keyed root_key transport role timestamp_ms)
  unfolding initial
  initial-mirror root_key transport role_a timestamp_ms = ground arith
  initial-mirror root_key transport role_b timestamp_ms = ground arith

  -- Two devices with one root key, transport and timestamp agree in every period: either both are
  -- refused with the same error, or each sends under the keys that the other receives under.
  pub keys_at-other :
      (root_key : Bytes) (transport : Transport) (role : Role) (timestamp_ms period : ℕ)
      → keys_at root_key transport (other role) timestamp_ms period
        ≡ map_ok mirror (keys_at root_key transport role timestamp_ms period)
  keys_at-other root_key transport role timestamp_ms period =
      rw (initial-mirror root_key transport role timestamp_ms)
        (rotated (initial keyed root_key transport role timestamp_ms))
    where
      rotated :
          (r : Result Error PeriodKeys)
          → (map_ok mirror r >>= λ keys. rotate_to keyed keys period)
            ≡ map_ok mirror (r >>= λ keys. rotate_to keyed keys period)
      rotated (err e) = refl
      rotated (ok keys) = rotate_to-mirror keys period
