-- ===== src/Sync/Delivery.antt =====
-- crates/sync/src/records.rs: when a message may be delivered to its client.
use onestein.Base.{
  ◌≡◌, refl, inl, inr, Bool, true, false, ◌&&◌, ◌||◌, Option, none, some, List, [], ◌∷◌, ◌++◌,
  arith, if◌then◌else◌, Option-cases,
}
use onestein.Base.Bytes.{Bytes}

pub data Deliverability : Type 0 where
  -- Whether some ancestry is incomplete.
  ready : Bool → Deliverability
  waiting : Deliverability

-- A message identifier is its bytes. The two closures of the caller stand as functions.
module _ (delivered : Bytes → Option Bool) (in_horizon : Bytes → Bool) where
  -- The loop, from what it found so far.
  unfoldable pub deliver_loop : Bool → List Bytes → Deliverability
  deliver_loop incomplete [] = ready incomplete
  deliver_loop incomplete (d ∷ ds) = elim (delivered d) [
    | some gap ↦ deliver_loop (incomplete || gap) ds
    | none ↦ let rest = deliver_loop true ds in if in_horizon d then rest else waiting
  ]

  unfoldable pub deliverability : List Bytes → Deliverability
  deliverability ds = deliver_loop false ds

  -- The rule without a loop: what each dependency must be, and what any of them brings along.
  abbrev pub is_settled : Bytes → Bool
  is_settled d = elim (delivered d) [ some gap ↦ true | none ↦ in_horizon d ]

  abbrev pub is_gap : Bytes → Bool
  is_gap d = elim (delivered d) [ some gap ↦ gap | none ↦ true ]

  abbrev pub every : (Bytes → Bool) → List Bytes → Bool
  every p [] = true
  every p (d ∷ ds) = p d && every p ds

  abbrev pub some_of : (Bytes → Bool) → List Bytes → Bool
  some_of p [] = false
  some_of p (d ∷ ds) = p d || some_of p ds

  abbrev pub rule : List Bytes → Deliverability
  rule ds = if every is_settled ds then ready (some_of is_gap ds) else waiting

  loop_lem :
      (ds : List Bytes) (incomplete : Bool)
      → deliver_loop incomplete ds
        ≡ (if every is_settled ds then ready (incomplete || some_of is_gap ds) else waiting)
  unfolding deliver_loop
  loop_lem [] incomplete = ground arith
  loop_lem (d ∷ ds) incomplete = elim (Option-cases (delivered d)) [
    | inl e ↦ ground (arith, e, loop_lem ds true)
    | inr (gap, e) ↦ ground (arith, e, loop_lem ds (incomplete || gap))
  ]

  -- The loop is the rule: a message is ready exactly when every dependency was delivered or lies
  -- inside the horizon, and its ancestry is incomplete exactly when some dependency was delivered
  -- with a gap behind it or was satisfied by the horizon alone.
  pub deliverability_lem : (ds : List Bytes) → deliverability ds ≡ rule ds
  unfolding deliverability
  deliverability_lem ds = loop_lem ds false

  every-append :
      (p : Bytes → Bool) (xs ys : List Bytes) → every p (xs ++ ys) ≡ (every p xs && every p ys)
  every-append p [] ys = refl
  every-append p (x ∷ xs) ys = ground (arith, every-append p xs ys)

  some_of-append :
      (p : Bytes → Bool) (xs ys : List Bytes)
      → some_of p (xs ++ ys) ≡ (some_of p xs || some_of p ys)
  some_of-append p [] ys = refl
  some_of-append p (x ∷ xs) ys = ground (arith, some_of-append p xs ys)

  -- The order of the dependencies does not matter: two parts of the list can change places.
  pub deliverability-append :
      (xs ys : List Bytes) → deliverability (xs ++ ys) ≡ deliverability (ys ++ xs)
  deliverability-append xs ys = ground (
    arith,
    deliverability_lem (xs ++ ys),
    deliverability_lem (ys ++ xs),
    every-append is_settled xs ys,
    every-append is_settled ys xs,
    some_of-append is_gap xs ys,
    some_of-append is_gap ys xs,
  )
