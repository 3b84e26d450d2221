-- ===== src/Sync/Retention/Droppable/Newest.antt =====
-- crates/sync/src/retention.rs: of a policy that counts, the newest are kept.
use onestein.Base.{
  ℕ, zero, suc, ◌+◌, ◌<◌, ◌≡◌, refl, sym, ap, ◌∙◌, subst, ◌⊎◌, inl, inr, Bool, true, false, not,
  List, [], ◌∷◌, arith, ltb, leb, ◌==◌, if◌then◌else◌, lt→ltb, ==_iff, ==_refl, Bool-cases, take,
  All,
}
use onestein.Base.Bytes.{Bytes}
use onestein.Sync.Retention.{keep_count}
use onestein.Sync.Retention.Droppable.{
  Received, enumerate, comes_before, insert_newest, newest_first, contains, drop_where, droppable,
}

-- How many come before x.
abbrev rank : Received → List Received → ℕ
rank x [] = 0
rank x (y ∷ ys) = if comes_before y x then suc (rank x ys) else rank x ys

rank-insert_newest :
    (x y : Received) (ys : List Received) → rank x (insert_newest y ys) ≡ rank x (y ∷ ys)
rank-insert_newest x y [] = refl
rank-insert_newest x y (z ∷ zs) = elim (Bool-cases (comes_before y z)) [
  | inl first ↦ rw first refl
  | inr later ↦
      rw (later, rank-insert_newest x y zs) (swap (comes_before z x) (comes_before y x) (rank x zs))
]
  where
    swap :
        (a b : Bool) (n : ℕ)
        → (if a then suc (if b then suc n else n) else (if b then suc n else n))
          ≡ (if b then suc (if a then suc n else n) else (if a then suc n else n))
    swap true true n = refl
    swap true false n = refl
    swap false true n = refl
    swap false false n = refl

rank-newest_first : (x : Received) (ys : List Received) → rank x (newest_first ys) ≡ rank x ys
rank-newest_first x [] = refl
rank-newest_first x (y ∷ ys) =
    rank-insert_newest x y (newest_first ys)
    ∙ ap (λ n. if comes_before y x then suc n else n) (rank-newest_first x ys)

abbrev Apart : Received → Received → Type 0
Apart x y = (x.0 ≡ y.0) → ⊥

-- Each comes before all behind it, and has another place.
abbrev Ahead : Received → Received → Type 0
Ahead x y = (comes_before x y ≡ true) × Apart x y

abbrev IsSorted : List Received → Type 0
IsSorted [] = Unit {0}
IsSorted (x ∷ xs) = All (Ahead x) xs × IsSorted xs

before_total : (x y : Received) → Apart x y → comes_before x y ≡ false → comes_before y x ≡ true
before_total x y apart h = grind arith

before_trans :
    (x y z : Received) → comes_before x y ≡ true → comes_before y z ≡ true → comes_before x z ≡ true
before_trans x y z h h' = ground arith

before_asym : (x y : Received) → comes_before x y ≡ true → comes_before y x ≡ false
before_asym x y h = ground arith

before_irrefl : (x : Received) → comes_before x x ≡ false
before_irrefl x = ground arith

All-insert_newest :
    (P : Received → Type 0) (x : Received) (ys : List Received)
    → P x
    → All P ys
    → All P (insert_newest x ys)
All-insert_newest P x [] h all = (h, tt)
All-insert_newest P x (y ∷ ys) h all = elim (Bool-cases (comes_before x y)) [
  | inl first ↦ rw first (h, all)
  | inr later ↦ rw later (all.0, All-insert_newest P x ys h all.1)
]

All-newest_first : (P : Received → Type 0) (ys : List Received) → All P ys → All P (newest_first ys)
All-newest_first P [] all = tt
All-newest_first P (y ∷ ys) all =
    All-insert_newest P y (newest_first ys) all.0 (All-newest_first P ys all.1)

Ahead-trans :
    (x y : Received) (zs : List Received)
    → comes_before x y ≡ true
    → All (Ahead y) zs
    → All (Apart x) zs
    → All (Ahead x) zs
Ahead-trans x y [] h a b = tt
Ahead-trans x y (z ∷ zs) h a b = ((before_trans x y z h a.0.0, b.0), Ahead-trans x y zs h a.1 b.1)

insert_newest-IsSorted :
    (x : Received) (ys : List Received)
    → All (Apart x) ys
    → IsSorted ys
    → IsSorted (insert_newest x ys)
insert_newest-IsSorted x [] apart sorted = (tt, tt)
insert_newest-IsSorted x (y ∷ ys) apart sorted = elim (Bool-cases (comes_before x y)) [
  | inl first ↦ rw first (((first, apart.0), Ahead-trans x y ys first sorted.0 apart.1), sorted)
  | inr later ↦
      let ahead : Ahead y x = (before_total x y apart.0 later, λ e. apart.0 (sym e)) in
      rw later (
        All-insert_newest (Ahead y) x ys ahead sorted.0,
        insert_newest-IsSorted x ys apart.1 sorted.1,
      )
]

enumerate-Apart :
    (x : Received) (index : ℕ) (held : List (Bytes × ℕ))
    → x.0 < index
    → All (Apart x) (enumerate index held)
enumerate-Apart x index [] lt = tt
enumerate-Apart x index (message ∷ held) lt =
    (λ e. omega (arith, lt, e), enumerate-Apart x (index + 1) held (omega (arith, lt)))

newest_first-IsSorted :
    (index : ℕ) (held : List (Bytes × ℕ)) → IsSorted (newest_first (enumerate index held))
newest_first-IsSorted index [] = tt
newest_first-IsSorted index (message ∷ held) =
    let x : Received = (index, message.1) in
    insert_newest-IsSorted x (newest_first (enumerate (index + 1) held))
      (All-newest_first (Apart x) (enumerate (index + 1) held)
        (enumerate-Apart x (index + 1) held (omega arith)))
      (newest_first-IsSorted (index + 1) held)

abbrev In : Received → List Received → Type 0
In x [] = ⊥
In x (y ∷ ys) = (x ≡ y) ⊎ In x ys

In-insert_newest : (x y : Received) (ys : List Received) → In x (y ∷ ys) → In x (insert_newest y ys)
In-insert_newest x y [] h = h
In-insert_newest x y (z ∷ zs) h = elim (Bool-cases (comes_before y z)) [
  | inl first ↦ rw first h
  | inr later ↦ rw later (moved (In-insert_newest x y zs) h)
]
  where
    moved :
        ((x ≡ y) ⊎ In x zs → In x (insert_newest y zs))
        → (x ≡ y) ⊎ ((x ≡ z) ⊎ In x zs)
        → (x ≡ z) ⊎ In x (insert_newest y zs)
    moved ih (inl e) = inr (ih (inl e))
    moved ih (inr (inl e)) = inl e
    moved ih (inr (inr m)) = inr (ih (inr m))

In-newest_first : (x : Received) (ys : List Received) → In x ys → In x (newest_first ys)
In-newest_first x [] h = h
In-newest_first x (y ∷ ys) (inl e) = In-insert_newest x y (newest_first ys) (inl e)
In-newest_first x (y ∷ ys) (inr m) =
    In-insert_newest x y (newest_first ys) (inr (In-newest_first x ys m))

In-All : (P : Received → Type 0) (x : Received) (ys : List Received) → All P ys → In x ys → P x
In-All P x [] all h = elim h [ ]
In-All P x (y ∷ ys) all (inl e) = subst P (sym e) all.0
In-All P x (y ∷ ys) all (inr m) = In-All P x ys all.1 m

rank_first : (x : Received) (ys : List Received) → All (Ahead x) ys → rank x ys ≡ 0
rank_first x [] all = refl
rank_first x (y ∷ ys) all = rw (before_asym x y all.0.0, rank_first x ys all.1) refl

-- In a sorted list the first are those of low rank.
contains-take :
    (x : Received) (count : ℕ) (ys : List Received)
    → IsSorted ys
    → In x ys
    → contains x.0 (take count ys) ≡ ltb (rank x ys) count
contains-take x zero [] sorted h = elim h [ ]
contains-take x (suc count) [] sorted h = elim h [ ]
contains-take x zero (y ∷ ys) sorted h = ground arith
contains-take x (suc count) (y ∷ ys) sorted (inl e) =
    let low : rank y (y ∷ ys) ≡ 0 = rw (before_irrefl y, rank_first y ys sorted.0) refl in
    subst (λ z. contains z.0 (y ∷ take count ys) ≡ ltb (rank z (y ∷ ys)) (suc count)) (sym e)
      (rw (==_refl y.0, low) (sym (lt→ltb 0 (suc count) (omega arith))))
contains-take x (suc count) (y ∷ ys) sorted (inr m) =
    let ahead = In-All (Ahead y) x ys sorted.0 m in
    let other : (y.0 == x.0) ≡ false = elim (Bool-cases (y.0 == x.0)) [
      | inl same ↦ absurd (ahead.1 ((==_iff y.0 x.0).0 same))
      | inr differ ↦ differ
    ] in
    let ih = contains-take x count ys sorted.1 m in rw (other, ahead.0, ih) (ground arith)

drop_where-ext :
    (t u : Received → Bool) (index : ℕ) (held : List (Bytes × ℕ))
    → ((x : Received) → In x (enumerate index held) → t x ≡ u x)
    → drop_where t index held ≡ drop_where u index held
drop_where-ext t u index [] same = refl
drop_where-ext t u index (message ∷ held) same =
    let here = same (index, message.1) (inl refl) in
    let later = drop_where-ext t u (index + 1) held (λ x m. same x (inr m)) in rw (here, later) refl

-- The number of held messages that are newer than x, or of its time and earlier in the list.
abbrev pub newer_count : Received → List Received → ℕ
newer_count x [] = 0
newer_count x (y ∷ ys) =
    let rest = newer_count x ys in
    if ltb x.1 y.1
    then suc rest
    else if x.1 == y.1
    then (if ltb y.0 x.0 then suc rest else rest)
    else rest

rank-newer_count : (x : Received) (ys : List Received) → rank x ys ≡ newer_count x ys
rank-newer_count x [] = refl
rank-newer_count x (y ∷ ys) = let ih = rank-newer_count x ys in rw ih (ground arith)

-- Of a policy that counts, a message may be dropped exactly when at least that many held messages are newer,
-- where of messages of one time the earlier in the list counts as newer; the others keep their order.
pub droppable-keep_count :
    (count now_ms : ℕ) (held : List (Bytes × ℕ))
    → droppable (keep_count count) now_ms held
      ≡ drop_where (λ x. leb count (newer_count x (enumerate 0 held))) 0 held
unfolding droppable
droppable-keep_count count now_ms held =
    drop_where-ext (λ x. not (contains x.0 (take count (newest_first (enumerate 0 held)))))
      (λ x. leb count (newer_count x (enumerate 0 held))) 0 held
      (λ x m.
        let kept =
          contains-take x count (newest_first (enumerate 0 held)) (newest_first-IsSorted 0 held)
            (In-newest_first x (enumerate 0 held) m) in
        let same = rank-newest_first x (enumerate 0 held) ∙ rank-newer_count x (enumerate 0 held) in
        ap not (kept ∙ ap (λ n. ltb n count) same)
        ∙ complement (newer_count x (enumerate 0 held)) count)
  where
    complement : (n c : ℕ) → not (ltb n c) ≡ leb c n
    complement n c = ground arith
