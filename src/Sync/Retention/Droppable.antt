-- ===== src/Sync/Retention/Droppable.antt =====
-- crates/sync/src/retention.rs: what a device may drop. `sort_by` is insertion by the comparison of the code.
pub mod Newest
use onestein.Base.{
  ℕ, zero, suc, ◌+◌, ◌-◌, ◌*◌, min, Bool, false, not, ◌&&◌, ◌||◌, List, [], ◌∷◌, ltb, ◌==◌,
  if◌then◌else◌, take,
}
use onestein.Base.Bytes.{Bytes}
use onestein.Base.Words.{u64_max}
use onestein.Sync.Retention.{Retention, keep_all, keep_count, keep_age}

abbrev pub day_ms : ℕ
day_ms = 24 * 60 * 60 * 1000

-- The place of a message, and when it was received.
abbrev pub Received : Type 0
Received = ℕ × ℕ

abbrev pub enumerate : ℕ → List (Bytes × ℕ) → List Received
enumerate index [] = []
enumerate index (message ∷ held) = (index, message.1) ∷ enumerate (index + 1) held

-- Newest first, and ties in the order given.
abbrev pub comes_before : Received → Received → Bool
comes_before left right = ltb right.1 left.1 || ((left.1 == right.1) && ltb left.0 right.0)

abbrev pub insert_newest : Received → List Received → List Received
insert_newest x [] = x ∷ []
insert_newest x (y ∷ ys) =
    let rest = insert_newest x ys in if comes_before x y then x ∷ y ∷ ys else y ∷ rest

abbrev pub newest_first : List Received → List Received
newest_first [] = []
newest_first (x ∷ xs) = insert_newest x (newest_first xs)

abbrev pub contains : ℕ → List Received → Bool
contains index [] = false
contains index (x ∷ xs) = (x.0 == index) || contains index xs

abbrev pub drop_where : (Received → Bool) → ℕ → List (Bytes × ℕ) → List Bytes
drop_where test index [] = []
drop_where test index (message ∷ held) =
    let rest = drop_where test (index + 1) held in
    if test (index, message.1) then message.0 ∷ rest else rest

unfoldable pub droppable : Retention → ℕ → List (Bytes × ℕ) → List Bytes
droppable keep_all now_ms held = []
droppable (keep_count count) now_ms held =
    let keep = take count (newest_first (enumerate 0 held)) in
    drop_where (λ x. not (contains x.0 keep)) 0 held
droppable (keep_age days) now_ms held =
    let cutoff = now_ms - min (days * day_ms) u64_max in drop_where (λ x. ltb x.1 cutoff) 0 held
