-- ===== src/Identity/Revocation/Epochs.antt =====
-- crates/identity/src/revocation.rs: what a contact records of one identity's epochs, over its history.
use onestein.Base.{
  ℕ, ◌≤◌, ◌<◌, ◌≡◌, refl, List, [], ◌∷◌, ◌++◌, arith, ltb, if◌then◌else◌, lt→ltb, Result, ok, err,
}
use onestein.Identity.{Error, epoch_in_the_past}
use onestein.Identity.Revocation.{accept_epoch}

-- The highest epoch recorded after each of these was put to the rule: a refusal records nothing.
abbrev pub keep : ℕ → Result Error ℕ → ℕ
keep recorded (ok epoch) = epoch
keep recorded (err e) = recorded

abbrev pub record_all : ℕ → List ℕ → ℕ
record_all recorded [] = recorded
record_all recorded (epoch ∷ epochs) =
    record_all (keep recorded (accept_epoch recorded epoch)) epochs

keep_max :
    (recorded epoch : ℕ)
    → keep recorded (accept_epoch recorded epoch) ≡ (if ltb epoch recorded then recorded else epoch)
unfolding accept_epoch
keep_max recorded epoch = ground arith

record_all-le : (recorded : ℕ) (epochs : List ℕ) → recorded ≤ record_all recorded epochs
record_all-le recorded [] = omega arith
record_all-le recorded (epoch ∷ epochs) =
    let later = record_all-le (keep recorded (accept_epoch recorded epoch)) epochs in
    ground (arith, later, keep_max recorded epoch)

-- Once an epoch was put to the rule, whatever came before and after, no lower one is accepted again.
pub accept_epoch-never_back :
    (recorded old lower : ℕ) (before after : List ℕ)
    → lower < old
    → accept_epoch (record_all recorded (before ++ (old ∷ after))) lower
      ≡ err (epoch_in_the_past (record_all recorded (before ++ (old ∷ after))) lower)
unfolding accept_epoch
accept_epoch-never_back recorded old lower [] after lt =
    let later = record_all-le (keep recorded (accept_epoch recorded old)) after in
    rw
      (lt→ltb lower (record_all recorded (old ∷ after))
        (ground (arith, later, keep_max recorded old)))
      refl
accept_epoch-never_back recorded old lower (epoch ∷ before) after lt =
    accept_epoch-never_back (keep recorded (accept_epoch recorded epoch)) old lower before after lt
