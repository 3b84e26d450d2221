-- ===== src/Sync/Retention/Exact.antt =====
-- crates/sync/src/retention.rs: a policy is read off exactly the bytes that it is written as.
use onestein.Base.{
  ℕ, ◌^◌, ◌<◌, ◌≡◌, refl, ap, ◌∙◌, subst, ◌↔◌, inl, inr, true, Option, none, some, arith, ◌==◌,
  if◌then◌else◌, lt→ltb, ==_iff, Bool-cases, All, bytes_eq, bytes_eq→eq, Result, ok, err, ◌>>=◌,
  guard, >>=-eq-ok, guard-inv,
}
use onestein.Base.Bytes.{Bytes, IsByte}
use onestein.Base.Text.{ascii}
use onestein.Bdf.{
  null, bool, float, list, Value, Entries, int, str, raw, dict, no_entries, entry, is_canonical,
  is_sorted, is_below,
}
use onestein.Bdf.Canonical.{from_bytes_canonical_iff}
use onestein.Bdf.Read.{Error as BdfError, from_bytes_canonical}
use onestein.Bdf.RoundTrip.{from_bytes_canonical-to_bytes}
use onestein.Bdf.Utf8.{is_utf8, scan}
use onestein.Bdf.Valid.{HoldValid}
use onestein.Bdf.Write.{to_bytes}
use onestein.Identity.Container.{is_text}
use onestein.Identity.Fields.{find_field}
use onestein.Sync.Identifiers.{SyncError, malformed}
use onestein.Sync.Retention.{
  text_in, number_in, Retention, keep_all, keep_count, keep_age, retention_fields, encode_retention,
  entries_in, kind_of, text_in, number_in, number_of, policy_of, retention_of, count_entries,
  decode_retention,
}

-- The number of a policy is a u32.
abbrev pub IsPolicy : Retention → Type 0
IsPolicy keep_all = Unit {0}
IsPolicy (keep_count count) = count < 2 ^ 32
IsPolicy (keep_age days) = days < 2 ^ 32

fields-HoldValid :
    (retention : Retention) → IsPolicy retention → HoldValid 1 (retention_fields retention)
unfolding is_utf8 scan
fields-HoldValid keep_all h = (is_text (ascii "k") refl, is_text (ascii "all") refl, tt)
fields-HoldValid (keep_count count) h = (
  is_text (ascii "k") refl,
  is_text (ascii "count") refl,
  (is_text (ascii "n") refl, omega (arith, h), tt),
)
fields-HoldValid (keep_age days) h = (
  is_text (ascii "k") refl,
  is_text (ascii "age") refl,
  (is_text (ascii "n") refl, omega (arith, h), tt),
)

fields-canonical : (retention : Retention) → is_canonical (dict (retention_fields retention)) ≡ true
unfolding is_canonical
fields-canonical keep_all = refl
fields-canonical (keep_count count) = refl
fields-canonical (keep_age days) = refl

retention_of-retention_fields :
    (retention : Retention)
    → IsPolicy retention
    → retention_of (retention_fields retention) ≡ ok retention
retention_of-retention_fields keep_all h = refl
retention_of-retention_fields (keep_count count) h = rw (lt→ltb count (2 ^ 32) h) refl
retention_of-retention_fields (keep_age days) h = rw (lt→ltb days (2 ^ 32) h) refl

decode_retention-encode_retention :
    (retention : Retention)
    → IsPolicy retention
    → decode_retention (encode_retention retention) ≡ ok retention
unfolding decode_retention encode_retention
decode_retention-encode_retention retention h =
    ap (λ r. entries_in r >>= retention_of)
      (from_bytes_canonical-to_bytes (dict (retention_fields retention))
        (omega arith, fields-HoldValid retention h) (fields-canonical retention))
    ∙ retention_of-retention_fields retention h

-- A key that is found in one entry is its key.
find_one :
    (key name : Bytes) (value found : Value)
    → find_field key (entry name value no_entries) ≡ some found
    → (name ≡ key) × (value ≡ found)
find_one key name value found h = elim (Bool-cases (bytes_eq name key)) [
  | inl same ↦ let there : some value ≡ some found = rw same at h in (bytes_eq→eq name key same, cc)
  | inr other ↦ let missing : none ≡ some found = rw other at h in cc
]

-- Two sorted entries in which both keys are found are k and n.
find_two :
    (a b : Bytes) (u w x y : Value)
    → is_below a b ≡ true
    → find_field (ascii "k") (entry a u (entry b w no_entries)) ≡ some x
    → find_field (ascii "n") (entry a u (entry b w no_entries)) ≡ some y
    → entry a u (entry b w no_entries) ≡ entry (ascii "k") x (entry (ascii "n") y no_entries)
find_two a b u w x y below hk hn = elim (Bool-cases (bytes_eq a (ascii "k"))) [
  | inl first ↦
      let key = bytes_eq→eq a (ascii "k") first in
      let value : some u ≡ some x = rw first at hk in
      let later : find_field (ascii "n") (entry b w no_entries) ≡ some y = rw key at hn in
      let (key', value') = find_one (ascii "n") b w y later in
      let one : u ≡ x = cc in λ i. entry (key i) (one i) (entry (key' i) (value' i) no_entries)
  | inr other ↦
      let later : find_field (ascii "k") (entry b w no_entries) ≡ some x = rw other at hk in
      let (key', value') = find_one (ascii "k") b w x later in
      elim (Bool-cases (bytes_eq a (ascii "n"))) [
        | inl same ↦
            let wrong : is_below (ascii "n") (ascii "k") ≡ true =
              rw (bytes_eq→eq a (ascii "n") same, key') at below in
            cc
        | inr neither ↦ let missing : none ≡ some y = rw (neither, key') at hn in cc
      ]
]

text_in-inv : (o : Option Value) (kind : Bytes) → text_in o ≡ ok kind → o ≡ some (str kind)
text_in-inv none kind h = cc
text_in-inv (some null) kind h = cc
text_in-inv (some (bool b)) kind h = cc
text_in-inv (some (int k)) kind h = cc
text_in-inv (some (float k)) kind h = cc
text_in-inv (some (str k)) kind h = let same : k ≡ kind = cc in ap (λ t. some (str t)) same
text_in-inv (some (raw k)) kind h = cc
text_in-inv (some (list k)) kind h = cc
text_in-inv (some (dict k)) kind h = cc

number_in-inv : (o : Option Value) (n : ℕ) → number_in o ≡ ok n → (o ≡ some (int n)) × (n < 2 ^ 32)
number_in-inv none n h = absurd cc
number_in-inv (some null) n h = absurd cc
number_in-inv (some (bool b)) n h = absurd cc
number_in-inv (some (int k)) n h =
    let (fits, same) : (k < 2 ^ 32) × (k ≡ n) = ground arith in
    (ap (λ t. some (int t)) same, omega (arith, fits, same))
number_in-inv (some (float k)) n h = absurd cc
number_in-inv (some (str k)) n h = absurd cc
number_in-inv (some (raw k)) n h = absurd cc
number_in-inv (some (list k)) n h = absurd cc
number_in-inv (some (dict k)) n h = absurd cc

one_entry :
    (fields : Entries) (x : Value)
    → count_entries fields ≡ 1
    → find_field (ascii "k") fields ≡ some x
    → fields ≡ entry (ascii "k") x no_entries
one_entry no_entries x n h = absurd (omega (arith, n))
one_entry (entry a u no_entries) x n h =
    let (key, value) = find_one (ascii "k") a u x h in λ i. entry (key i) (value i) no_entries
one_entry (entry a u (entry b w rest)) x n h = absurd (omega (arith, n))

two_entries :
    (fields : Entries) (x y : Value)
    → is_sorted fields ≡ true
    → count_entries fields ≡ 2
    → find_field (ascii "k") fields ≡ some x
    → find_field (ascii "n") fields ≡ some y
    → fields ≡ entry (ascii "k") x (entry (ascii "n") y no_entries)
two_entries no_entries x y sorted n hk hn = absurd (omega (arith, n))
two_entries (entry a u no_entries) x y sorted n hk hn = absurd (omega (arith, n))
two_entries (entry a u (entry b w no_entries)) x y sorted n hk hn =
    let below : is_below a b ≡ true = ground arith in find_two a b u w x y below hk hn
two_entries (entry a u (entry b w (entry c z rest))) x y sorted n hk hn = absurd (omega (arith, n))

abbrev Exactly : Entries → Retention → Type 0
Exactly fields retention = (fields ≡ retention_fields retention) × IsPolicy retention

abbrev policy : Retention → Result SyncError Retention
policy retention = ok retention

-- A policy with a number.
numbered :
    (fields : Entries) (kind name : Bytes) (of_number : ℕ → Retention) (retention : Retention)
    → ((n : ℕ)
        → n < 2 ^ 32
        → Exactly
            (entry (ascii "k") (str name) (entry (ascii "n") (int n) no_entries))
            (of_number n))
    → kind ≡ name
    → is_sorted fields ≡ true
    → count_entries fields ≡ 2
    → find_field (ascii "k") fields ≡ some (str kind)
    → (number_of fields >>= λ n. policy (of_number n)) ≡ ok retention
    → Exactly fields retention
numbered fields kind name of_number retention shape is_kind sorted size hk h =
    let (n, hn, h') = >>=-eq-ok (number_of fields) _ h in
    let (found, fits) = number_in-inv (find_field (ascii "n") fields) n hn in
    let whole = two_entries fields (str kind) (int n) sorted size hk found in
    let named : fields ≡ entry (ascii "k") (str name) (entry (ascii "n") (int n) no_entries) =
      whole ∙ ap (λ t. entry (ascii "k") (str t) (entry (ascii "n") (int n) no_entries)) is_kind in
    let same : of_number n ≡ retention = cc in
    subst (λ r. Exactly fields r) same (named ∙ (shape n fits).0, (shape n fits).1)

exact_by_kind :
    (fields : Entries) (retention : Retention) (kind : Bytes)
    → is_sorted fields ≡ true
    → find_field (ascii "k") fields ≡ some (str kind)
    → (count_entries fields == (if bytes_eq kind (ascii "all") then 1 else 2)) ≡ true
    → policy_of kind fields ≡ ok retention
    → Exactly fields retention
exact_by_kind fields retention kind sorted found size h =
    elim (Bool-cases (bytes_eq kind (ascii "all"))) [
      | inl all ↦
          let one : (count_entries fields == 1) ≡ true = rw all at size in
          let whole = one_entry fields (str kind) ((==_iff _ 1).0 one) found in
          let name = bytes_eq→eq kind (ascii "all") all in
          let policy' : policy keep_all ≡ ok retention = rw all at h in
          let same : keep_all ≡ retention = cc in
          subst (λ r. Exactly fields r) same
            (whole ∙ ap (λ t. entry (ascii "k") (str t) no_entries) name, tt)
      | inr some_kept ↦
          let two : (count_entries fields == 2) ≡ true = rw some_kept at size in
          let size' = (==_iff _ 2).0 two in
          elim (Bool-cases (bytes_eq kind (ascii "count"))) [
            | inl counted ↦
                let h' : (number_of fields >>= λ n. policy (keep_count n)) ≡ ok retention =
                  rw (some_kept, counted) at h in
                numbered fields kind (ascii "count") keep_count retention (λ n lt. (refl, lt))
                  (bytes_eq→eq kind (ascii "count") counted) sorted size' found h'
            | inr not_counted ↦ elim (Bool-cases (bytes_eq kind (ascii "age"))) [
              | inl aged ↦
                  let h' : (number_of fields >>= λ n. policy (keep_age n)) ≡ ok retention =
                    rw (some_kept, not_counted, aged) at h in
                  numbered fields kind (ascii "age") keep_age retention (λ n lt. (refl, lt))
                    (bytes_eq→eq kind (ascii "age") aged) sorted size' found h'
              | inr neither ↦
                  let refused : err malformed ≡ policy retention =
                    rw (some_kept, not_counted, neither) at h in
                  absurd cc
            ]
          ]
    ]

fields_exact :
    (fields : Entries) (retention : Retention)
    → is_sorted fields ≡ true
    → retention_of fields ≡ ok retention
    → Exactly fields retention
fields_exact fields retention sorted h =
    let (kind, hk, h1) = >>=-eq-ok (kind_of fields) _ h in
    let (_, size, h2) =
      >>=-eq-ok
        (guard (count_entries fields == (if bytes_eq kind (ascii "all") then 1 else 2)) malformed) _
        h1 in
    let found = text_in-inv (find_field (ascii "k") fields) kind hk in
    exact_by_kind fields retention kind sorted found (guard-inv _ malformed size) h2

entries_in-inv :
    (r : Result BdfError Value) (fields : Entries) → entries_in r ≡ ok fields → r ≡ ok (dict fields)
entries_in-inv (err e) fields h = cc
entries_in-inv (ok null) fields h = cc
entries_in-inv (ok (bool b)) fields h = cc
entries_in-inv (ok (int k)) fields h = cc
entries_in-inv (ok (float k)) fields h = cc
entries_in-inv (ok (str k)) fields h = cc
entries_in-inv (ok (raw k)) fields h = cc
entries_in-inv (ok (list k)) fields h = cc
entries_in-inv (ok (dict k)) fields h = let same : k ≡ fields = cc in ap (λ t. ok (dict t)) same

canonical-sorted : (fields : Entries) → is_canonical (dict fields) ≡ true → is_sorted fields ≡ true
unfolding is_canonical
canonical-sorted fields h = ground arith

-- A policy whose number is a u32 is read off exactly one byte string, the one that it is written as.
pub decode_retention_iff :
    (bytes : Bytes) (retention : Retention)
    → All IsByte bytes
    → (decode_retention bytes ≡ ok retention)
      ↔ (IsPolicy retention × (bytes ≡ encode_retention retention))
unfolding decode_retention encode_retention is_canonical
decode_retention_iff bytes retention all = (
  λ h.
      let (fields, hf, h') = >>=-eq-ok (entries_in (from_bytes_canonical bytes)) _ h in
      let read = entries_in-inv (from_bytes_canonical bytes) fields hf in
      let (valid, canon, wire) = (from_bytes_canonical_iff bytes (dict fields) all).0 read in
      let (same, fits) = fields_exact fields retention (canonical-sorted fields canon) h' in
      (fits, wire ∙ ap (λ es. to_bytes (dict es)) same),
  λ (fits, wire). ap decode_retention wire ∙ decode_retention-encode_retention retention fits,
)
