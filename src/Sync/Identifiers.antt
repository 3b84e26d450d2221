-- ===== src/Sync/Identifiers.antt =====
-- crates/sync/src/records.rs: the identifier lists that the records carry.
use onestein.Base.{
  ℕ, zero, suc, ◌*◌, ◌%◌, ◌≤◌, ◌≡◌, refl, sym, ap, ◌∙◌, true, false, not, ◌||◌, List, [], ◌∷◌, ◌++◌,
  arith, ◌==◌, if◌then◌else◌, ==_iff, length, take, drop, is_empty, All, length-append, take-append,
  drop-append, Result, ok, err, ◌>>=◌, ◌>>◌, guard,
}
use onestein.Base.Bytes.{Bytes}

pub data SyncError : Type 0 where
  group_descriptor_too_long : ℕ → SyncError
  message_body_too_long : ℕ → SyncError
  malformed : SyncError
  bad_signature : SyncError

abbrev pub concat : List Bytes → Bytes
concat [] = []
concat (id ∷ ids) = id ++ concat ids

unfoldable pub identifiers : List Bytes → Result SyncError Bytes
identifiers ids = if is_empty ids then err malformed else ok (concat ids)

-- `payload.chunks(HASH_LEN)`: a chunk takes a byte at least, so a round for each byte is enough.
abbrev pub chunks : ℕ → Bytes → List Bytes
chunks zero bs = []
chunks (suc fuel) [] = []
chunks (suc fuel) (b ∷ bs) = take 32 (b ∷ bs) ∷ chunks fuel (drop 32 (b ∷ bs))

abbrev pub to_identifiers : List Bytes → Result SyncError (List Bytes)
to_identifiers [] = ok []
to_identifiers (chunk ∷ rest) = do
  guard (length chunk == 32) malformed
  ids ← to_identifiers rest
  ok (chunk ∷ ids)

unfoldable pub parse_identifiers : Bytes → Result SyncError (List Bytes)
parse_identifiers payload =
    if is_empty payload || not (length payload % 32 == 0)
    then err malformed
    else to_identifiers (chunks (length payload) payload)

abbrev pub IsIdentifier : Bytes → Type 0
IsIdentifier id = length id ≡ 32

length-concat : (ids : List Bytes) → All IsIdentifier ids → length (concat ids) ≡ 32 * length ids
length-concat [] all = omega arith
length-concat (id ∷ ids) all =
    omega (arith, length-append id (concat ids), length-concat ids all.1, all.0)

chunk_step :
    (fuel : ℕ) (id rest : Bytes)
    → IsIdentifier id
    → chunks (suc fuel) (id ++ rest) ≡ id ∷ chunks fuel rest
chunk_step fuel [] rest h = absurd (omega (arith, h))
chunk_step fuel (b ∷ bs) rest h =
    let front : take 32 ((b ∷ bs) ++ rest) ≡ b ∷ bs = take-append (b ∷ bs) rest 32 h in
    let back : drop 32 ((b ∷ bs) ++ rest) ≡ rest = drop-append (b ∷ bs) rest 32 h in
    ap (λ x. x ∷ chunks fuel (drop 32 ((b ∷ bs) ++ rest))) front
    ∙ ap (λ x. (b ∷ bs) ∷ chunks fuel x) back

chunks_nil : (fuel : ℕ) → chunks fuel [] ≡ []
chunks_nil zero = refl
chunks_nil (suc fuel) = refl

chunks-concat :
    (ids : List Bytes) (fuel : ℕ)
    → All IsIdentifier ids
    → length ids ≤ fuel
    → chunks fuel (concat ids) ≡ ids
chunks-concat [] fuel all le = chunks_nil fuel
chunks-concat (id ∷ ids) zero all le = absurd (omega arith)
chunks-concat (id ∷ ids) (suc fuel) all le =
    chunk_step fuel id (concat ids) all.0
    ∙ ap (λ x. id ∷ x) (chunks-concat ids fuel all.1 (omega arith))

to_identifiers-All : (ids : List Bytes) → All IsIdentifier ids → to_identifiers ids ≡ ok ids
to_identifiers-All [] all = refl
to_identifiers-All (id ∷ ids) all = rw (all.0, to_identifiers-All ids all.1) refl

-- A list of one or more identifiers is read back as it was written.
pub parse_identifiers-identifiers :
    (ids : List Bytes) (payload : Bytes)
    → All IsIdentifier ids
    → identifiers ids ≡ ok payload
    → parse_identifiers payload ≡ ok ids
unfolding identifiers parse_identifiers
parse_identifiers-identifiers [] payload all h = cc
parse_identifiers-identifiers (id ∷ ids) payload all h =
    let wire : concat (id ∷ ids) ≡ payload = cc in
    let size = length-concat (id ∷ ids) all in
    let full : is_empty (concat (id ∷ ids)) ≡ false =
      filled (concat (id ∷ ids)) (omega (arith, size)) in
    let whole : (length (concat (id ∷ ids)) % 32 == 0) ≡ true =
      (==_iff _ 0).1 (omega (arith, size)) in
    ap parse_identifiers (sym wire)
    ∙ (rw (full, whole, parse_identifiers)
        (ap to_identifiers
            (chunks-concat (id ∷ ids) (length (concat (id ∷ ids))) all (omega (arith, size)))
          ∙ to_identifiers-All (id ∷ ids) all))
  where
    filled : (bs : Bytes) → 1 ≤ length bs → is_empty bs ≡ false
    filled [] h = absurd (omega arith)
    filled (b ∷ bs) h = refl
