-- ===== src/Record/Stream.antt =====
-- crates/record/src/lib.rs: the reader as an iterator, as the layers above drain it.
use onestein.Base.{
  ℕ, zero, suc, ◌<◌, ◌≡◌, refl, ap, ◌∙◌, subst, ◌≢◌, inl, inr, Option, none, some, List, [], ◌∷◌,
  ◌++◌, arith, Option-cases, length, All, Result, ok, err, ◌>>=◌, >>=-eq-ok,
}
use onestein.Base.Bytes.{Bytes, IsByte}
use onestein.Record.{Record, Error, encode, Reader, reader, next}
use onestein.Record.Read.{next-encode, next-none, next_takes}

-- `for framed in reader { let record = framed.map_err(malformed)?; out.push(f(record)?) }`. The fuel
-- bounds the rounds; `none` means that it ran out.
module _ {ℓ κ} {E : Type ℓ} {A : Type κ} (malformed : Error → E) (f : Record → Result E A) where
  abbrev pub push : Result E A → Option (Result E (List A)) → Option (Result E (List A))
  push (err e) rest = some (err e)
  push (ok a) none = none
  push (ok a) (some (err e)) = some (err e)
  push (ok a) (some (ok out)) = some (ok (a ∷ out))

  pub drain : ℕ → Reader → Option (Result E (List A))
  drain zero r = none
  drain (suc fuel) r = elim (next r).0 [
    | none ↦ some (ok [])
    | some (err e) ↦ some (err (malformed e))
    | some (ok rec) ↦ push (f rec) (drain fuel (next r).1)
  ]

  -- The caller's function over a list of records, stopping at its first error.
  abbrev pub traverse : List Record → Result E (List A)
  traverse [] = ok []
  traverse (rec ∷ recs) = do a ← f rec; out ← traverse recs; ok (a ∷ out)

-- Records written one behind the other.
abbrev pub encode_all : List Record → Result Error Bytes
encode_all [] = ok []
encode_all (rec ∷ recs) = do
  bs ← encode rec.version rec.record_type rec.payload
  rest ← encode_all recs
  ok (bs ++ rest)

abbrev pub IsVersion : ℕ → List Record → Type 0
IsVersion version = All (λ rec. rec.version ≡ version)

module _ {ℓ κ} {E : Type ℓ} {A : Type κ} (malformed : Error → E) (f : Record → Result E A) where
  pub drain_step :
      (fuel : ℕ) (r q : Reader) (rec : Record)
      → next r ≡ (some (ok rec), q)
      → drain malformed f (suc fuel) r ≡ push malformed f (f rec) (drain malformed f fuel q)
  unfolding drain
  drain_step fuel r q rec h = ground arith

  pub drain_end :
      (fuel : ℕ) (r : Reader) → (next r).0 ≡ none → drain malformed f (suc fuel) r ≡ some (ok [])
  unfolding drain
  drain_end fuel r h = ground arith

  pub drain_refused :
      (fuel : ℕ) (r : Reader) (e : Error)
      → (next r).0 ≡ some (err e)
      → drain malformed f (suc fuel) r ≡ some (err (malformed e))
  unfolding drain
  drain_refused fuel r e h = ground arith

  push-traverse :
      (rec : Record) (recs : List Record)
      → push malformed f (f rec) (some (traverse malformed f recs))
        ≡ some (traverse malformed f (rec ∷ recs))
  push-traverse rec recs = ground arith

  push-ne-none :
      (a : Result E A) (rest : Option (Result E (List A)))
      → rest ≢ none
      → push malformed f a rest ≢ none
  push-ne-none a rest h e = ground arith

  -- A whole stream of records of the reader's version is read record by record, to its end.
  pub drain-encode_all :
      (fuel version : ℕ) (recs : List Record) (bs : Bytes)
      → IsVersion version recs
      → encode_all recs ≡ ok bs
      → length recs < fuel
      → drain malformed f fuel (reader bs version) ≡ some (traverse malformed f recs)
  drain-encode_all zero version recs bs same h lt = absurd (omega arith)
  drain-encode_all (suc fuel) version [] bs same h lt =
      let empty : [] ≡ bs = cc in
      rw (← empty) (drain_end fuel (reader [] version) ((next-none [] version).1 refl))
  drain-encode_all (suc fuel) version (rec ∷ recs) bs same h lt =
      let (front, hf, h') = >>=-eq-ok (encode rec.version rec.record_type rec.payload) _ h in
      let (back, hb, h'') = >>=-eq-ok (encode_all recs) _ h' in
      let whole : front ++ back ≡ bs = cc in
      let one = next-encode rec.version rec.record_type rec.payload back front hf in
      let ih = drain-encode_all fuel version recs back same.1 hb (omega arith) in
      let later : drain malformed f fuel (reader back rec.version) ≡ _ = rw same.0 ih in
      rw (← whole) (
        subst
          (λ v.
            drain malformed f (suc fuel) (reader (front ++ back) v)
            ≡ some (traverse malformed f (rec ∷ recs)))
          same.0
          (drain_step fuel _ _ rec one
            ∙ ap (push malformed f (f rec)) later
            ∙ push-traverse rec recs))

  -- A record takes a header at least off the input, so one round for each byte is enough.
  pub drain-ne-none :
      (fuel : ℕ) (r : Reader)
      → All IsByte r.rest
      → length r.rest < fuel
      → drain malformed f fuel r ≢ none
  drain-ne-none zero r b lt = absurd (omega arith)
  drain-ne-none (suc fuel) r b lt = elim (Option-cases (next r).0) [
    | inl e ↦ rw (drain_end fuel r e) (λ p. cc)
    | inr (err x, e) ↦ rw (drain_refused fuel r x e) (λ p. cc)
    | inr (ok rec, e) ↦
        let q = (next r).1 in
        let one : next r ≡ (some (ok rec), q) = λ i. (e i, q) in
        let (b', size) = next_takes r q rec b one in
        rw (drain_step fuel r q rec one)
          (push-ne-none (f rec) _ (drain-ne-none fuel q b' (omega arith)))
  ]
