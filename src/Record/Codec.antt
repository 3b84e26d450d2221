-- ===== src/Record/Codec.antt =====
-- crates/record/src/lib.rs, as crates/sync and crates/handshake build on it: values that are each
-- written as one record are read back off the stream of all of them.
use onestein.Base.{
  ℕ, suc, ◌≤◌, ◌<◌, ◌≡◌, refl, ap, ◌∙◌, some, List, [], ◌∷◌, ◌++◌, arith, length, All,
  length-append, Result, ok, ◌>>=◌, >>=-eq-ok,
}
use onestein.Base.Bytes.{Bytes}
use onestein.Record.{Record, Error, encode, reader}
use onestein.Record.Stream.{drain, traverse, encode_all, IsVersion, drain-encode_all}

module _ {ℓ κ} {E : Type ℓ} {A : Type κ} (malformed : Error → E) (read : Record → Result E A)
    (write : A → Result E Bytes) (version : ℕ) where
  abbrev pub write_all : List A → Result E Bytes
  write_all [] = ok []
  write_all (a ∷ as') = do bs ← write a; rest ← write_all as'; ok (bs ++ rest)

  -- The record that a value is written as, and that it is read from.
  pub record WrittenAs (a : A) (bs : Bytes) : Type (ℓ ⊔ κ) where
    pub framed : Record
    pub of_version : framed.version ≡ version
    pub encoded : encode framed.version framed.record_type framed.payload ≡ ok bs
    pub read_back : read framed ≡ ok a

  module _ {μ} (P : A → Type μ)
      (good : (a : A) (bs : Bytes) → P a → write a ≡ ok bs → WrittenAs a bs) where
    All-WrittenAs :
        (values : List A) (bs : Bytes)
        → All P values
        → write_all values ≡ ok bs
        → (recs : List Record) × IsVersion version recs
          × (encode_all recs ≡ ok bs)
          × (traverse malformed read recs ≡ ok values)
          × (length recs ≡ length values)
    All-WrittenAs [] bs all h =
        let none_written : [] ≡ bs = cc in ([], tt, ap ok none_written, refl, refl)
    All-WrittenAs (a ∷ values) bs all h =
        let (front, hf, h') = >>=-eq-ok (write a) _ h in
        let (back, hb, h'') = >>=-eq-ok (write_all values) _ h' in
        let (recs, same, e, t, n) = All-WrittenAs values back all.1 hb in
        let w = good a front all.0 hf in
        let whole : front ++ back ≡ bs = cc in
        (
          w.framed ∷ recs,
          (w.of_version, same),
          rw (w.encoded, e) (ap ok whole),
          rw (w.read_back, t) refl,
          ap suc n,
        )

    -- Values that are each written as one record are read back off the stream of all of them.
    pub drain-write_all :
        (values : List A) (bs : Bytes) (fuel : ℕ)
        → All P values
        → write_all values ≡ ok bs
        → length values < fuel
        → drain malformed read fuel (reader bs version) ≡ some (ok values)
    drain-write_all values bs fuel all h lt =
        let (recs, same, e, t, n) = All-WrittenAs values bs all h in
        drain-encode_all malformed read fuel version recs bs same e (omega (arith, n, lt))
        ∙ ap some t

  -- A written value takes a byte at least.
  pub length-write_all :
      (at_least : (a : A) (bs : Bytes) → write a ≡ ok bs → 1 ≤ length bs) (values : List A)
      (bs : Bytes)
      → write_all values ≡ ok bs
      → length values ≤ length bs
  length-write_all at_least [] bs h = omega arith
  length-write_all at_least (a ∷ values) bs h =
      let (front, hf, h') = >>=-eq-ok (write a) _ h in
      let (back, hb, h'') = >>=-eq-ok (write_all values) _ h' in
      let whole : front ++ back ≡ bs = cc in
      rw (← whole) (
        omega (
          arith,
          length-append front back,
          at_least a front hf,
          length-write_all at_least values back hb,
        ))
