-- ===== src/Contact/Bundles.antt =====
-- crates/contact/src/lib.rs: a bundle is read as it was written, and a commitment is to one bundle.
use onestein.Base.{
  ◌≡◌, refl, sym, ap, ◌∙◌, ◌⊎◌, inl, inr, true, [], ◌∷◌, arith, ==_iff, get_or, bytes_eq,
  bytes_eq→eq, ok, ◌>>=◌, >>=-eq-ok, guard-inv,
}
use onestein.Base.Bytes.{Bytes, IsArray}
use onestein.Base.Text.{ascii}
use onestein.Bdf.{dict, is_canonical}
use onestein.Bdf.Extent.{length-to_bytes}
use onestein.Bdf.RoundTrip.{from_bytes_canonical-to_bytes}
use onestein.Bdf.Utf8.{is_utf8, scan}
use onestein.Bdf.Valid.{HoldValid}
use onestein.Bdf.Write.{to_bytes}
use onestein.Crypto.{hash}
use onestein.Crypto.Framing.{IsShort}
use onestein.Crypto.Collisions.{Collision, hash_binds}
use onestein.Identity.Container.{is_text, IsArray→IsRaw}
use onestein.Contact.{
  ContactBundle, bundle_fields, bundle_entries, bundle_of, encode_bundle, decode_bundle, commitment,
  check, bundle_label, contact_version, commitment_mismatch, root_ed25519_len, root_mldsa_len,
  contact_key_len,
}

-- The arrays of a bundle have the lengths of their types, and it has an ML-DSA key.
pub record IsBundle (bundle : ContactBundle) : Type 0 where
  pub ed_array : IsArray root_ed25519_len bundle.root_ed25519
  pub mldsa_array : IsArray root_mldsa_len bundle.root_mldsa
  pub key_array : IsArray contact_key_len bundle.contact_key

module _ (bundle : ContactBundle) (good : IsBundle bundle) where
  fields-HoldValid : HoldValid 1 (bundle_fields bundle)
  unfolding is_utf8 scan
  fields-HoldValid = (
    is_text (ascii "ed") refl,
    IsArray→IsRaw 32 _ (omega arith) good.ed_array,
    (
      is_text (ascii "pq") refl,
      IsArray→IsRaw 1952 _ (omega arith) good.mldsa_array,
      (
        is_text (ascii "v") refl,
        omega arith,
        (is_text (ascii "x") refl, IsArray→IsRaw 32 _ (omega arith) good.key_array, tt),
      ),
    ),
  )

  fields-canonical : is_canonical (dict (bundle_fields bundle)) ≡ true
  unfolding is_canonical
  fields-canonical = refl

  encode_bundle-ok : encode_bundle bundle ≡ ok (to_bytes (dict (bundle_fields bundle)))
  unfolding encode_bundle
  encode_bundle-ok = rw ((==_iff _ 1952).1 good.mldsa_array.0) refl

  decode_bundle-to_bytes : decode_bundle (to_bytes (dict (bundle_fields bundle))) ≡ ok bundle
  unfolding decode_bundle
  decode_bundle-to_bytes =
      ap (λ r. bundle_entries r >>= bundle_of)
        (from_bytes_canonical-to_bytes (dict (bundle_fields bundle)) (omega arith, fields-HoldValid)
          fields-canonical)
      ∙ rw
          (
            (==_iff _ 1952).1 good.mldsa_array.0,
            (==_iff _ 32).1 good.ed_array.0,
            (==_iff _ 32).1 good.key_array.0,
          )
          refl

  encoded-IsShort : IsShort (to_bytes (dict (bundle_fields bundle)))
  encoded-IsShort = omega (
    arith,
    length-to_bytes (dict (bundle_fields bundle)),
    good.ed_array.0,
    good.mldsa_array.0,
    good.key_array.0,
  )

  check-ok :
      (blake2b : Bytes → Bytes) (expected : Bytes)
      → check blake2b bundle expected ≡ ok tt
      → hash blake2b
          (bundle_label ∷ (contact_version ∷ []) ∷ to_bytes (dict (bundle_fields bundle)) ∷ [])
        ≡ expected
  unfolding check commitment
  check-ok blake2b expected h =
      let (own, made, h') = >>=-eq-ok (commitment blake2b bundle) _ h in
      let same =
        bytes_eq→eq own expected (guard-inv (bytes_eq own expected) commitment_mismatch h') in
      let (encoded, he, h'') = >>=-eq-ok (encode_bundle bundle) _ made in
      let wire : encoded ≡ to_bytes (dict (bundle_fields bundle)) = cc (he, encode_bundle-ok) in
      ap (λ e. hash blake2b (bundle_label ∷ (contact_version ∷ []) ∷ e ∷ [])) (sym wire) ∙ cc

-- Two bundles that pass the check of one commitment are the same, or two inputs of the hash function with
-- one hash are at hand: nobody else's keys fit the link.
pub check_binds :
    (blake2b : Bytes → Bytes) (x y : ContactBundle) (expected : Bytes)
    → IsBundle x
    → IsBundle y
    → check blake2b x expected ≡ ok tt
    → check blake2b y expected ≡ ok tt
    → (x ≡ y) ⊎ Collision blake2b
check_binds blake2b x y expected hx hy cx cy =
    let bx = to_bytes (dict (bundle_fields x)) in
    let by = to_bytes (dict (bundle_fields y)) in
    let one_hash = check-ok x hx blake2b expected cx ∙ sym (check-ok y hy blake2b expected cy) in
    elim (hash_binds blake2b (bundle_label ∷ (contact_version ∷ []) ∷ bx ∷ [])
      (bundle_label ∷ (contact_version ∷ []) ∷ by ∷ [])
      (omega arith, (omega arith, (encoded-IsShort x hx, tt)))
      (omega arith, (omega arith, (encoded-IsShort y hy, tt))) one_hash) [
        | inl same ↦
            let wires : bx ≡ by = ap (λ l. get_or l 2 []) same in
            let both : ok x ≡ ok y =
              sym (decode_bundle-to_bytes x hx)
              ∙ ap decode_bundle wires
              ∙ decode_bundle-to_bytes y hy in
            inl cc
        | inr c ↦ inr c
      ]
