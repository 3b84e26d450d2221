-- ===== src/Identity/Container.antt =====
-- crates/identity/src/certificate.rs: a container opens under the root keys that signed it.
use onestein.Base.{
  ℕ, ◌^◌, ◌<◌, ◌≡◌, refl, ap, true, ◌&&◌, some, [], ◌∷◌, arith, ltb, ltb→lt, ==_iff, length, ok,
  ok_or, >>=-eq-ok, ok_or-inv,
}
use onestein.Base.Bytes.{Bytes, IsArray}
use onestein.Base.Text.{ascii, are_bytes, are_bytes→IsByte}
use onestein.Bdf.{Entries, dict, is_canonical}
use onestein.Bdf.Utf8.{is_utf8, scan}
use onestein.Bdf.Valid.{IsRaw, IsText, HoldValid}
use onestein.Bdf.Write.{to_bytes}
use onestein.Bdf.RoundTrip.{from_bytes_canonical-to_bytes}
use onestein.Crypto.{hash}
use onestein.Identity.{derive, signing, root_ed25519_len, root_mldsa_len, identity_parts}
use onestein.Identity.Schemes.{Schemes, IsSound, ed25519_signature_len, mldsa_signature_len}
use onestein.Identity.Fields.{entries_of, dictionary}
use onestein.Identity.Certificate.{
  RootKeys, container_fields, identity_id, sign_with_label, verify_ed25519, verify_mldsa,
  open_container,
}

-- A literal key is text, which a run of the tests shows.
pub is_text :
    (key : Bytes)
    → (is_utf8 key && (are_bytes key && ltb (length key) (2 ^ 63))) ≡ true
    → IsText key
is_text key h =
    let (utf8, bytes, short) : (is_utf8 key ≡ true)
        × (are_bytes key ≡ true)
        × (ltb (length key) (2 ^ 63) ≡ true) =
      ground arith in
    (utf8, are_bytes→IsByte key bytes, ltb→lt _ _ short)

-- A canonical dictionary is read back.
pub dictionary-to_bytes :
    (fields : Entries)
    → HoldValid 1 fields
    → is_canonical (dict fields) ≡ true
    → dictionary (to_bytes (dict fields)) ≡ ok fields
unfolding dictionary
dictionary-to_bytes fields valid canon =
    ap entries_of (from_bytes_canonical-to_bytes (dict fields) (omega arith, valid) canon)

container_fields-HoldValid :
    (encoded ed25519 mldsa : Bytes)
    → IsRaw encoded
    → IsRaw ed25519
    → IsRaw mldsa
    → HoldValid 1 (container_fields encoded ed25519 mldsa)
unfolding is_utf8 scan
container_fields-HoldValid encoded ed25519 mldsa c e p =
    (is_text (ascii "c") refl, c, (is_text (ascii "e") refl, e, (is_text (ascii "p") refl, p, tt)))

container_fields-canonical :
    (encoded ed25519 mldsa : Bytes)
    → is_canonical (dict (container_fields encoded ed25519 mldsa)) ≡ true
unfolding is_canonical
container_fields-canonical encoded ed25519 mldsa = refl

pub IsArray→IsRaw : (n : ℕ) (bs : Bytes) → n < 2 ^ 63 → IsArray n bs → IsRaw bs
IsArray→IsRaw n bs small h = (h.1, omega (arith, h.0))

module _ (blake2b : Bytes → Bytes) (schemes : Schemes) (sound : IsSound schemes)
    (keys : RootKeys) where
  pub identity_id-derived :
      identity_id blake2b schemes keys
      ≡ ok (
          hash blake2b
            (identity_parts (schemes.ed_public keys.ed25519) (schemes.ml_public keys.mldsa)))
  unfolding identity_id derive
  identity_id-derived =
      rw
        (
          (==_iff _ root_ed25519_len).1 (sound.ed_public-IsArray keys.ed25519).0,
          (==_iff _ root_mldsa_len).1 (sound.ml_public-IsArray keys.mldsa).0,
        )
        refl

  verify_ed25519-ed_sign :
      (text : Bytes)
      → verify_ed25519 blake2b schemes
          (schemes.ed_public keys.ed25519)
          text
          (schemes.ed_sign keys.ed25519 text)
        ≡ ok tt
  unfolding verify_ed25519
  verify_ed25519-ed_sign text =
      rw
        (
          (==_iff _ root_ed25519_len).1 (sound.ed_public-IsArray keys.ed25519).0,
          sound.ed_valid keys.ed25519,
          (==_iff _ ed25519_signature_len).1 (sound.ed_sign-IsArray keys.ed25519 text).0,
          sound.ed_verifies-ed_sign keys.ed25519 text,
        )
        refl

  verify_mldsa-ml_sign :
      (text signature : Bytes)
      → schemes.ml_sign keys.mldsa text ≡ some signature
      → verify_mldsa blake2b schemes (schemes.ml_public keys.mldsa) text signature ≡ ok tt
  unfolding verify_mldsa
  verify_mldsa-ml_sign text signature h =
      rw
        (
          (==_iff _ root_mldsa_len).1 (sound.ml_public-IsArray keys.mldsa).0,
          (==_iff _ mldsa_signature_len).1 (sound.ml_sign-IsArray keys.mldsa text signature h).0,
          sound.ml_decodes-ml_sign keys.mldsa text signature h,
          sound.ml_verifies-ml_sign keys.mldsa text signature h,
        )
        refl

  -- A container opens, as what was signed, under the keys that signed it.
  pub open_container-sign_with_label :
      (label encoded container id : Bytes) (body : Entries)
      → IsRaw encoded
      → dictionary encoded ≡ ok body
      → identity_id blake2b schemes keys ≡ ok id
      → sign_with_label blake2b schemes keys label encoded ≡ ok container
      → open_container blake2b schemes container
          (schemes.ed_public keys.ed25519)
          (schemes.ml_public keys.mldsa)
          label
        ≡ ok (body, id)
  unfolding sign_with_label open_container identity_id
  open_container-sign_with_label label encoded container id body valid parsed derived h =
      let text = hash blake2b (label ∷ encoded ∷ []) in
      let (mldsa, signed, h') = >>=-eq-ok (ok_or (schemes.ml_sign keys.mldsa text) signing) _ h in
      let ed25519 = schemes.ed_sign keys.ed25519 text in
      let given = ok_or-inv (schemes.ml_sign keys.mldsa text) signing signed in
      let wire : to_bytes (dict (container_fields encoded ed25519 mldsa)) ≡ container = cc in
      let opened =
        dictionary-to_bytes (container_fields encoded ed25519 mldsa)
          (container_fields-HoldValid encoded ed25519 mldsa valid
            (IsArray→IsRaw 64 ed25519 (omega arith) (sound.ed_sign-IsArray keys.ed25519 text))
            (IsArray→IsRaw 3309 mldsa (omega arith)
              (sound.ml_sign-IsArray keys.mldsa text mldsa given)))
          (container_fields-canonical encoded ed25519 mldsa) in
      rw (← wire) (
        rw
          (
            derived,
            opened,
            verify_ed25519-ed_sign text,
            verify_mldsa-ml_sign text mldsa given,
            parsed,
          )
          refl)
