-- ===== src/Identity/Acceptance.antt =====
-- crates/identity/src/certificate.rs: what a contact knows of a container that it accepted.
use onestein.Base.{
  ℕ, ◌≡◌, ap, ◌∙◌, true, [], ◌∷◌, arith, ◌==◌, bytes_eq, bytes_eq→eq, Result, ok, guard, >>=-eq-ok,
  guard-inv,
}
use onestein.Base.Bytes.{Bytes}
use onestein.Base.Text.{ascii}
use onestein.Bdf.{Entries}
use onestein.Crypto.{hash, hash_len}
use onestein.Identity.{
  Error, malformed, wrong_identity, bad_signature, identity_version, derive, root_ed25519_len,
}
use onestein.Identity.Schemes.{Schemes, ed25519_signature_len}
use onestein.Identity.Fields.{dictionary, raw_field, integer_field, exact, to_u64}
use onestein.Identity.Certificate.{
  DeviceCertificate, certificate_label, verify_ed25519, verify_mldsa, open_container,
  certificate_of, verify_certificate, x25519_len, kem_encapsulation_key_len,
}

-- Both signatures are good, by the schemes' own word, on the hash of the label and what was signed.
pub record IsSigned (blake2b : Bytes → Bytes) (schemes : Schemes)
    (root_ed25519 root_mldsa label signed : Bytes) : Type 0 where
  pub ed25519 : Bytes
  pub mldsa : Bytes
  pub ed_good : schemes.ed_verifies root_ed25519 (hash blake2b (label ∷ signed ∷ [])) ed25519 ≡ true
  pub ml_good : schemes.ml_verifies root_mldsa (hash blake2b (label ∷ signed ∷ [])) mldsa ≡ true

exact-inv : (n : ℕ) (bs out : Bytes) → exact n bs ≡ ok out → bs ≡ out
exact-inv n bs out h = ground arith

abbrev paired : Entries → Bytes → Result Error (Entries × Bytes)
paired x a = ok (x, a)

outcome : (x y : Entries) (a b : Bytes) → paired x a ≡ paired y b → (x ≡ y) × (a ≡ b)
outcome x y a b h = (cc, cc)

abbrev built : Bytes → Bytes → Bytes → Bytes → ℕ → ℕ → Result Error DeviceCertificate
built id device dh kem epoch from = ok (record {
  identity_id = id;
  device_signing_pub = device;
  dh_static_pub = dh;
  kem_static_pub = kem;
  epoch = epoch;
  from_ms = from;
})

parts :
    (id device dh kem : Bytes) (epoch from : ℕ) (certificate : DeviceCertificate)
    → built id device dh kem epoch from ≡ ok certificate
    → (id ≡ certificate.identity_id)
      × (device ≡ certificate.device_signing_pub)
      × (epoch ≡ certificate.epoch)
parts id device dh kem epoch from certificate h = (cc, cc, cc)

to_u64-inv : (pattern number : ℕ) → to_u64 pattern ≡ ok number → pattern ≡ number
to_u64-inv pattern number h = ground arith

certificate_of_sound :
    (body : Entries) (id : Bytes) (certificate : DeviceCertificate)
    → certificate_of body id ≡ ok certificate
    → (id ≡ certificate.identity_id)
      × (raw_field body (ascii "id") ≡ ok certificate.identity_id)
      × (raw_field body (ascii "dev") ≡ ok certificate.device_signing_pub)
      × (integer_field body (ascii "epoch") ≡ ok certificate.epoch)
unfolding certificate_of
certificate_of_sound body id certificate h =
    let (v, hv, h1) = >>=-eq-ok (integer_field body (ascii "v")) _ h in
    let (_, _, h2) = >>=-eq-ok (guard (v == identity_version) malformed) _ h1 in
    let (given, hid, h3) = >>=-eq-ok (raw_field body (ascii "id")) _ h2 in
    let (_, own, h4) = >>=-eq-ok (guard (bytes_eq given id) wrong_identity) _ h3 in
    let (epoch, he, h5) = >>=-eq-ok (integer_field body (ascii "epoch")) _ h4 in
    let (from, _, h6) = >>=-eq-ok (integer_field body (ascii "from")) _ h5 in
    let (dev, hd, h7) = >>=-eq-ok (raw_field body (ascii "dev")) _ h6 in
    let (device, sized, h8) = >>=-eq-ok (exact hash_len dev) _ h7 in
    let (dh, _, h9) = >>=-eq-ok (raw_field body (ascii "dh")) _ h8 in
    let (dh', _, h10) = >>=-eq-ok (exact x25519_len dh) _ h9 in
    let (kem, _, h11) = >>=-eq-ok (raw_field body (ascii "kem")) _ h10 in
    let (kem', _, h12) = >>=-eq-ok (exact kem_encapsulation_key_len kem) _ h11 in
    let (epoch', in_range, h13) = >>=-eq-ok (to_u64 epoch) _ h12 in
    let (from', _, h14) = >>=-eq-ok (to_u64 from) _ h13 in
    let same = bytes_eq→eq given id (guard-inv _ wrong_identity own) in
    let (id_eq, dev_eq, epoch_eq) = parts id device dh' kem' epoch' from' certificate h14 in
    let number = to_u64-inv epoch epoch' in_range in
    (
      id_eq,
      hid ∙ ap ok (same ∙ id_eq),
      hd ∙ ap ok (exact-inv hash_len dev device sized ∙ dev_eq),
      he ∙ ap ok (number ∙ epoch_eq),
    )

-- The certificate says what was signed, and was signed for the identity of the root keys.
pub record IsAccepted (blake2b : Bytes → Bytes) (schemes : Schemes)
    (root_ed25519 root_mldsa : Bytes) (certificate : DeviceCertificate) : Type 0 where
  pub signed : Bytes
  pub body : Entries
  pub by_both : IsSigned blake2b schemes root_ed25519 root_mldsa certificate_label signed
  pub of_roots : derive blake2b root_ed25519 root_mldsa ≡ ok certificate.identity_id
  pub parsed : dictionary signed ≡ ok body
  pub names_identity : raw_field body (ascii "id") ≡ ok certificate.identity_id
  pub names_device : raw_field body (ascii "dev") ≡ ok certificate.device_signing_pub
  pub names_epoch : integer_field body (ascii "epoch") ≡ ok certificate.epoch

module _ (blake2b : Bytes → Bytes) (schemes : Schemes) where
  verify_ed25519-ok :
      (public text signature : Bytes)
      → verify_ed25519 blake2b schemes public text signature ≡ ok tt
      → schemes.ed_verifies public text signature ≡ true
  unfolding verify_ed25519
  verify_ed25519-ok public text signature h =
      let (key, hk, h1) = >>=-eq-ok (exact root_ed25519_len public) _ h in
      let (_, _, h2) = >>=-eq-ok (guard (schemes.ed_valid_key key) bad_signature) _ h1 in
      let (s, hs, h3) = >>=-eq-ok (exact ed25519_signature_len signature) _ h2 in
      let good = guard-inv (schemes.ed_verifies key text s) bad_signature h3 in
      rw
        (
          ← exact-inv root_ed25519_len public key hk,
          ← exact-inv ed25519_signature_len signature s hs,
        )
        at good

  verify_mldsa-ok :
      (public text signature : Bytes)
      → verify_mldsa blake2b schemes public text signature ≡ ok tt
      → schemes.ml_verifies public text signature ≡ true
  unfolding verify_mldsa
  verify_mldsa-ok public text signature h = ground arith

  open_container_sound :
      (container root_ed25519 root_mldsa label : Bytes) (body : Entries) (id : Bytes)
      → open_container blake2b schemes container root_ed25519 root_mldsa label ≡ ok (body, id)
      → (signed : Bytes) × IsSigned blake2b schemes root_ed25519 root_mldsa label signed
        × (derive blake2b root_ed25519 root_mldsa ≡ ok id)
        × (dictionary signed ≡ ok body)
  unfolding open_container
  open_container_sound container root_ed25519 root_mldsa label body id h =
      let (id', hi, h1) = >>=-eq-ok (derive blake2b root_ed25519 root_mldsa) _ h in
      let (fields, hf, h2) = >>=-eq-ok (dictionary container) _ h1 in
      let (signed, hs, h3) = >>=-eq-ok (raw_field fields (ascii "c")) _ h2 in
      let text = hash blake2b (label ∷ signed ∷ []) in
      let (e, he, h4) = >>=-eq-ok (raw_field fields (ascii "e")) _ h3 in
      let (_, ve, h5) = >>=-eq-ok (verify_ed25519 blake2b schemes root_ed25519 text e) _ h4 in
      let (p, hp, h6) = >>=-eq-ok (raw_field fields (ascii "p")) _ h5 in
      let (_, vp, h7) = >>=-eq-ok (verify_mldsa blake2b schemes root_mldsa text p) _ h6 in
      let (body', hb, h8) = >>=-eq-ok (dictionary signed) _ h7 in
      let same : (body' ≡ body) × (id' ≡ id) = outcome body' body id' id h8 in
      (
        signed,
        record {
          ed25519 = e;
          mldsa = p;
          ed_good = verify_ed25519-ok root_ed25519 text e ve;
          ml_good = verify_mldsa-ok root_mldsa text p vp;
        },
        hi ∙ ap ok same.1,
        hb ∙ ap ok same.0,
      )

  -- What a contact accepts was signed under both of the root keys that it holds, and says what the
  -- certificate says.
  pub verify_certificate_sound :
      (container root_ed25519 root_mldsa : Bytes) (certificate : DeviceCertificate)
      → verify_certificate blake2b schemes container root_ed25519 root_mldsa ≡ ok certificate
      → IsAccepted blake2b schemes root_ed25519 root_mldsa certificate
  unfolding verify_certificate
  verify_certificate_sound container root_ed25519 root_mldsa certificate h =
      let ((body, id), ho, h') =
        >>=-eq-ok
          (open_container blake2b schemes container root_ed25519 root_mldsa certificate_label) _
          h in
      let (signed, by_both, of_roots, parsed) =
        open_container_sound container root_ed25519 root_mldsa certificate_label body id ho in
      let (own, names_identity, names_device, names_epoch) =
        certificate_of_sound body id certificate h' in
      record {
        signed = signed;
        body = body;
        by_both = by_both;
        of_roots = of_roots ∙ ap ok own;
        parsed = parsed;
        names_identity = names_identity;
        names_device = names_device;
        names_epoch = names_epoch;
      }
