-- ===== src/Identity/Revocation/Labels.antt =====
-- crates/identity: no text is signed both as a certificate and as a revocation.
use onestein.Base.{◌≡◌, refl, ap, ◌≢◌, inl, inr, [], ◌∷◌, arith, length, get_or, ok}
use onestein.Base.Bytes.{Bytes}
use onestein.Crypto.{hash}
use onestein.Crypto.Framing.{IsShort}
use onestein.Crypto.Collisions.{Collision, hash_binds}
use onestein.Identity.Certificate.{
  DeviceCertificate, certificate_label, revocation_label, encode_certificate, certificate_to_sign,
}
use onestein.Identity.Revocation.{Revocation, encode_revocation, revocation_to_sign}

labels_differ : certificate_label ≢ revocation_label
labels_differ p =
    let sizes : length certificate_label ≡ length revocation_label = ap length p in omega arith

certificate_text :
    (blake2b : Bytes → Bytes) (certificate : DeviceCertificate) (c : Bytes)
    → encode_certificate certificate ≡ ok c
    → certificate_to_sign blake2b certificate ≡ ok (hash blake2b (certificate_label ∷ c ∷ []))
unfolding certificate_to_sign
certificate_text blake2b certificate c h = rw h refl

revocation_text :
    (blake2b : Bytes → Bytes) (revocation : Revocation) (r : Bytes)
    → encode_revocation revocation ≡ ok r
    → revocation_to_sign blake2b revocation ≡ ok (hash blake2b (revocation_label ∷ r ∷ []))
unfolding revocation_to_sign
revocation_text blake2b revocation r h = rw h refl

-- Whatever they hold, a certificate and a revocation that are short enough to be hashed are never
-- signed as one text, unless two inputs with one hash are at hand.
pub to_sign_separate :
    (blake2b : Bytes → Bytes) (certificate : DeviceCertificate) (revocation : Revocation)
    (c r text : Bytes)
    → encode_certificate certificate ≡ ok c
    → encode_revocation revocation ≡ ok r
    → IsShort c
    → IsShort r
    → certificate_to_sign blake2b certificate ≡ ok text
    → revocation_to_sign blake2b revocation ≡ ok text
    → Collision blake2b
to_sign_separate blake2b certificate revocation c r text hc hr sc sr ec er =
    let same : hash blake2b (certificate_label ∷ c ∷ [])
        ≡ hash blake2b (revocation_label ∷ r ∷ []) =
      cc (
        certificate_text blake2b certificate c hc,
        revocation_text blake2b revocation r hr,
        ec,
        er,
      ) in
    elim (hash_binds blake2b (certificate_label ∷ c ∷ []) (revocation_label ∷ r ∷ [])
      (omega arith, (sc, tt)) (omega arith, (sr, tt)) same) [
        | inl p ↦
            let labels : certificate_label ≡ revocation_label = ap (λ l. get_or l 0 []) p in
            absurd (labels_differ labels)
        | inr c ↦ c
      ]
