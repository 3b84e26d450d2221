-- ===== src/Identity/Schemes.antt =====
-- The two signature schemes of crates/identity, Ed25519 and ML-DSA-65, are parameters.
use onestein.Base.{ℕ, ◌≡◌, Bool, true, Option, some}
use onestein.Base.Bytes.{Bytes, IsArray}
use onestein.Identity.{root_ed25519_len, root_mldsa_len}

abbrev pub ed25519_signature_len : ℕ
ed25519_signature_len = 64

abbrev pub mldsa_signature_len : ℕ
mldsa_signature_len = 3309

-- A secret key is its seed. Verification takes the key, the text and the signature.
pub record Schemes : Type 0 where
  pub ed_public : Bytes → Bytes
  pub ed_sign : Bytes → Bytes → Bytes
  pub ed_valid_key : Bytes → Bool
  pub ed_verifies : Bytes → Bytes → Bytes → Bool
  pub ml_public : Bytes → Bytes
  pub ml_sign : Bytes → Bytes → Option Bytes
  pub ml_decodes : Bytes → Bool
  pub ml_verifies : Bytes → Bytes → Bytes → Bool

-- What is documented of the schemes: the sizes, and that a signature verifies under its own key.
pub record IsSound (schemes : Schemes) : Type 0 where
  pub ed_public-IsArray : (seed : Bytes) → IsArray root_ed25519_len (schemes.ed_public seed)
  pub ed_valid : (seed : Bytes) → schemes.ed_valid_key (schemes.ed_public seed) ≡ true
  pub ed_sign-IsArray :
      (seed text : Bytes) → IsArray ed25519_signature_len (schemes.ed_sign seed text)
  pub ed_verifies-ed_sign :
      (seed text : Bytes)
      → schemes.ed_verifies (schemes.ed_public seed) text (schemes.ed_sign seed text) ≡ true
  pub ml_public-IsArray : (seed : Bytes) → IsArray root_mldsa_len (schemes.ml_public seed)
  pub ml_sign-IsArray :
      (seed text signature : Bytes)
      → schemes.ml_sign seed text ≡ some signature
      → IsArray mldsa_signature_len signature
  pub ml_decodes-ml_sign :
      (seed text signature : Bytes)
      → schemes.ml_sign seed text ≡ some signature
      → schemes.ml_decodes signature ≡ true
  pub ml_verifies-ml_sign :
      (seed text signature : Bytes)
      → schemes.ml_sign seed text ≡ some signature
      → schemes.ml_verifies (schemes.ml_public seed) text signature ≡ true
