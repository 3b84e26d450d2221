-- ===== src/Identity/Recovery.antt =====
-- crates/identity/src/recovery.rs: what one seed yields. Keyed BLAKE2b is a parameter, and so is the public
-- key of an X25519 secret.
use onestein.Base.{[], ◌∷◌, Result}
use onestein.Base.Bytes.{Bytes}
use onestein.Base.Text.{ascii}
use onestein.Crypto.{kdf}
use onestein.Identity.{Error}
use onestein.Identity.Schemes.{Schemes}
use onestein.Identity.Certificate.{RootKeys, identity_id}

abbrev pub root_ed25519_label : Bytes
root_ed25519_label = ascii "org.onestein.identity/ROOT_ED25519"

abbrev pub root_mldsa_label : Bytes
root_mldsa_label = ascii "org.onestein.identity/ROOT_MLDSA"

abbrev pub contact_key_label : Bytes
contact_key_label = ascii "org.onestein.identity/CONTACT_KEY"

module _ (keyed : Bytes → Bytes → Bytes) where
  unfoldable pub root_ed25519_seed : Bytes → Bytes
  root_ed25519_seed seed = kdf keyed seed (root_ed25519_label ∷ [])

  unfoldable pub root_mldsa_seed : Bytes → Bytes
  root_mldsa_seed seed = kdf keyed seed (root_mldsa_label ∷ [])

  unfoldable pub contact_secret : Bytes → Bytes
  contact_secret seed = kdf keyed seed (contact_key_label ∷ [])

  unfoldable pub contact_public : (Bytes → Bytes) → Bytes → Bytes
  contact_public x25519_public seed = x25519_public (contact_secret seed)

  unfoldable pub root_keys : Bytes → RootKeys
  root_keys seed = record { ed25519 = root_ed25519_seed seed; mldsa = root_mldsa_seed seed }

  unfoldable pub seed_identity_id : (Bytes → Bytes) → Schemes → Bytes → Result Error Bytes
  seed_identity_id blake2b schemes seed = identity_id blake2b schemes (root_keys seed)
