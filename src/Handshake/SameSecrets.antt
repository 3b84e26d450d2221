-- ===== src/Handshake/SameSecrets.antt =====
-- crates/handshake/src/lib.rs: the two sides get the same secrets.
use onestein.Base.{◌≡◌, refl, true, length, ok}
use onestein.Base.Bytes.{fill-whole, fill, Bytes}
use onestein.Crypto.{hash_len}
use onestein.Handshake.{
  Agreement, KeyPair, x25519_public, kem_encapsulation_key, agree, decapsulate, encapsulate,
  kem_encapsulation_key_len, kem_ciphertext_len,
}

-- What is documented of the schemes: the shared secret does not depend on the side, the sizes, and that
-- decapsulation gives the secret that was encapsulated to the key.
pub record IsAgreement (schemes : Agreement) : Type 0 where
  pub dh_commutes :
      (a b : Bytes)
      → schemes.diffie_hellman a (schemes.x25519_public b)
        ≡ schemes.diffie_hellman b (schemes.x25519_public a)
  pub length-kem_public :
      (seed : Bytes) → length (schemes.kem_public seed) ≡ kem_encapsulation_key_len
  pub kem_valid : (seed : Bytes) → schemes.kem_valid_key (schemes.kem_public seed) ≡ true
  pub length-ciphertext :
      (key randomness : Bytes)
      → length (schemes.kem_encapsulate key randomness).0 ≡ kem_ciphertext_len
  pub decapsulate-encapsulate :
      (seed randomness : Bytes)
      → schemes.kem_decapsulate seed
          (schemes.kem_encapsulate (schemes.kem_public seed) randomness).0
        ≡ (schemes.kem_encapsulate (schemes.kem_public seed) randomness).1

module _ (schemes : Agreement) (sound : IsAgreement schemes) where
  agree-agree :
      (a b : KeyPair)
      → agree schemes a (x25519_public schemes b) ≡ agree schemes b (x25519_public schemes a)
  unfolding agree x25519_public
  agree-agree a b = rw (sound.dh_commutes a.x25519 b.x25519) refl

  encapsulate_ok :
      (b : KeyPair) (randomness : Bytes)
      → (sealed : Bytes × Bytes) × (encapsulate schemes (kem_encapsulation_key schemes b) randomness
          ≡ ok sealed)
        × (decapsulate schemes b sealed.0 ≡ sealed.1)
  unfolding encapsulate decapsulate kem_encapsulation_key
  encapsulate_ok b randomness =
      let key =
        fill-whole (schemes.kem_public b.kem) kem_encapsulation_key_len
          (sound.length-kem_public b.kem) in
      let sealed = schemes.kem_encapsulate (schemes.kem_public b.kem) randomness in
      let ciphertext =
        fill-whole sealed.0 kem_ciphertext_len
          (sound.length-ciphertext (schemes.kem_public b.kem) randomness) in
      (
        (fill kem_ciphertext_len sealed.0, fill hash_len sealed.1),
        rw key (rw (sound.kem_valid b.kem) refl),
        rw ciphertext (rw (sound.decapsulate-encapsulate b.kem randomness) refl),
      )

  -- Whatever the two key pairs, both sides of the X25519 exchange get one answer, a shared secret or the
  -- refusal of a degenerate one; and to each published ML-KEM key a secret can be encapsulated, which its
  -- owner decapsulates.
  pub same_secrets_on_both_sides :
      (a b : KeyPair) (randomness : Bytes)
      → (agree schemes a (x25519_public schemes b) ≡ agree schemes b (x25519_public schemes a))
        × ((sealed : Bytes × Bytes) × (encapsulate schemes
                (kem_encapsulation_key schemes b)
                randomness
              ≡ ok sealed)
            × (decapsulate schemes b sealed.0 ≡ sealed.1))
  same_secrets_on_both_sides a b randomness = (agree-agree a b, encapsulate_ok b randomness)
