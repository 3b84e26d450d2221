-- ===== src/Handshake/Binding.antt =====
-- crates/handshake/src/lib.rs: what the root key and the confirmations bind.
use onestein.Base.{ℕ, ◌≡◌, ◌⊎◌, inl, inr, List, [], arith, length, get_or, All}
use onestein.Base.Bytes.{Bytes}
use onestein.Crypto.{hash_len}
use onestein.Crypto.Framing.{IsShort}
use onestein.Crypto.Collisions.{Collision, hash_binds}
use onestein.Handshake.{
  Secrets, Transcript, root_key_parts, root_key, kem_encapsulation_key_len, kem_ciphertext_len,
}

-- The arrays have the lengths of their types.
pub record IsSecrets (secrets : Secrets) : Type 0 where
  pub dh_ephemeral_array : length secrets.dh_ephemeral ≡ hash_len
  pub dh_ephemeral_static_array : length secrets.dh_ephemeral_static ≡ hash_len
  pub dh_static_ephemeral_array : length secrets.dh_static_ephemeral ≡ hash_len
  pub kem_ephemeral_a_array : length secrets.kem_ephemeral_a ≡ hash_len
  pub kem_ephemeral_b_array : length secrets.kem_ephemeral_b ≡ hash_len
  pub kem_static_a_array : length secrets.kem_static_a ≡ hash_len
  pub kem_static_b_array : length secrets.kem_static_b ≡ hash_len

pub record IsTranscript (transcript : Transcript) : Type 0 where
  pub identity_id_a_array : length transcript.identity_id_a ≡ hash_len
  pub identity_id_b_array : length transcript.identity_id_b ≡ hash_len
  pub device_signing_pub_a_array : length transcript.device_signing_pub_a ≡ hash_len
  pub device_signing_pub_b_array : length transcript.device_signing_pub_b ≡ hash_len
  pub dh_static_pub_a_array : length transcript.dh_static_pub_a ≡ hash_len
  pub dh_static_pub_b_array : length transcript.dh_static_pub_b ≡ hash_len
  pub kem_static_pub_a_array : length transcript.kem_static_pub_a ≡ kem_encapsulation_key_len
  pub kem_static_pub_b_array : length transcript.kem_static_pub_b ≡ kem_encapsulation_key_len
  pub dh_ephemeral_pub_a_array : length transcript.dh_ephemeral_pub_a ≡ hash_len
  pub dh_ephemeral_pub_b_array : length transcript.dh_ephemeral_pub_b ≡ hash_len
  pub kem_ephemeral_pub_a_array : length transcript.kem_ephemeral_pub_a ≡ kem_encapsulation_key_len
  pub kem_ephemeral_pub_b_array : length transcript.kem_ephemeral_pub_b ≡ kem_encapsulation_key_len
  pub ct_ephemeral_a_array : length transcript.ct_ephemeral_a ≡ kem_ciphertext_len
  pub ct_ephemeral_b_array : length transcript.ct_ephemeral_b ≡ kem_ciphertext_len
  pub ct_static_a_array : length transcript.ct_static_a ≡ kem_ciphertext_len
  pub ct_static_b_array : length transcript.ct_static_b ≡ kem_ciphertext_len

root_key_parts-IsShort :
    (secrets : Secrets) (transcript : Transcript)
    → IsSecrets secrets
    → IsTranscript transcript
    → All IsShort (root_key_parts secrets transcript)
root_key_parts-IsShort secrets transcript s t = (
  omega arith,
  (
    omega arith,
    (
      omega arith,
      (
        omega arith,
        (
          omega arith,
          (
            omega (arith, s.dh_ephemeral_array),
            (
              omega (arith, s.dh_ephemeral_static_array),
              (
                omega (arith, s.dh_static_ephemeral_array),
                (
                  omega (arith, s.kem_ephemeral_a_array),
                  (
                    omega (arith, s.kem_ephemeral_b_array),
                    (
                      omega (arith, s.kem_static_a_array),
                      (
                        omega (arith, s.kem_static_b_array),
                        (
                          omega (arith, t.identity_id_a_array),
                          (
                            omega (arith, t.identity_id_b_array),
                            (
                              omega (arith, t.device_signing_pub_a_array),
                              (
                                omega (arith, t.device_signing_pub_b_array),
                                (
                                  omega (arith, t.dh_static_pub_a_array),
                                  (
                                    omega (arith, t.dh_static_pub_b_array),
                                    (
                                      omega (arith, t.kem_static_pub_a_array),
                                      (
                                        omega (arith, t.kem_static_pub_b_array),
                                        (
                                          omega (arith, t.dh_ephemeral_pub_a_array),
                                          (
                                            omega (arith, t.dh_ephemeral_pub_b_array),
                                            (
                                              omega (arith, t.kem_ephemeral_pub_a_array),
                                              (
                                                omega (arith, t.kem_ephemeral_pub_b_array),
                                                (
                                                  omega (arith, t.ct_ephemeral_a_array),
                                                  (
                                                    omega (arith, t.ct_ephemeral_b_array),
                                                    (
                                                      omega (arith, t.ct_static_a_array),
                                                      (omega (arith, t.ct_static_b_array), tt),
                                                    ),
                                                  ),
                                                ),
                                              ),
                                            ),
                                          ),
                                        ),
                                      ),
                                    ),
                                  ),
                                ),
                              ),
                            ),
                          ),
                        ),
                      ),
                    ),
                  ),
                ),
              ),
            ),
          ),
        ),
      ),
    ),
  ),
)

-- What was hashed is read off the parts.
module _ (s s' : Secrets) (t t' : Transcript)
    (same : root_key_parts s t ≡ root_key_parts s' t') where
  part : ℕ → List Bytes → Bytes
  part n parts = get_or parts n []

  same_secrets : s ≡ s'
  unfolding part
  same_secrets = λ i. record {
    dh_ephemeral = part 5 (same i);
    dh_ephemeral_static = part 6 (same i);
    dh_static_ephemeral = part 7 (same i);
    kem_ephemeral_a = part 8 (same i);
    kem_ephemeral_b = part 9 (same i);
    kem_static_a = part 10 (same i);
    kem_static_b = part 11 (same i);
  }

  same_transcript : t ≡ t'
  unfolding part
  same_transcript = λ i. record {
    identity_id_a = part 12 (same i);
    identity_id_b = part 13 (same i);
    device_signing_pub_a = part 14 (same i);
    device_signing_pub_b = part 15 (same i);
    dh_static_pub_a = part 16 (same i);
    dh_static_pub_b = part 17 (same i);
    kem_static_pub_a = part 18 (same i);
    kem_static_pub_b = part 19 (same i);
    dh_ephemeral_pub_a = part 20 (same i);
    dh_ephemeral_pub_b = part 21 (same i);
    kem_ephemeral_pub_a = part 22 (same i);
    kem_ephemeral_pub_b = part 23 (same i);
    ct_ephemeral_a = part 24 (same i);
    ct_ephemeral_b = part 25 (same i);
    ct_static_a = part 26 (same i);
    ct_static_b = part 27 (same i);
  }

-- One root key means the same secrets and the same transcript on both sides, or two inputs of the hash
-- function with one hash are at hand.
pub root_key_binds :
    (blake2b : Bytes → Bytes) (s s' : Secrets) (t t' : Transcript)
    → IsSecrets s
    → IsSecrets s'
    → IsTranscript t
    → IsTranscript t'
    → root_key blake2b s t ≡ root_key blake2b s' t'
    → ((s ≡ s') × (t ≡ t')) ⊎ Collision blake2b
unfolding root_key
root_key_binds blake2b s s' t t' hs hs' ht ht' e =
    elim (hash_binds blake2b (root_key_parts s t) (root_key_parts s' t')
      (root_key_parts-IsShort s t hs ht) (root_key_parts-IsShort s' t' hs' ht') e) [
        | inl same ↦ inl (same_secrets s s' t t' same, same_transcript s s' t t' same)
        | inr c ↦ inr c
      ]
