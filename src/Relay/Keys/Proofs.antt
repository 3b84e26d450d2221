-- ===== src/Relay/Keys/Proofs.antt =====
-- crates/relay/src/lib.rs: a proof holds for the right that it was made for, and its text for no other.
use onestein.Base.{
  ◌≤◌, ◌<◌, ◌≡◌, refl, ap, ◌≢◌, Bool, true, arith, lt→ltb, le→ltb, length, get_or, drop, ok, err,
}
use onestein.Base.Bytes.{Bytes}
use onestein.Relay.{
  Right, write_right, read_right, challenge_too_short, Registration, proof_message, public_key,
  check, min_challenge_len,
}
use onestein.Relay.Keys.{QueueKeys, registration, signing_key, prove}

-- What is documented of Ed25519: the public key of a seed is a key, and a signature verifies under its own
-- key.
pub record IsEd25519 (public_of : Bytes → Bytes) (sign : Bytes → Bytes → Bytes)
    (valid_key : Bytes → Bool) (verifies : Bytes → Bytes → Bytes → Bool) : Type 0 where
  pub valid : (seed : Bytes) → valid_key (public_of seed) ≡ true
  pub verified : (seed text : Bytes) → verifies (public_of seed) text (sign seed text) ≡ true

-- No text is signed for both rights, and none for two challenges.
pub proof_message_inj :
    (x y : Right) (c d : Bytes) → proof_message x c ≡ proof_message y d → (x ≡ y) × (c ≡ d)
proof_message_inj write_right write_right c d h = (refl, ap (drop 30) h)
proof_message_inj read_right read_right c d h = (refl, ap (drop 29) h)
proof_message_inj write_right read_right c d h = absurd (other c d h)
  where
    other : (c d : Bytes) → proof_message write_right c ≢ proof_message read_right d
    other c d p =
        let letter : get_or (proof_message write_right c) 19 0
            ≡ get_or (proof_message read_right d) 19 0 =
          ap (λ l. get_or l 19 0) p in
        omega (arith, letter)
proof_message_inj read_right write_right c d h = absurd (other c d h)
  where
    other : (c d : Bytes) → proof_message read_right c ≢ proof_message write_right d
    other c d p =
        let letter : get_or (proof_message read_right c) 19 0
            ≡ get_or (proof_message write_right d) 19 0 =
          ap (λ l. get_or l 19 0) p in
        omega (arith, letter)

module _ (public_of : Bytes → Bytes) (sign : Bytes → Bytes → Bytes) (valid_key : Bytes → Bool)
    (verifies : Bytes → Bytes → Bytes → Bool)
    (sound : IsEd25519 public_of sign valid_key verifies) where
  public_key-registration :
      (keys : QueueKeys) (right : Right)
      → public_key (registration public_of keys) right ≡ public_of (signing_key keys right)
  unfolding registration
  public_key-registration keys write_right = refl
  public_key-registration keys read_right = refl

  -- A challenge of 16 bytes or more is answered with a proof that the relay accepts for that right, and a
  -- shorter one is refused by both sides.
  pub check-prove :
      (keys : QueueKeys) (right : Right) (challenge : Bytes)
      → (min_challenge_len ≤ length challenge
          → (proof : Bytes) × (prove sign keys right challenge ≡ ok proof)
            × (check valid_key verifies (registration public_of keys) right challenge proof
                ≡ ok tt))
        × (length challenge < min_challenge_len
            → (prove sign keys right challenge ≡ err (challenge_too_short (length challenge)))
              × ((reg : Registration) (proof : Bytes)
                  → check valid_key verifies reg right challenge proof
                    ≡ err (challenge_too_short (length challenge))))
  unfolding prove check
  check-prove keys right challenge = (
    λ le.
        let seed = signing_key keys right in
        let room = le→ltb (length challenge) min_challenge_len le in
        (
          sign seed (proof_message right challenge),
          rw room refl,
          rw
              (
                room,
                public_key-registration keys right,
                sound.valid seed,
                sound.verified seed (proof_message right challenge),
              )
              refl,
        ),
    λ lt.
        let short = lt→ltb (length challenge) min_challenge_len lt in
        (rw short refl, λ reg proof. rw short refl),
  )
