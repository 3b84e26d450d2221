-- ===== src/Tests/QueueRuns.antt =====
-- crates/relay/src/lib.rs and crates/sync/src/retention.rs at concrete inputs. A seed is its own public key, a
-- signature is the key before the text, and the keyed hash keeps the key.
use onestein.Base.{
  ℕ, ◌≤◌, ◌<◌, ◌≡◌, refl, ◌↔◌, ◌⊎◌, Bool, true, List, [], ◌∷◌, ◌++◌, arith, leb, length, replicate,
  bytes_eq, bytes_eq_refl, ok, err,
}
use onestein.Base.Bytes.{Bytes}
use onestein.Base.Text.{ascii, are_bytes→IsByte}
use onestein.Crypto.{kdf}
use onestein.Crypto.Collisions.{Collision}
use onestein.Relay.{
  write_right, read_right, check, challenge_too_short, min_challenge_len, Registration,
}
use onestein.Relay.Keys.{
  QueueKeys, a_to_b, b_to_a, queue_id, derive_key, queue_keys, registration, prove,
}
use onestein.Relay.Keys.Names.{queue_id_binds}
use onestein.Relay.Keys.Proofs.{IsEd25519, check-prove}
use onestein.Sync.Retention.{keep_count, encode_retention, decode_retention}
use onestein.Sync.Retention.Droppable.{droppable, drop_where, enumerate}
use onestein.Sync.Retention.Droppable.Newest.{newer_count, droppable-keep_count}
use onestein.Sync.Retention.Exact.{IsPolicy, decode_retention_iff}
use onestein.Bdf.Write.{to_bytes, write_sized, push_be}
use onestein.Bdf.{minimal_int_length}

abbrev seed_is_key : Bytes → Bytes
seed_is_key seed = seed

abbrev sign : Bytes → Bytes → Bytes
sign seed text = seed ++ text

abbrev any_key : Bytes → Bool
any_key key = true

abbrev verifies : Bytes → Bytes → Bytes → Bool
verifies key text signature = bytes_eq signature (key ++ text)

sign-IsEd25519 : IsEd25519 seed_is_key sign any_key verifies
sign-IsEd25519 = record {
  valid = λ seed. refl;
  verified = λ seed text. bytes_eq_refl (seed ++ text);
}

abbrev a_hash : Bytes → Bytes → Bytes
a_hash key text = key

abbrev a_challenge : Bytes
a_challenge = replicate 16 3

abbrev keys : QueueKeys
keys = queue_keys a_hash (5 ∷ []) a_to_b (ascii "relay.example") 7

run_short : prove sign keys write_right (1 ∷ 2 ∷ []) ≡ err (challenge_too_short 2)
unfolding prove
run_short = refl

check-prove_example :
    (min_challenge_len ≤ length (a_challenge)
      → (proof : Bytes) × (prove sign keys read_right (a_challenge) ≡ ok proof)
        × (check any_key verifies (registration seed_is_key keys) read_right (a_challenge) proof
            ≡ ok tt))
    × (length (a_challenge) < min_challenge_len
        → (prove sign keys read_right (a_challenge)
            ≡ err (challenge_too_short (length (a_challenge))))
          × ((reg : Registration) (proof : Bytes)
              → check any_key verifies reg read_right (a_challenge) proof
                ≡ err (challenge_too_short (length (a_challenge)))))
check-prove_example =
    check-prove seed_is_key sign any_key verifies sign-IsEd25519 keys read_right (a_challenge)

abbrev seven : ℕ
seven = 7

abbrev eight : ℕ
eight = 8

run_one_name :
    queue_id a_hash (5 ∷ []) a_to_b (ascii "one") 7
    ≡ queue_id a_hash (5 ∷ []) b_to_a (ascii "two") 8
unfolding queue_id derive_key kdf
run_one_name = refl

queue_id_binds_example :
    ((a_to_b ≡ b_to_a) × (ascii "one" ≡ ascii "two") × (seven ≡ eight))
    ⊎ Collision (a_hash (5 ∷ []))
queue_id_binds_example =
    queue_id_binds a_hash (5 ∷ []) a_to_b b_to_a (ascii "one") (ascii "two") seven eight
      (omega arith) (omega arith) (omega arith) (omega arith) run_one_name

-- A dictionary of the kind and the number.
abbrev a_policy : Bytes
a_policy =
    0x70 ∷ 0x41 ∷ 1 ∷ 107 ∷ 0x41 ∷ 5 ∷ (ascii "count" ++ (0x41 ∷ 1 ∷ 110 ∷ 0x21 ∷ 9 ∷ 0x80 ∷ []))

run_encode : encode_retention (keep_count 9) ≡ a_policy
unfolding encode_retention to_bytes write_sized push_be minimal_int_length
run_encode = refl

decode_retention_iff_example :
    (decode_retention a_policy ≡ ok (keep_count 9))
    ↔ (IsPolicy (keep_count 9) × (a_policy ≡ encode_retention (keep_count 9)))
decode_retention_iff_example =
    decode_retention_iff a_policy (keep_count 9) (are_bytes→IsByte a_policy refl)

-- Received at 5, 9, 7 and 9.
abbrev held : List (Bytes × ℕ)
held = (1 ∷ [], 5) ∷ (2 ∷ [], 9) ∷ (3 ∷ [], 7) ∷ (4 ∷ [], 9) ∷ []

run_drop : droppable (keep_count 1) 10 held ≡ (1 ∷ []) ∷ (3 ∷ []) ∷ (4 ∷ []) ∷ []
unfolding droppable
run_drop = refl

droppable-keep_count_example :
    droppable (keep_count 2) 10 held
    ≡ drop_where (λ x. leb 2 (newer_count x (enumerate 0 held))) 0 held
droppable-keep_count_example = droppable-keep_count 2 10 held
