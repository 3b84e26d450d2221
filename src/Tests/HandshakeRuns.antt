-- ===== src/Tests/HandshakeRuns.antt =====
-- crates/handshake at concrete inputs. A secret key is its own public key, the shared secret is the sum of
-- both, and a secret is encapsulated in the clear.
use onestein.Base.{
  ◌+◌, ◌≡◌, refl, ap, ◌⊎◌, true, not, some, List, [], ◌∷◌, ◌++◌, arith, take, replicate, bytes_eq,
  ok,
}
use onestein.Base.Bytes.{fill, length-fill, Bytes, to_be, from_be}
use onestein.Crypto.{frame, hash}
use onestein.Crypto.Collisions.{Collision}
use onestein.Record.{encode}
use onestein.Record.Codec.{write_all}
use onestein.Handshake.{
  Agreement, KeyPair, Secrets, Transcript, root_key, record_error, x25519_public, agree,
}
use onestein.Handshake.Binding.{IsSecrets, IsTranscript, root_key_binds}
use onestein.Handshake.SameSecrets.{IsAgreement}
use onestein.Handshake.Records.{
  HandshakeRecord, certificate_id, certificate_request, device_certificate, encode_record,
  read_record, decode_records,
}
use onestein.Handshake.Records.RoundTrip.{decode_records-write_all}

abbrev add_keys : Bytes → Bytes → Bytes
add_keys a b = to_be 32 (from_be a + from_be b)

abbrev clear : Agreement
clear = record {
  x25519_public = λ seed. seed;
  diffie_hellman = add_keys;
  was_contributory = λ shared. not (bytes_eq shared (replicate 32 0));
  kem_public = λ seed. fill 1184 seed;
  kem_decapsulate = λ seed ciphertext. take 32 ciphertext;
  kem_valid_key = λ key. true;
  kem_encapsulate = λ key randomness. (fill 1088 randomness, take 32 (fill 1088 randomness));
}

clear-IsAgreement : IsAgreement clear
clear-IsAgreement = record {
  dh_commutes = λ a b.
      let same : from_be a + from_be b ≡ from_be b + from_be a = omega arith in ap (to_be 32) same;
  length-kem_public = λ seed. length-fill 1184 seed;
  kem_valid = λ seed. refl;
  length-ciphertext = λ key randomness. length-fill 1088 randomness;
  decapsulate-encapsulate = λ seed randomness. refl;
}

abbrev pair_a : KeyPair
pair_a = record { x25519 = 1 ∷ []; kem = 2 ∷ [] }

abbrev pair_b : KeyPair
pair_b = record { x25519 = 3 ∷ []; kem = 4 ∷ [] }

run_agree : agree clear pair_a (x25519_public clear pair_b) ≡ ok (to_be 32 4)
unfolding agree x25519_public
run_agree = refl

abbrev secrets : Secrets
secrets = record {
  dh_ephemeral = replicate 32 1;
  dh_ephemeral_static = replicate 32 2;
  dh_static_ephemeral = replicate 32 3;
  kem_ephemeral_a = replicate 32 4;
  kem_ephemeral_b = replicate 32 5;
  kem_static_a = replicate 32 6;
  kem_static_b = replicate 32 7;
}

abbrev other_secrets : Secrets
other_secrets = record secrets { dh_ephemeral = replicate 32 99 }

secrets-IsSecrets : IsSecrets secrets
secrets-IsSecrets = record {
  dh_ephemeral_array = refl;
  dh_ephemeral_static_array = refl;
  dh_static_ephemeral_array = refl;
  kem_ephemeral_a_array = refl;
  kem_ephemeral_b_array = refl;
  kem_static_a_array = refl;
  kem_static_b_array = refl;
}

other_secrets-IsSecrets : IsSecrets other_secrets
other_secrets-IsSecrets = record {
  dh_ephemeral_array = refl;
  dh_ephemeral_static_array = refl;
  dh_static_ephemeral_array = refl;
  kem_ephemeral_a_array = refl;
  kem_ephemeral_b_array = refl;
  kem_static_a_array = refl;
  kem_static_b_array = refl;
}

abbrev transcript : Transcript
transcript = record {
  identity_id_a = replicate 32 20;
  identity_id_b = replicate 32 21;
  device_signing_pub_a = replicate 32 22;
  device_signing_pub_b = replicate 32 23;
  dh_static_pub_a = replicate 32 24;
  dh_static_pub_b = replicate 32 25;
  kem_static_pub_a = replicate 1184 26;
  kem_static_pub_b = replicate 1184 27;
  dh_ephemeral_pub_a = replicate 32 28;
  dh_ephemeral_pub_b = replicate 32 29;
  kem_ephemeral_pub_a = replicate 1184 30;
  kem_ephemeral_pub_b = replicate 1184 31;
  ct_ephemeral_a = replicate 1088 32;
  ct_ephemeral_b = replicate 1088 33;
  ct_static_a = replicate 1088 34;
  ct_static_b = replicate 1088 35;
}

transcript-IsTranscript : IsTranscript transcript
transcript-IsTranscript = record {
  identity_id_a_array = refl;
  identity_id_b_array = refl;
  device_signing_pub_a_array = refl;
  device_signing_pub_b_array = refl;
  dh_static_pub_a_array = refl;
  dh_static_pub_b_array = refl;
  kem_static_pub_a_array = refl;
  kem_static_pub_b_array = refl;
  dh_ephemeral_pub_a_array = refl;
  dh_ephemeral_pub_b_array = refl;
  kem_ephemeral_pub_a_array = refl;
  kem_ephemeral_pub_b_array = refl;
  ct_ephemeral_a_array = refl;
  ct_ephemeral_b_array = refl;
  ct_static_a_array = refl;
  ct_static_b_array = refl;
}

-- A hash that keeps what every root key starts with.
abbrev front_hash : Bytes → Bytes
front_hash bs = fill 32 bs

run_same_key : root_key front_hash secrets transcript ≡ root_key front_hash other_secrets transcript
unfolding root_key hash frame
run_same_key = refl

root_key_binds_example :
    ((secrets ≡ other_secrets) × (transcript ≡ transcript)) ⊎ Collision front_hash
root_key_binds_example =
    root_key_binds front_hash secrets other_secrets transcript transcript secrets-IsSecrets
      other_secrets-IsSecrets transcript-IsTranscript transcript-IsTranscript run_same_key

abbrev records : List HandshakeRecord
records =
    certificate_request ∷ certificate_id (replicate 32 9) ∷ device_certificate (5 ∷ 6 ∷ []) ∷ []

abbrev stream : Bytes
stream = 1 ∷ 3 ∷ 0 ∷ 0 ∷ 1 ∷ 2 ∷ 0 ∷ 32 ∷ (replicate 32 9 ++ 1 ∷ 1 ∷ 0 ∷ 2 ∷ 5 ∷ 6 ∷ [])

run_write : write_all record_error read_record encode_record 1 records ≡ ok stream
unfolding encode_record encode
run_write = refl

decode_records-write_all_example : decode_records stream ≡ some (ok records)
decode_records-write_all_example =
    decode_records-write_all records stream (tt, (refl, (tt, tt))) run_write
