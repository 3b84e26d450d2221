-- ===== src/Tests/KeysRuns.antt =====
-- crates/transport: keys and frames at concrete inputs. The keyed hash keeps the key, and the cipher is an
-- encoding with an empty tag.
use onestein.Base.{
  ℕ, ◌+◌, ◌-◌, ◌≤◌, ◌≡◌, refl, ap, ◌∙◌, true, some, [], ◌∷◌, ◌++◌, arith, length, take, replicate,
  length-append, take-append, Result, ok, err,
}
use onestein.Base.Bytes.{Bytes}
use onestein.Transport.Keys.{
  PeriodKeys, role_a, role_b, lan, rotate_to, rotate_rounds, period_in_the_past,
}
use onestein.Transport.Keys.Rotation.{rotate_to_twice}
use onestein.Transport.Keys.Roles.{keys_at, other, mirror, map_ok, keys_at-other}
use onestein.Transport.Wire.{
  Cipher, IsCipher, FrameHeader, StreamHeader, frame_nonce, seal_frame_header, open_frame_header,
  seal_frame_body, open_frame_body, payload_len, header_bytes, header_of, max_frame_payload,
  auth_len,
}
use onestein.Transport.Wire.Nonces.{frame_nonce_inj}
use onestein.Transport.Wire.Frames.{open_frame_header_bounds, open_frame-seal_frame}

abbrev sum_hash : Bytes → Bytes → Bytes
sum_hash key text = length text ∷ key

abbrev some_keys : PeriodKeys
some_keys = record {
  period = 5;
  outgoing = record { tag_key = 1 ∷ []; header_key = 2 ∷ [] };
  incoming = record { tag_key = 3 ∷ []; header_key = 4 ∷ [] };
}

abbrev keys_of {ℓ} : {E : Type ℓ} → PeriodKeys → Result E PeriodKeys → PeriodKeys
keys_of other (ok keys) = keys
keys_of other (err e) = other

abbrev between_keys : PeriodKeys
between_keys = keys_of some_keys (rotate_to sum_hash some_keys 7)

run_past : rotate_to sum_hash some_keys 4 ≡ err (period_in_the_past 5 4)
unfolding rotate_to
run_past = refl

run_between : rotate_to sum_hash some_keys 7 ≡ ok between_keys
unfolding rotate_to rotate_rounds
run_between = refl

rotate_to_twice_example : rotate_to sum_hash between_keys 9 ≡ rotate_to sum_hash some_keys 9
rotate_to_twice_example =
    rotate_to_twice sum_hash some_keys between_keys 7 9 (omega arith) (omega arith) (omega arith)
      run_between

keys_at-other_example :
    keys_at sum_hash (9 ∷ []) lan role_b 180000000 3
    ≡ map_ok mirror (keys_at sum_hash (9 ∷ []) lan role_a 180000000 3)
keys_at-other_example = keys_at-other sum_hash (9 ∷ []) lan role_a 180000000 3

abbrev a_number : ℕ
a_number = 6

run_nonce : frame_nonce 6 true ≡ ok (0x80 ∷ 0 ∷ 0 ∷ 0 ∷ 0 ∷ 0 ∷ 0 ∷ 6 ∷ replicate 16 0)
unfolding frame_nonce
run_nonce = refl

frame_nonce_inj_example : (a_number ≡ a_number) × (true ≡ true)
frame_nonce_inj_example =
    frame_nonce_inj a_number a_number true true (0x80 ∷ 0 ∷ 0 ∷ 0 ∷ 0 ∷ 0 ∷ 0 ∷ 6 ∷ replicate 16 0)
      run_nonce run_nonce

abbrev plain : Cipher
plain = record {
  encrypt = λ key nonce text. text ++ replicate auth_len 0;
  decrypt = λ key nonce text. some (take (length text - auth_len) text);
}

plain-IsCipher : IsCipher plain
plain-IsCipher = record {
  decrypt-encrypt = λ key nonce text.
      let size : length (text ++ replicate auth_len 0) - auth_len ≡ length text =
        omega (arith, length-append text (replicate auth_len 0)) in
      ap some (
        ap (λ n. take n (text ++ replicate auth_len 0)) size
        ∙ take-append text _ (length text) refl);
  length-encrypt = λ key nonce text. length-append text (replicate auth_len 0);
}

abbrev a_stream : StreamHeader
a_stream = record { stream_number = 258; cipher_key = replicate 32 9 }

abbrev a_header : FrameHeader
a_header = record { data_len = 3; padding_len = 2; final_frame = true }

abbrev a_header_bytes : Bytes
a_header_bytes = 0x80 ∷ 3 ∷ 0 ∷ 2 ∷ replicate 16 0

run_seal_header : seal_frame_header plain [] 1 a_header ≡ ok a_header_bytes
unfolding seal_frame_header payload_len frame_nonce header_bytes
run_seal_header = refl

run_open_header : open_frame_header plain [] 1 a_header_bytes ≡ ok a_header
unfolding open_frame_header payload_len frame_nonce header_of
run_open_header = refl

run_seal_body :
    seal_frame_body plain [] 1 (7 ∷ 8 ∷ 9 ∷ []) 2 ≡ ok (7 ∷ 8 ∷ 9 ∷ 0 ∷ 0 ∷ replicate 16 0)
unfolding seal_frame_body payload_len frame_nonce
run_seal_body = refl

open_frame_header_bounds_example : a_header.data_len + a_header.padding_len ≤ max_frame_payload
open_frame_header_bounds_example =
    open_frame_header_bounds plain [] a_header_bytes 1 a_header run_open_header

open_frame-seal_frame_example :
    (open_frame_header plain [] 1 a_header_bytes ≡ ok a_header)
    × (open_frame_body plain [] 1 a_header (7 ∷ 8 ∷ 9 ∷ 0 ∷ 0 ∷ replicate 16 0)
        ≡ ok (7 ∷ 8 ∷ 9 ∷ []))
open_frame-seal_frame_example =
    open_frame-seal_frame plain plain-IsCipher [] 1 a_header (7 ∷ 8 ∷ 9 ∷ []) a_header_bytes
      (7 ∷ 8 ∷ 9 ∷ 0 ∷ 0 ∷ replicate 16 0) refl run_seal_header run_seal_body
