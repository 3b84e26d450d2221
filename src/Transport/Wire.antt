-- ===== src/Transport/Wire.antt =====
-- crates/transport/src/wire.rs: stream headers and frames. The authenticated cipher, XSalsa20 with
-- Poly1305, is a parameter.
pub mod Nonces
pub mod Streams
pub mod Frames
use onestein.Base.{
  ℕ, zero, suc, ◌+◌, ◌-◌, ◌^◌, bit_and, bit_or, ◌≡◌, Bool, true, false, not, Option, some, ◌++◌,
  ltb, leb, ◌==◌, if◌then◌else◌, length, take, drop, replicate, Result, ok, err, ◌>>=◌, ◌>>◌, guard,
  ok_or,
}
use onestein.Base.Bytes.{fill, Bytes, to_be, from_be}
use onestein.Base.Words.{saturating_add}
use onestein.Transport.Keys.{transport_version}
use onestein.Crypto.{hash_len}

-- The operations take the key, the nonce and the text. Encryption fails on no text that this
-- protocol allows; decryption gives nothing where the tag does not verify.
pub record Cipher : Type 0 where
  pub encrypt : Bytes → Bytes → Bytes → Bytes
  pub decrypt : Bytes → Bytes → Bytes → Option Bytes

abbrev pub nonce_len : ℕ
nonce_len = 24

abbrev pub auth_len : ℕ
auth_len = 16

abbrev pub stream_header_len : ℕ
stream_header_len = nonce_len + 2 + 8 + hash_len + auth_len

abbrev pub frame_header_len : ℕ
frame_header_len = 4 + auth_len

abbrev pub max_frame_payload : ℕ
max_frame_payload = 988

abbrev pub max_frame_len : ℕ
max_frame_len = frame_header_len + max_frame_payload + auth_len

-- `u64::MAX >> 1`.
abbrev pub max_frame_number : ℕ
max_frame_number = 2 ^ 63 - 1

pub record StreamHeader : Type 0 where
  pub stream_number : ℕ
  pub cipher_key : Bytes

pub record FrameHeader : Type 0 where
  pub data_len : ℕ
  pub padding_len : ℕ
  pub final_frame : Bool

pub data WireError : Type 0 where
  not_decrypted : WireError
  unknown_version : ℕ → WireError
  frame_too_long : ℕ → WireError
  frame_number_too_large : WireError
  -- The length announced, and the one given.
  body_length_mismatch : ℕ → ℕ → WireError

-- The header flag in the top bit, the number under it, zeroes behind.
unfoldable pub frame_nonce : ℕ → Bool → Result WireError Bytes
frame_nonce frame_number is_header = do
  guard (leb frame_number max_frame_number) frame_number_too_large
  ok (fill nonce_len (to_be 8 (if is_header then bit_or frame_number (2 ^ 63) else frame_number)))

unfoldable pub payload_len : ℕ → ℕ → Result WireError ℕ
payload_len data_len padding_len =
    let total = saturating_add data_len padding_len in
    if ltb max_frame_payload total then err (frame_too_long total) else ok total

-- The two numbers of a frame header on the wire, with the flag in the top bit of the first.
unfoldable pub header_bytes : FrameHeader → Bytes
header_bytes header =
    let flagged = if header.final_frame then bit_or header.data_len 0x8000 else header.data_len in
    fill 4 (to_be 2 flagged ++ to_be 2 header.padding_len)

unfoldable pub header_of : Bytes → FrameHeader
header_of plaintext =
    let flagged = from_be (fill 2 plaintext) in
    record {
      data_len = bit_and flagged 0x7fff;
      padding_len = from_be (fill 2 (drop 2 plaintext));
      final_frame = not (bit_and flagged 0x8000 == 0);
    }

module _ (cipher : Cipher) where
  unfoldable pub seal_stream_header : Bytes → Bytes → StreamHeader → Bytes
  seal_stream_header header_key nonce header =
      let plaintext =
        to_be 2 transport_version ++ (to_be 8 header.stream_number ++ header.cipher_key) in
      fill stream_header_len (nonce ++ cipher.encrypt header_key nonce plaintext)

  unfoldable pub open_stream_header : Bytes → Bytes → Result WireError StreamHeader
  open_stream_header header_key bytes = do
    plaintext ←
        ok_or (cipher.decrypt header_key (fill nonce_len bytes) (drop nonce_len bytes))
          not_decrypted
    guard (from_be (fill 2 plaintext) == transport_version)
        (unknown_version (from_be (fill 2 plaintext)))
    ok (record {
      stream_number = from_be (fill 8 (drop 2 plaintext));
      cipher_key = fill hash_len (drop 10 plaintext);
    })

  unfoldable pub seal_frame_header : Bytes → ℕ → FrameHeader → Result WireError Bytes
  seal_frame_header cipher_key frame_number header = do
    total ← payload_len header.data_len header.padding_len
    nonce ← frame_nonce frame_number true
    ok (fill frame_header_len (cipher.encrypt cipher_key nonce (header_bytes header)))

  unfoldable pub open_frame_header : Bytes → ℕ → Bytes → Result WireError FrameHeader
  open_frame_header cipher_key frame_number bytes = do
    nonce ← frame_nonce frame_number true
    plaintext ← ok_or (cipher.decrypt cipher_key nonce bytes) not_decrypted
    total ← payload_len (header_of plaintext).data_len (header_of plaintext).padding_len
    ok (header_of plaintext)

  unfoldable pub seal_frame_body : Bytes → ℕ → Bytes → ℕ → Result WireError Bytes
  seal_frame_body cipher_key frame_number content padding_len = do
    total ← payload_len (length content) padding_len
    nonce ← frame_nonce frame_number false
    ok (cipher.encrypt cipher_key nonce (content ++ replicate (total - length content) 0))

  unfoldable pub open_frame_body : Bytes → ℕ → FrameHeader → Bytes → Result WireError Bytes
  open_frame_body cipher_key frame_number header bytes = do
    expected ← payload_len header.data_len header.padding_len
    guard (length bytes - auth_len == expected)
        (body_length_mismatch expected (length bytes - auth_len))
    nonce ← frame_nonce frame_number false
    plaintext ← ok_or (cipher.decrypt cipher_key nonce bytes) not_decrypted
    ok (take header.data_len plaintext)

-- What is documented of the cipher: what is encrypted decrypts under the same key and nonce, and the
-- ciphertext is longer by the tag.
pub record IsCipher (cipher : Cipher) : Type 0 where
  pub decrypt-encrypt :
      (key nonce text : Bytes)
      → cipher.decrypt key nonce (cipher.encrypt key nonce text) ≡ some text
  pub length-encrypt :
      (key nonce text : Bytes) → length (cipher.encrypt key nonce text) ≡ length text + auth_len
