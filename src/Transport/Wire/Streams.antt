-- ===== src/Transport/Wire/Streams.antt =====
-- crates/transport/src/wire.rs: a stream header is opened as it was sealed.
use onestein.Base.{◌^◌, ◌<◌, ◌≡◌, refl, ◌++◌, arith, length, length-append, drop-append, ok}
use onestein.Base.Bytes.{fill-whole, fill-append, Bytes, to_be, from_be-to_be_lt}
use onestein.Transport.Wire.{
  Cipher, IsCipher, StreamHeader, seal_stream_header, open_stream_header, stream_header_len,
}
use onestein.Transport.Keys.{transport_version}

module _ (cipher : Cipher) (sound : IsCipher cipher) (header_key nonce : Bytes)
    (header : StreamHeader) (nonce_size : length nonce ≡ 24)
    (key_size : length header.cipher_key ≡ 32) (in_range : header.stream_number < 2 ^ 64) where
  plaintext : Bytes
  plaintext = to_be 2 transport_version ++ (to_be 8 header.stream_number ++ header.cipher_key)

  ciphertext : Bytes
  ciphertext = cipher.encrypt header_key nonce plaintext

  sealed_whole : seal_stream_header cipher header_key nonce header ≡ nonce ++ ciphertext
  unfolding seal_stream_header plaintext ciphertext
  sealed_whole = fill-whole (nonce ++ ciphertext) stream_header_len (
      omega
        (arith, length-append nonce ciphertext, sound.length-encrypt header_key nonce plaintext))

  -- A stream header is opened as it was sealed, with a nonce and a key of their lengths and a stream
  -- number of 64 bits.
  pub open_stream_header-seal_stream_header :
      open_stream_header cipher header_key (seal_stream_header cipher header_key nonce header)
      ≡ ok header
  unfolding open_stream_header plaintext ciphertext
  open_stream_header-seal_stream_header =
      rw
        (
          sealed_whole,
          fill-append nonce ciphertext 24 nonce_size,
          drop-append nonce ciphertext 24 nonce_size,
          sound.decrypt-encrypt header_key nonce plaintext,
          from_be-to_be_lt 8 header.stream_number (omega (arith, in_range)),
          fill-whole header.cipher_key 32 key_size,
        )
        refl
