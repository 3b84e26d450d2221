-- ===== src/Contact/Base32/RoundTrip.antt =====
-- crates/contact/src/base32.rs: reading gives back the bytes that were written.
use onestein.Base.{
  ℕ, ◌+◌, ◌-◌, ◌*◌, ◌/◌, ◌%◌, ◌^◌, ◌<◌, bit_and, ◌≡◌, refl, ◌∙◌, [], ◌∷◌, arith, All, ok,
}
use onestein.Base.Bytes.{Bytes, IsByte}
use onestein.Base.Bits.{bit_and-ones}
use onestein.Contact.Base32.{symbol, shl, encode_from, encode, decode_from, decode}
use onestein.Contact.Base32.Symbols.{
  with_symbol, with_byte, with_byte_lem, decode_from-keep, decode_from-full,
}

-- What the writer puts out for a byte, by the bits it has at hand.
encode_from_0 :
    (buffer b : ℕ) (bs : Bytes)
    → b < 256
    → encode_from buffer 0 (b ∷ bs)
      ≡ symbol (with_byte buffer b / 2 ^ 3 % 32) ∷ encode_from (with_byte buffer b) 3 bs
unfolding encode_from
encode_from_0 buffer b bs lt =
    rw (with_byte_lem buffer b lt) (rw (bit_and-ones 5 (with_byte buffer b / 2 ^ 3)) refl)

encode_from_3 :
    (buffer b : ℕ) (bs : Bytes)
    → b < 256
    → encode_from buffer 3 (b ∷ bs)
      ≡ symbol (with_byte buffer b / 2 ^ 6 % 32)
        ∷ symbol (with_byte buffer b / 2 ^ 1 % 32)
        ∷ encode_from (with_byte buffer b) 1 bs
unfolding encode_from
encode_from_3 buffer b bs lt = rw (with_byte_lem buffer b lt) (
    rw (bit_and-ones 5 (with_byte buffer b / 2 ^ 6), bit_and-ones 5 (with_byte buffer b / 2 ^ 1))
      refl)

encode_from_1 :
    (buffer b : ℕ) (bs : Bytes)
    → b < 256
    → encode_from buffer 1 (b ∷ bs)
      ≡ symbol (with_byte buffer b / 2 ^ 4 % 32) ∷ encode_from (with_byte buffer b) 4 bs
unfolding encode_from
encode_from_1 buffer b bs lt =
    rw (with_byte_lem buffer b lt) (rw (bit_and-ones 5 (with_byte buffer b / 2 ^ 4)) refl)

encode_from_4 :
    (buffer b : ℕ) (bs : Bytes)
    → b < 256
    → encode_from buffer 4 (b ∷ bs)
      ≡ symbol (with_byte buffer b / 2 ^ 7 % 32)
        ∷ symbol (with_byte buffer b / 2 ^ 2 % 32)
        ∷ encode_from (with_byte buffer b) 2 bs
unfolding encode_from
encode_from_4 buffer b bs lt = rw (with_byte_lem buffer b lt) (
    rw (bit_and-ones 5 (with_byte buffer b / 2 ^ 7), bit_and-ones 5 (with_byte buffer b / 2 ^ 2))
      refl)

encode_from_2 :
    (buffer b : ℕ) (bs : Bytes)
    → b < 256
    → encode_from buffer 2 (b ∷ bs)
      ≡ symbol (with_byte buffer b / 2 ^ 5 % 32)
        ∷ symbol (with_byte buffer b / 2 ^ 0 % 32)
        ∷ encode_from (with_byte buffer b) 0 bs
unfolding encode_from
encode_from_2 buffer b bs lt = rw (with_byte_lem buffer b lt) (
    rw (bit_and-ones 5 (with_byte buffer b / 2 ^ 5), bit_and-ones 5 (with_byte buffer b / 2 ^ 0))
      refl)

-- The end: the last symbol fills the last byte, and what it adds are zeroes.
decode_from_end : (buffer bits : ℕ) → buffer % 2 ^ bits ≡ 0 → decode_from buffer bits [] ≡ ok []
unfolding decode_from
decode_from_end buffer bits h =
    let clear : bit_and buffer (2 ^ bits - 1) ≡ 0 = bit_and-ones bits buffer ∙ h in
    rw clear (ground arith)

tail_3 :
    (buffer d p : ℕ)
    → d % 2 ^ 5 * 2 ^ 3 + buffer % 2 ^ 3 ≡ p
    → decode_from d 5 (encode_from buffer 3 []) ≡ ok (p ∷ [])
unfolding encode_from
tail_3 buffer d p h =
    let v = shl buffer 2 % 32 in
    let written : encode_from buffer 3 [] ≡ symbol v ∷ [] =
      rw (bit_and-ones 5 (shl buffer 2)) refl in
    let byte : with_symbol d v / 2 ^ 2 % 256 ≡ p = omega (arith, h) in
    let clear : with_symbol d v % 2 ^ 2 ≡ 0 = omega arith in
    rw written (
      decode_from-full d 5 v p [] [] (omega arith) (omega arith) byte
        (decode_from_end (with_symbol d v) 2 clear))

tail_1 :
    (buffer d p : ℕ)
    → d % 2 ^ 7 * 2 ^ 1 + buffer % 2 ^ 1 ≡ p
    → decode_from d 7 (encode_from buffer 1 []) ≡ ok (p ∷ [])
unfolding encode_from
tail_1 buffer d p h =
    let v = shl buffer 4 % 32 in
    let written : encode_from buffer 1 [] ≡ symbol v ∷ [] =
      rw (bit_and-ones 5 (shl buffer 4)) refl in
    let byte : with_symbol d v / 2 ^ 4 % 256 ≡ p = omega (arith, h) in
    let clear : with_symbol d v % 2 ^ 4 ≡ 0 = omega arith in
    rw written (
      decode_from-full d 7 v p [] [] (omega arith) (omega arith) byte
        (decode_from_end (with_symbol d v) 4 clear))

tail_4 :
    (buffer d p : ℕ)
    → d % 2 ^ 4 * 2 ^ 4 + buffer % 2 ^ 4 ≡ p
    → decode_from d 4 (encode_from buffer 4 []) ≡ ok (p ∷ [])
unfolding encode_from
tail_4 buffer d p h =
    let v = shl buffer 1 % 32 in
    let written : encode_from buffer 4 [] ≡ symbol v ∷ [] =
      rw (bit_and-ones 5 (shl buffer 1)) refl in
    let byte : with_symbol d v / 2 ^ 1 % 256 ≡ p = omega (arith, h) in
    let clear : with_symbol d v % 2 ^ 1 ≡ 0 = omega arith in
    rw written (
      decode_from-full d 4 v p [] [] (omega arith) (omega arith) byte
        (decode_from_end (with_symbol d v) 1 clear))

tail_2 :
    (buffer d p : ℕ)
    → d % 2 ^ 6 * 2 ^ 2 + buffer % 2 ^ 2 ≡ p
    → decode_from d 6 (encode_from buffer 2 []) ≡ ok (p ∷ [])
unfolding encode_from
tail_2 buffer d p h =
    let v = shl buffer 3 % 32 in
    let written : encode_from buffer 2 [] ≡ symbol v ∷ [] =
      rw (bit_and-ones 5 (shl buffer 3)) refl in
    let byte : with_symbol d v / 2 ^ 3 % 256 ≡ p = omega (arith, h) in
    let clear : with_symbol d v % 2 ^ 3 ≡ 0 = omega arith in
    rw written (
      decode_from-full d 6 v p [] [] (omega arith) (omega arith) byte
        (decode_from_end (with_symbol d v) 3 clear))

byte_3 :
    (buffer d p b : ℕ)
    → b < 256
    → d % 2 ^ 5 * 2 ^ 3 + buffer % 2 ^ 3 ≡ p
    → with_symbol d (with_byte buffer b / 2 ^ 6 % 32) / 2 ^ 2 % 256 ≡ p
byte_3 buffer d p b lt h = omega (arith, lt, h)

byte_1 :
    (buffer d p b : ℕ)
    → b < 256
    → d % 2 ^ 7 * 2 ^ 1 + buffer % 2 ^ 1 ≡ p
    → with_symbol d (with_byte buffer b / 2 ^ 4 % 32) / 2 ^ 4 % 256 ≡ p
byte_1 buffer d p b lt h = omega (arith, lt, h)

byte_4 :
    (buffer d p b : ℕ)
    → b < 256
    → d % 2 ^ 4 * 2 ^ 4 + buffer % 2 ^ 4 ≡ p
    → with_symbol d (with_byte buffer b / 2 ^ 7 % 32) / 2 ^ 1 % 256 ≡ p
byte_4 buffer d p b lt h = omega (arith, lt, h)

byte_2 :
    (buffer d p b : ℕ)
    → b < 256
    → d % 2 ^ 6 * 2 ^ 2 + buffer % 2 ^ 2 ≡ p
    → with_symbol d (with_byte buffer b / 2 ^ 5 % 32) / 2 ^ 3 % 256 ≡ p
byte_2 buffer d p b lt h = omega (arith, lt, h)

empty : (d buffer : ℕ) → decode_from d 0 (encode_from buffer 0 []) ≡ ok []
unfolding encode_from
empty d buffer = decode_from_end d 0 (omega arith)

-- By the bits that the writer has at hand, the reader lacks them of the byte p.
mutual
  decode_encode_0 :
      (buffer d : ℕ) (bs : Bytes)
      → All IsByte bs
      → decode_from d 0 (encode_from buffer 0 bs) ≡ ok bs
  decode_encode_0 buffer d [] all = empty d buffer
  decode_encode_0 buffer d (b ∷ bs) all =
      let e = with_byte buffer b in
      let v = e / 2 ^ 3 % 32 in
      let d1 = with_symbol d v in
      rw (encode_from_0 buffer b bs all.0) (
        decode_from-keep d 0 v (encode_from e 3 bs) (b ∷ bs) (omega arith) (omega arith)
          (decode_encode_3 e d1 b bs all.1 (omega (arith, all.0))))

  decode_encode_3 :
      (buffer d p : ℕ) (bs : Bytes)
      → All IsByte bs
      → d % 2 ^ 5 * 2 ^ 3 + buffer % 2 ^ 3 ≡ p
      → decode_from d 5 (encode_from buffer 3 bs) ≡ ok (p ∷ bs)
  decode_encode_3 buffer d p [] all h = tail_3 buffer d p h
  decode_encode_3 buffer d p (b ∷ bs) all h =
      let e = with_byte buffer b in
      let v = e / 2 ^ 6 % 32 in
      let d1 = with_symbol d v in
      let w = e / 2 ^ 1 % 32 in
      let d2 = with_symbol d1 w in
      rw (encode_from_3 buffer b bs all.0) (
        decode_from-full d 5 v p (symbol w ∷ encode_from e 1 bs) (b ∷ bs) (omega arith)
          (omega arith) (byte_3 buffer d p b all.0 h)
          (decode_from-keep d1 2 w (encode_from e 1 bs) (b ∷ bs) (omega arith) (omega arith)
            (decode_encode_1 e d2 b bs all.1 (omega (arith, all.0)))))

  decode_encode_1 :
      (buffer d p : ℕ) (bs : Bytes)
      → All IsByte bs
      → d % 2 ^ 7 * 2 ^ 1 + buffer % 2 ^ 1 ≡ p
      → decode_from d 7 (encode_from buffer 1 bs) ≡ ok (p ∷ bs)
  decode_encode_1 buffer d p [] all h = tail_1 buffer d p h
  decode_encode_1 buffer d p (b ∷ bs) all h =
      let e = with_byte buffer b in
      let v = e / 2 ^ 4 % 32 in
      let d1 = with_symbol d v in
      rw (encode_from_1 buffer b bs all.0) (
        decode_from-full d 7 v p (encode_from e 4 bs) (b ∷ bs) (omega arith) (omega arith)
          (byte_1 buffer d p b all.0 h) (decode_encode_4 e d1 b bs all.1 (omega (arith, all.0))))

  decode_encode_4 :
      (buffer d p : ℕ) (bs : Bytes)
      → All IsByte bs
      → d % 2 ^ 4 * 2 ^ 4 + buffer % 2 ^ 4 ≡ p
      → decode_from d 4 (encode_from buffer 4 bs) ≡ ok (p ∷ bs)
  decode_encode_4 buffer d p [] all h = tail_4 buffer d p h
  decode_encode_4 buffer d p (b ∷ bs) all h =
      let e = with_byte buffer b in
      let v = e / 2 ^ 7 % 32 in
      let d1 = with_symbol d v in
      let w = e / 2 ^ 2 % 32 in
      let d2 = with_symbol d1 w in
      rw (encode_from_4 buffer b bs all.0) (
        decode_from-full d 4 v p (symbol w ∷ encode_from e 2 bs) (b ∷ bs) (omega arith)
          (omega arith) (byte_4 buffer d p b all.0 h)
          (decode_from-keep d1 1 w (encode_from e 2 bs) (b ∷ bs) (omega arith) (omega arith)
            (decode_encode_2 e d2 b bs all.1 (omega (arith, all.0)))))

  decode_encode_2 :
      (buffer d p : ℕ) (bs : Bytes)
      → All IsByte bs
      → d % 2 ^ 6 * 2 ^ 2 + buffer % 2 ^ 2 ≡ p
      → decode_from d 6 (encode_from buffer 2 bs) ≡ ok (p ∷ bs)
  decode_encode_2 buffer d p [] all h = tail_2 buffer d p h
  decode_encode_2 buffer d p (b ∷ bs) all h =
      let e = with_byte buffer b in
      let v = e / 2 ^ 5 % 32 in
      let d1 = with_symbol d v in
      let w = e / 2 ^ 0 % 32 in
      let d2 = with_symbol d1 w in
      rw (encode_from_2 buffer b bs all.0) (
        decode_from-full d 6 v p (symbol w ∷ encode_from e 0 bs) (b ∷ bs) (omega arith)
          (omega arith) (byte_2 buffer d p b all.0 h)
          (decode_from-full d1 3 w b (encode_from e 0 bs) bs (omega arith) (omega arith)
            (omega (arith, all.0)) (decode_encode_0 e d2 bs all.1)))

-- Every byte string is read back as it was written.
pub decode-encode : (bytes : Bytes) → All IsByte bytes → decode (encode bytes) ≡ ok bytes
unfolding decode encode
decode-encode bytes all = decode_encode_0 0 0 bytes all
