-- ===== src/Transport/Wire/Frames.antt =====
-- crates/transport/src/wire.rs: frames are opened as they were sealed, and no header announces more than
-- a frame holds.
use onestein.Base.{
  ℕ, ◌+◌, ◌-◌, ◌*◌, ◌/◌, ◌%◌, ◌^◌, ◌≤◌, ◌<◌, ◌≡◌, refl, sym, ap, ◌∙◌, subst, Bool, true, false, not,
  ◌++◌, arith, ◌==◌, ==_iff, length, take, replicate, length-append, length-replicate, take-append,
  ok, ok_or, >>=-eq-ok,
}
use onestein.Base.Bytes.{fill-whole, Bytes, to_be, from_be-to_be_lt}
use onestein.Base.Bits.{bit_or-pow, bit_and-pow, bit_and-ones}
use onestein.Transport.Wire.{
  not_decrypted, Cipher, IsCipher, FrameHeader, max_frame_payload, frame_nonce, payload_len,
  header_bytes, header_of, seal_frame_header, open_frame_header, seal_frame_body, open_frame_body,
  frame_header_len, auth_len,
}

-- The flag is the top bit of the first number, and the length is what is under it.
header_of_numbers :
    (flagged padding_len : ℕ)
    → flagged < 2 ^ 16
    → padding_len < 2 ^ 16
    → header_of (to_be 2 flagged ++ to_be 2 padding_len) ≡ record {
      data_len = flagged % 2 ^ 15;
      padding_len = padding_len;
      final_frame = not (flagged / 2 ^ 15 % 2 * 2 ^ 15 == 0);
    }
unfolding header_of
header_of_numbers flagged padding_len h h' =
    rw
      (
        from_be-to_be_lt 2 flagged (omega (arith, h)),
        from_be-to_be_lt 2 padding_len (omega (arith, h')),
        bit_and-ones 15 flagged,
        bit_and-pow 15 flagged,
      )
      refl

-- A header whose numbers fit a frame leaves the flag bit free.
header_of-header_bytes :
    (header : FrameHeader)
    → header.data_len + header.padding_len ≤ max_frame_payload
    → header_of (header_bytes header) ≡ header
unfolding header_bytes
header_of-header_bytes header fits =
    by_flag header.data_len header.padding_len header.final_frame fits
  where
    by_flag :
        (d p : ℕ) (final_frame : Bool)
        → d + p ≤ max_frame_payload
        → header_of
            (header_bytes (record { data_len = d; padding_len = p; final_frame = final_frame }))
          ≡ record { data_len = d; padding_len = p; final_frame = final_frame }
    by_flag d p true le = rw (bit_or-pow 15 d (omega (arith, le))) (
        header_of_numbers (d + 2 ^ 15) p (omega (arith, le)) (omega (arith, le))
        ∙ ground (arith, le))
    by_flag d p false le =
        header_of_numbers d p (omega (arith, le)) (omega (arith, le)) ∙ ground (arith, le)

length-header_bytes : (header : FrameHeader) → length (header_bytes header) ≡ 4
unfolding header_bytes
length-header_bytes header = refl

payload_len_fits :
    (d p : ℕ) {total : ℕ}
    → payload_len d p ≡ ok total
    → (total ≡ d + p) × (d + p ≤ max_frame_payload)
unfolding payload_len
payload_len_fits d p h = ground arith

payload_len_ok : (d p : ℕ) → d + p ≤ max_frame_payload → payload_len d p ≡ ok (d + p)
unfolding payload_len
payload_len_ok d p h = ground arith

module _ (cipher : Cipher) where
  -- Whatever the sender wrote, a header that is accepted announces no more than a frame holds.
  pub open_frame_header_bounds :
      (cipher_key bytes : Bytes) (frame_number : ℕ) (header : FrameHeader)
      → open_frame_header cipher cipher_key frame_number bytes ≡ ok header
      → header.data_len + header.padding_len ≤ max_frame_payload
  unfolding open_frame_header
  open_frame_header_bounds cipher_key bytes frame_number header h =
      let (nonce, _, h1) = >>=-eq-ok (frame_nonce frame_number true) _ h in
      let (text, _, h2) =
        >>=-eq-ok (ok_or (cipher.decrypt cipher_key nonce bytes) not_decrypted) _ h1 in
      let (total, fits, same) =
        >>=-eq-ok (payload_len (header_of text).data_len (header_of text).padding_len) _ h2 in
      let opened : header_of text ≡ header = cc in rw (← opened) (payload_len_fits _ _ fits).1

  module _ (sound : IsCipher cipher) (cipher_key : Bytes) (frame_number : ℕ) where
    open_frame_header-seal_frame_header :
        (header : FrameHeader) (bytes : Bytes)
        → seal_frame_header cipher cipher_key frame_number header ≡ ok bytes
        → open_frame_header cipher cipher_key frame_number bytes ≡ ok header
    unfolding seal_frame_header open_frame_header
    open_frame_header-seal_frame_header header bytes h =
        let (total, fits, h1) = >>=-eq-ok (payload_len header.data_len header.padding_len) _ h in
        let (nonce, numbered, h2) = >>=-eq-ok (frame_nonce frame_number true) _ h1 in
        let le = (payload_len_fits _ _ fits).1 in
        let back = header_of-header_bytes header le in
        let whole =
          fill-whole (cipher.encrypt cipher_key nonce (header_bytes header)) frame_header_len (
            sound.length-encrypt cipher_key nonce (header_bytes header)
            ∙ omega (arith, length-header_bytes header)) in
        let wire : cipher.encrypt cipher_key nonce (header_bytes header) ≡ bytes = cc (whole, h2) in
        rw (← wire, numbered, sound.decrypt-encrypt cipher_key nonce (header_bytes header), back)
          (rw fits refl)

    sealed_length :
        (content nonce : Bytes) (padding_len : ℕ)
        → length (
            cipher.encrypt cipher_key nonce
              (content ++ replicate (length content + padding_len - length content) 0))
          ≡ length content + padding_len + auth_len
    sealed_length content nonce padding_len =
        let pad = length content + padding_len - length content in
        omega (
          arith,
          sound.length-encrypt cipher_key nonce (content ++ replicate pad 0),
          length-append content (replicate pad 0),
          length-replicate {0} {A = ℕ} pad 0,
        )

    open_frame_body-seal_frame_body :
        (content bytes : Bytes) (padding_len : ℕ) (final_frame : Bool)
        → seal_frame_body cipher cipher_key frame_number content padding_len ≡ ok bytes
        → open_frame_body cipher cipher_key frame_number
            (record {
              data_len = length content;
              padding_len = padding_len;
              final_frame = final_frame;
            })
            bytes
          ≡ ok content
    unfolding seal_frame_body open_frame_body
    open_frame_body-seal_frame_body content bytes padding_len final_frame h =
        let (total, fits, h1) = >>=-eq-ok (payload_len (length content) padding_len) _ h in
        let (nonce, numbered, h2) = >>=-eq-ok (frame_nonce frame_number false) _ h1 in
        let sum : total ≡ length content + padding_len = (payload_len_fits _ _ fits).0 in
        let text = content ++ replicate (length content + padding_len - length content) 0 in
        let sealed = cipher.encrypt cipher_key nonce text in
        let wire : sealed ≡ bytes = cc in
        let room : payload_len (length content) padding_len ≡ ok (length content + padding_len) =
          fits ∙ ap ok sum in
        let announced : (length sealed - auth_len == length content + padding_len) ≡ true =
          (==_iff (length sealed - auth_len) (length content + padding_len)).1
            (omega (arith, sealed_length content nonce padding_len)) in
        let front : take (length content) text ≡ content =
          take-append content _ (length content) refl in
        subst
          (λ b.
            open_frame_body cipher cipher_key frame_number
              (record {
                data_len = length content;
                padding_len = padding_len;
                final_frame = final_frame;
              })
              b
            ≡ ok content)
          wire
          (rw (room, announced, numbered, sound.decrypt-encrypt cipher_key nonce text, front) refl)

    -- A frame is opened as it was sealed: its header, and its data without the padding.
    pub open_frame-seal_frame :
        (header : FrameHeader) (content header_bytes body_bytes : Bytes)
        → header.data_len ≡ length content
        → seal_frame_header cipher cipher_key frame_number header ≡ ok header_bytes
        → seal_frame_body cipher cipher_key frame_number content header.padding_len ≡ ok body_bytes
        → (open_frame_header cipher cipher_key frame_number header_bytes ≡ ok header)
          × (open_frame_body cipher cipher_key frame_number header body_bytes ≡ ok content)
    open_frame-seal_frame header content header_bytes body_bytes size h h' = (
      open_frame_header-seal_frame_header header header_bytes h,
      subst
          (λ n.
            open_frame_body cipher cipher_key frame_number (record header { data_len = n })
              body_bytes
            ≡ ok content)
          (sym size)
          (open_frame_body-seal_frame_body content body_bytes header.padding_len header.final_frame
            h'),
    )
