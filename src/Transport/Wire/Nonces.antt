-- ===== src/Transport/Wire/Nonces.antt =====
-- crates/transport/src/wire.rs: no two frames of a stream, and no header and body, share a nonce.
use onestein.Base.{
  ℕ, ◌+◌, ◌^◌, ◌≤◌, ◌<◌, ◌≡◌, refl, sym, ap, ◌∙◌, Bool, true, false, arith, if◌then◌else◌, take, ok,
}
use onestein.Base.Bytes.{fill, Bytes, to_be, from_be, from_be-to_be_lt}
use onestein.Base.Bits.{bit_or-pow}
use onestein.Transport.Wire.{frame_nonce, max_frame_number, nonce_len}

numbered : ℕ → Bool → ℕ
numbered n is_header = if is_header then n + 2 ^ 63 else n

frame_nonce_shape :
    (n : ℕ) (is_header : Bool) {nonce : Bytes}
    → frame_nonce n is_header ≡ ok nonce
    → (n ≤ max_frame_number) × (fill nonce_len (to_be 8 (numbered n is_header)) ≡ nonce)
unfolding frame_nonce numbered
frame_nonce_shape n true h = ground (arith, bit_or-pow 63 n)
frame_nonce_shape n false h = ground arith

number_at : (x : ℕ) → x < 2 ^ 64 → from_be (take 8 (fill nonce_len (to_be 8 x))) ≡ x
number_at x lt = from_be-to_be_lt 8 x (omega (arith, lt))

-- A nonce is used for one frame number of a stream, and for its header or its body.
pub frame_nonce_inj :
    (n m : ℕ) (is_header is_header' : Bool) (nonce : Bytes)
    → frame_nonce n is_header ≡ ok nonce
    → frame_nonce m is_header' ≡ ok nonce
    → (n ≡ m) × (is_header ≡ is_header')
unfolding numbered
frame_nonce_inj n m b b' nonce h h' =
    let (small, shape) = frame_nonce_shape n b h in
    let (small', shape') = frame_nonce_shape m b' h' in
    let same : numbered n b ≡ numbered m b' =
      sym (number_at (numbered n b) (ground arith))
      ∙ ap (λ t. from_be (take 8 t)) (shape ∙ sym shape')
      ∙ number_at (numbered m b') (ground arith) in
    split b b' small small' same
  where
    split :
        (c c' : Bool)
        → n ≤ max_frame_number
        → m ≤ max_frame_number
        → numbered n c ≡ numbered m c'
        → (n ≡ m) × (c ≡ c')
    split true true l l' e = (omega (arith, e), refl)
    split false false l l' e = (e, refl)
    split true false l l' e = absurd (omega (arith, e))
    split false true l l' e = absurd (omega (arith, e))
