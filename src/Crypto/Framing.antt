-- ===== src/Crypto/Framing.antt =====
-- crates/crypto: the boundaries between the parts cannot be moved.
use onestein.Base.{
  ◌^◌, ◌<◌, ◌≡◌, refl, sym, ap, ◌∙◌, List, [], ◌∷◌, ◌++◌, arith, length, take, drop, All,
  take-append, drop-append,
}
use onestein.Base.Bytes.{Bytes, to_be, from_be, from_be-to_be_lt}
use onestein.Crypto.{frame}

-- A part whose length is a u32, so that the code does not panic.
abbrev pub IsShort : Bytes → Type 0
IsShort part = length part < 2 ^ 32

-- The first part and what follows it are read off the framing.
module _ (x y xs ys : Bytes) (hx : IsShort x) (hy : IsShort y)
    (same : to_be 4 (length x) ++ (x ++ xs) ≡ to_be 4 (length y) ++ (y ++ ys)) where
  same_lengths : length x ≡ length y
  same_lengths =
      let front : to_be 4 (length x) ≡ to_be 4 (length y) = ap (take 4) same in
      sym (from_be-to_be_lt 4 (length x) (omega (arith, hx)))
      ∙ ap from_be front
      ∙ from_be-to_be_lt 4 (length y) (omega (arith, hy))

  same_parts : (x ≡ y) × (xs ≡ ys)
  same_parts =
      let rest : x ++ xs ≡ y ++ ys = ap (drop 4) same in
      (
        sym (take-append x xs (length x) refl)
            ∙ ap (take (length x)) rest
            ∙ take-append y ys (length x) (sym same_lengths),
        sym (drop-append x xs (length x) refl)
            ∙ ap (drop (length x)) rest
            ∙ drop-append y ys (length x) (sym same_lengths),
      )

-- Different lists of parts are framed differently, whatever their number and their lengths below
-- 2 ^ 32: the hash function sees different inputs.
pub frame_inj :
    (xs ys : List Bytes) → All IsShort xs → All IsShort ys → frame xs ≡ frame ys → xs ≡ ys
unfolding frame
frame_inj [] [] hx hy e = refl
frame_inj [] (y ∷ ys) hx hy e = cc
frame_inj (x ∷ xs) [] hx hy e = cc
frame_inj (x ∷ xs) (y ∷ ys) hx hy e =
    let (here, later) = same_parts x y (frame xs) (frame ys) hx.0 hy.0 e in
    let more = frame_inj xs ys hx.1 hy.1 later in cc (here, more)
