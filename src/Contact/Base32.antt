-- ===== src/Contact/Base32.antt =====
-- crates/contact/src/base32.rs: RFC 4648 base32, upper case, without padding. A text is the code points of
-- its characters.
pub mod Symbols
pub mod RoundTrip
use onestein.Base.{
  ℕ, zero, suc, ◌+◌, ◌-◌, ◌*◌, ◌/◌, ◌%◌, ◌^◌, bit_and, bit_or, Bool, not, ◌&&◌, ◌||◌, Option, none,
  some, [], ◌∷◌, ◌++◌, ltb, leb, ◌==◌, if◌then◌else◌, get_or, Result, ok, err, ◌>>=◌, ◌>>◌, ok_or,
}
use onestein.Base.Bytes.{Bytes}
use onestein.Base.Text.{ascii}

abbrev pub alphabet : Bytes
alphabet = ascii "ABCDEFGHIJKLMNOPQRSTUVWXYZ234567"

pub data Error : Type 0 where
  not_base32 : ℕ → Error
  non_canonical_tail : Error

-- `u32` shifts to the left drop what leaves the word.
abbrev pub shl : ℕ → ℕ → ℕ
shl buffer bits = buffer * 2 ^ bits % 2 ^ 32

unfoldable pub symbol : ℕ → ℕ
symbol value = get_or alphabet value 0

-- `while bits >= 5`: the symbols, and the bits left. A round takes bits, so as many rounds are enough.
abbrev pub emit : ℕ → ℕ → ℕ → Bytes × ℕ
emit zero buffer bits = ([], bits)
emit (suc rounds) buffer bits =
    let (out, left) = emit rounds buffer (bits - 5) in
    if leb 5 bits then (symbol (bit_and (buffer / 2 ^ (bits - 5)) 0x1f) ∷ out, left) else ([], bits)

unfoldable pub encode_from : ℕ → ℕ → Bytes → Bytes
encode_from buffer bits [] =
    if ltb 0 bits then symbol (bit_and (shl buffer (5 - bits)) 0x1f) ∷ [] else []
encode_from buffer bits (b ∷ bs) =
    let next = bit_or (shl buffer 8) b in
    let (out, left) = emit (bits + 8) next (bits + 8) in out ++ encode_from next left bs

unfoldable pub encode : Bytes → Bytes
encode bytes = encode_from 0 0 bytes

-- `char::is_whitespace`.
abbrev pub is_whitespace : ℕ → Bool
is_whitespace c =
    (leb 0x09 c && leb c 0x0d)
    || (c == 0x20)
    || (c == 0x85)
    || (c == 0xa0)
    || (c == 0x1680)
    || (leb 0x2000 c && leb c 0x200a)
    || (c == 0x2028)
    || (c == 0x2029)
    || (c == 0x202f)
    || (c == 0x205f)
    || (c == 0x3000)

abbrev pub to_ascii_uppercase : ℕ → ℕ
to_ascii_uppercase c = if leb 0x61 c && leb c 0x7a then c - 0x20 else c

-- `ALPHABET.iter().position(|symbol| *symbol == byte)`.
abbrev pub position : ℕ → Bytes → Option ℕ
position c [] = none
position c (s ∷ ss) =
    let later = position c ss in
    if s == c then some 0 else elim later [ none ↦ none | some k ↦ some (suc k) ]

-- A character above 255 is no byte, and no symbol either.
unfoldable pub value_of : ℕ → Result Error ℕ
value_of c = ok_or (position (to_ascii_uppercase c) alphabet) (not_base32 c)

-- The five bits of a symbol behind the bits at hand, and the byte that they may fill.
abbrev pub push_value : ℕ → ℕ → ℕ → ℕ × ℕ × Bytes
push_value buffer bits value =
    let next = bit_or (shl buffer 5) value in
    if leb 8 (bits + 5)
    then (next, bits + 5 - 8, bit_and (next / 2 ^ (bits + 5 - 8)) 0xff ∷ [])
    else (next, bits + 5, [])

-- One character: the buffer, the bits in it, and what is pushed.
abbrev pub read_character : ℕ → ℕ → ℕ → Result Error (ℕ × ℕ × Bytes)
read_character buffer bits c =
    if is_whitespace c
    then ok (buffer, bits, [])
    else (value_of c >>= λ value. ok (push_value buffer bits value))

unfoldable pub decode_from : ℕ → ℕ → Bytes → Result Error Bytes
decode_from buffer bits [] =
    if ltb 0 bits && not (bit_and buffer (2 ^ bits - 1) == 0) then err non_canonical_tail else ok []
decode_from buffer bits (c ∷ cs) = do
  (next, left, pushed) ← read_character buffer bits c
  out ← decode_from next left cs
  ok (pushed ++ out)

unfoldable pub decode : Bytes → Result Error Bytes
decode text = decode_from 0 0 text
