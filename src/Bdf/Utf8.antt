-- ===== src/Bdf/Utf8.antt =====
-- UTF-8 validity, as `String::from_utf8` of the standard library decides it.
use onestein.Base.{
  ℕ, zero, suc, Bool, true, false, ◌&&◌, ◌||◌, Option, none, some, [], ◌∷◌, ltb, leb, ◌==◌,
  if◌then◌else◌,
}
use onestein.Base.Bytes.{Bytes}

-- What may follow: the start of a character, or a number of continuation bytes of which the first
-- lies in a range of its own.
pub data Expect : Type 0 where
  start : Expect
  continuation : ℕ → ℕ → ℕ → Expect

abbrev between : ℕ → ℕ → ℕ → Bool
between lo hi b = leb lo b && leb b hi

-- The leading byte of a character, and the bytes that it asks for.
abbrev lead : ℕ → Option Expect
lead b =
    if ltb b 0x80
    then some start
    else if between 0xc2 0xdf b
    then some (continuation 0 0x80 0xbf)
    else if b == 0xe0
    then some (continuation 1 0xa0 0xbf)
    else if between 0xe1 0xec b || between 0xee 0xef b
    then some (continuation 1 0x80 0xbf)
    else if b == 0xed
    then some (continuation 1 0x80 0x9f)
    else if b == 0xf0
    then some (continuation 2 0x90 0xbf)
    else if between 0xf1 0xf3 b
    then some (continuation 2 0x80 0xbf)
    else if b == 0xf4
    then some (continuation 2 0x80 0x8f)
    else none

abbrev follow : Expect → ℕ → Option Expect
follow start b = lead b
follow (continuation zero lo hi) b = if between lo hi b then some start else none
follow (continuation (suc more) lo hi) b =
    if between lo hi b then some (continuation more 0x80 0xbf) else none

unfoldable pub scan : Option Expect → Bytes → Bool
scan none bs = false
scan (some start) [] = true
scan (some (continuation n lo hi)) [] = false
scan (some e) (b ∷ bs) = scan (follow e b) bs

unfoldable pub is_utf8 : Bytes → Bool
unfolding scan
is_utf8 bs = scan (some start) bs
