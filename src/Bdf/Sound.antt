-- ===== src/Bdf/Sound.antt =====
-- crates/bdf: whatever the reader accepts is a valid value, and in strict mode its only encoding.
use onestein.Base.{
  ℕ, ◌+◌, ◌≤◌, ◌<◌, bit_or, ◌≡◌, refl, ap, ◌∙◌, ◌⊎◌, inl, inr, Bool, true, ◌&&◌, Option, none, ◌∷◌,
  ◌++◌, append_assoc, arith, if◌then◌else◌, length, All, ok, err,
}
use onestein.Base.Bytes.{Bytes, IsByte}
use onestein.Base.Bits.{bit_and-ones, bit_or-shl}
use mathlib.Core.Path.{ap₂}
use onestein.Bdf.{Value, Items, Entries, max_nesting, is_canonical, all_items, all_entries}
use onestein.Bdf.Write.{to_bytes, items_bytes, entries_bytes, end_byte, push_be}
use onestein.Bdf.Read.{
  Read, Header, nothing, flag, sized_int, sized_float, sized_str, sized_raw, open_list, open_dict,
  end_object, unknown, classify, deeper, too_deeply_nested, read_object,
}
use onestein.Bdf.Valid.{
  IsValid, AreValid, HoldValid, Ensures, holds, rejected, Ensures-bind, Ensures-map,
}
use onestein.Bdf.Order.{follows}
use onestein.Bdf.Sizes.{read_int-Ensures, read_float-Ensures}
use onestein.Bdf.Strings.{read_str-Ensures, read_raw-Ensures}

-- What each header stands for.
module _ (h : ℕ) (byte : IsByte h) where
  classify-nothing : classify h ≡ nothing → h ≡ 0
  unfolding classify
  classify-nothing e = ground (arith, bit_and-ones 4 h)

  classify_flag : (b : Bool) → classify h ≡ flag b → h ≡ bit_or 0x10 (if b then 1 else 0)
  unfolding classify
  classify_flag b e = ground (arith, bit_and-ones 4 h)

  classify_int : (low : ℕ) → classify h ≡ sized_int low → h ≡ bit_or 0x20 low
  unfolding classify
  classify_int low e = ground (arith, bit_and-ones 4 h, bit_or-shl 4 2 low)

  classify_float : classify h ≡ sized_float 8 → h ≡ 0x38
  unfolding classify
  classify_float e = ground (arith, bit_and-ones 4 h)

  classify_str : (low : ℕ) → classify h ≡ sized_str low → h ≡ bit_or 0x40 low
  unfolding classify
  classify_str low e = ground (arith, bit_and-ones 4 h, bit_or-shl 4 4 low)

  classify_raw : (low : ℕ) → classify h ≡ sized_raw low → h ≡ bit_or 0x50 low
  unfolding classify
  classify_raw low e = ground (arith, bit_and-ones 4 h, bit_or-shl 4 5 low)

  classify_list : classify h ≡ open_list → h ≡ 0x60
  unfolding classify
  classify_list e = ground (arith, bit_and-ones 4 h)

  classify_dict : classify h ≡ open_dict → h ≡ 0x70
  unfolding classify
  classify_dict e = ground (arith, bit_and-ones 4 h)

-- What has been read: bytes are left, and fewer; the value is valid; and in strict mode it is in
-- canonical form and the bytes that it was read from are its encoding.
abbrev pub Whole : Bool → ℕ → Bytes → Value → Bytes → Type 0
Whole strict depth bs v rest =
    All IsByte rest
    × (length rest < length bs)
    × IsValid depth v
    × (strict ≡ true → (is_canonical v ≡ true) × (bs ≡ to_bytes v ++ rest))

abbrev pub WholeItems : Bool → ℕ → Bytes → Items → Bytes → Type 0
WholeItems strict depth bs xs rest =
    All IsByte rest
    × (length rest < length bs)
    × AreValid depth xs
    × (strict ≡ true → (all_items xs ≡ true) × (bs ≡ items_bytes xs ++ (end_byte ∷ rest)))

abbrev pub WholeEntries : Bool → ℕ → Option Bytes → Bytes → Entries → Bytes → Type 0
WholeEntries strict depth previous bs es rest =
    All IsByte rest
    × (length rest < length bs)
    × HoldValid depth es
    × (strict ≡ true
        → (follows previous es ≡ true)
          × (all_entries es ≡ true)
          × (bs ≡ entries_bytes es ++ (end_byte ∷ rest)))

deeper_cases :
    (depth : ℕ)
    → ((depth + 1 ≤ max_nesting) × (deeper depth ≡ ok (depth + 1)))
      ⊎ (deeper depth ≡ err too_deeply_nested)
deeper_cases depth = ground arith

pub both : {a b : Bool} → a ≡ true → b ≡ true → (a && b) ≡ true
both p q = rw (p, q)

module _ (strict : Bool) (depth h : ℕ) (bs : Bytes) (byte : IsByte h) (bytes : All IsByte bs)
    (items : ℕ → Bytes → Read Items) (entries : ℕ → Bytes → Read Entries)
    (items_whole : Ensures (WholeItems strict (depth + 1) bs) (items (depth + 1) bs))
    (entries_whole : Ensures
      (WholeEntries strict (depth + 1) none bs)
      (entries (depth + 1) bs)) where
  pub object-Ensures :
      (c : Header)
      → classify h ≡ c
      → Ensures (Whole strict depth (h ∷ bs)) (read_object strict depth items entries h c bs)
  unfolding read_object is_canonical to_bytes
  object-Ensures nothing e =
      holds (bytes, omega arith, tt, λ _. (refl, ap (λ k. k ∷ bs) (classify-nothing h byte e)))
  object-Ensures (flag b) e =
      holds (bytes, omega arith, tt, λ _. (refl, ap (λ k. k ∷ bs) (classify_flag h byte b e)))
  object-Ensures (sized_int low) e =
      Ensures-map (read_int-Ensures strict low bs bytes)
        λ v rest ((left, size), (n, isv, lt, least)). (
          left,
          omega arith,
          rw isv lt,
          λ s. (
            rw isv refl,
            rw isv (
                ap₂ (λ k t. k ∷ t) (classify_int h byte low e) (least s).1
                ∙ ap (λ k. bit_or 0x20 k ∷ (push_be n k ++ rest)) (least s).0),
          ),
        )
  object-Ensures (sized_float low) e =
      Ensures-map (read_float-Ensures low bs bytes)
        λ v rest ((left, size), (n, isv, lt, eight, wire)). (
          left,
          omega arith,
          rw isv lt,
          λ s. (
            rw isv refl,
            rw isv (ap₂ (λ k t. k ∷ t) (classify_float h byte (e ∙ ap sized_float eight)) wire),
          ),
        )
  object-Ensures (sized_str low) e =
      Ensures-map (read_str-Ensures strict low bs bytes)
        λ v rest (b, isv, utf, ((left, size), israw, wire)). (
          left,
          omega arith,
          rw isv (utf, israw.0, israw.1),
          λ s. (rw isv refl, rw isv (ap (λ k. k ∷ bs) (classify_str h byte low e) ∙ wire s)),
        )
  object-Ensures (sized_raw low) e =
      Ensures-map (read_raw-Ensures strict low bs bytes)
        λ v rest (b, isv, ((left, size), israw, wire)). (
          left,
          omega arith,
          rw isv israw,
          λ s. (rw isv refl, rw isv (ap (λ k. k ∷ bs) (classify_raw h byte low e) ∙ wire s)),
        )
  object-Ensures open_list e = elim (deeper_cases depth) [
    | inl (fits, d) ↦ rw d (
        Ensures-bind _ items_whole λ xs rest (left, size, valid, canon). holds (
          left,
          omega arith,
          (fits, valid),
          λ s. (
            (canon s).0,
            rw append_assoc (ap₂ (λ k t. k ∷ t) (classify_list h byte e) (canon s).1),
          ),
        ))
    | inr d ↦ rw d (rejected (λ p. cc))
  ]
  object-Ensures open_dict e = elim (deeper_cases depth) [
    | inl (fits, d) ↦ rw d (
        Ensures-bind _ entries_whole λ es rest (left, size, valid, canon). holds (
          left,
          omega arith,
          (fits, valid),
          λ s. (
            both (canon s).0 (canon s).1,
            rw append_assoc (ap₂ (λ k t. k ∷ t) (classify_dict h byte e) (canon s).2),
          ),
        ))
    | inr d ↦ rw d (rejected (λ p. cc))
  ]
  object-Ensures end_object e = rejected (λ p. cc)
  object-Ensures unknown e = rejected (λ p. cc)
