-- ===== src/Bdf/Extent.antt =====
-- crates/bdf/src/write.rs: what is written is bytes, and how many at most.
use onestein.Base.{
  ℕ, ◌+◌, ◌-◌, ◌≤◌, ◌<◌, bit_or, ◌≡◌, refl, ◌⊎◌, inl, inr, true, false, [], ◌∷◌, ◌++◌, arith,
  length, All, length-append, length-drop, All-append, All-drop,
}
use onestein.Base.Bytes.{Bytes, IsByte, to_be, length-to_be, to_be-IsByte}
use onestein.Bdf.{
  Value, Items, Entries, null, bool, int, float, str, raw, list, dict, no_items, item, no_entries,
  entry, minimal_int_length,
}
use onestein.Bdf.Ints.{IsSize, IsSize-elim, minimal-IsSize}
use onestein.Bdf.Valid.{IsValid, AreValid, HoldValid}
use onestein.Bdf.Write.{
  push_be, write_sized, to_bytes, items_bytes, entries_bytes, signed_length, end_byte,
}

header_byte :
    (kind n : ℕ) → IsSize n → kind ≡ 0x20 ⊎ (kind ≡ 0x40 ⊎ kind ≡ 0x50) → bit_or kind n < 256
header_byte kind n h (inl e) = rw e (
    IsSize-elim (λ k. bit_or 0x20 k < 256) (omega arith) (omega arith) (omega arith) (omega arith) n
      h)
header_byte kind n h (inr (inl e)) = rw e (
    IsSize-elim (λ k. bit_or 0x40 k < 256) (omega arith) (omega arith) (omega arith) (omega arith) n
      h)
header_byte kind n h (inr (inr e)) = rw e (
    IsSize-elim (λ k. bit_or 0x50 k < 256) (omega arith) (omega arith) (omega arith) (omega arith) n
      h)

push_be-IsByte : (x n : ℕ) → All IsByte (push_be x n)
unfolding push_be
push_be-IsByte x n = All-drop IsByte (8 - n) (to_be 8 x) (to_be-IsByte 8 x)

length-push_be : (x n : ℕ) → length (push_be x n) ≤ 8
unfolding push_be
length-push_be x n = omega (arith, length-drop (8 - n) (to_be 8 x), length-to_be 8 x)

write_sized-IsByte :
    (kind : ℕ) (bs : Bytes)
    → kind ≡ 0x20 ⊎ (kind ≡ 0x40 ⊎ kind ≡ 0x50)
    → All IsByte bs
    → All IsByte (write_sized kind bs)
unfolding write_sized
write_sized-IsByte kind bs k h = (
  header_byte kind _ (minimal-IsSize (signed_length (length bs))) k,
  All-append IsByte _ bs (push_be-IsByte _ _) h,
)

length-write_sized : (kind : ℕ) (bs : Bytes) → length (write_sized kind bs) ≤ length bs + 9
unfolding write_sized
length-write_sized kind bs =
    let n = signed_length (length bs) in
    omega (
      arith,
      length-append (push_be n (minimal_int_length n)) bs,
      length-push_be n (minimal_int_length n),
    )

mutual
  unfolding to_bytes

  pub to_bytes-IsByte : (depth : ℕ) (v : Value) → IsValid depth v → All IsByte (to_bytes v)
  to_bytes-IsByte depth null h = (omega arith, tt)
  to_bytes-IsByte depth (bool true) h = (omega arith, tt)
  to_bytes-IsByte depth (bool false) h = (omega arith, tt)
  to_bytes-IsByte depth (int n) h =
      (header_byte 0x20 _ (minimal-IsSize n) (inl refl), push_be-IsByte n _)
  to_bytes-IsByte depth (float n) h = (omega arith, to_be-IsByte 8 n)
  to_bytes-IsByte depth (str bs) h = write_sized-IsByte 0x40 bs (inr (inl refl)) h.1
  to_bytes-IsByte depth (raw bs) h = write_sized-IsByte 0x50 bs (inr (inr refl)) h.0
  to_bytes-IsByte depth (list xs) h = (
    omega arith,
    All-append IsByte (items_bytes xs) _ (items_bytes-IsByte (depth + 1) xs h.1) (omega arith, tt),
  )
  to_bytes-IsByte depth (dict es) h = (
    omega arith,
    All-append IsByte (entries_bytes es) _ (entries_bytes-IsByte (depth + 1) es h.1)
        (omega arith, tt),
  )

  items_bytes-IsByte : (depth : ℕ) (xs : Items) → AreValid depth xs → All IsByte (items_bytes xs)
  items_bytes-IsByte depth no_items h = tt
  items_bytes-IsByte depth (item v xs) h =
      All-append IsByte (to_bytes v) _ (to_bytes-IsByte depth v h.0)
        (items_bytes-IsByte depth xs h.1)

  entries_bytes-IsByte :
      (depth : ℕ) (es : Entries) → HoldValid depth es → All IsByte (entries_bytes es)
  entries_bytes-IsByte depth no_entries h = tt
  entries_bytes-IsByte depth (entry k v es) h =
      All-append IsByte (write_sized 0x40 k) _ (write_sized-IsByte 0x40 k (inr (inl refl)) h.0.1) (
        All-append IsByte (to_bytes v) _ (to_bytes-IsByte depth v h.1)
          (entries_bytes-IsByte depth es h.2))

-- A bound on the bytes of a value, by the lengths in it.
abbrev mutual
  pub extent : Value → ℕ
  extent null = 1
  extent (bool b) = 1
  extent (int n) = 9
  extent (float n) = 9
  extent (str bs) = length bs + 9
  extent (raw bs) = length bs + 9
  extent (list xs) = extent_items xs + 2
  extent (dict es) = extent_entries es + 2

  extent_items : Items → ℕ
  extent_items no_items = 0
  extent_items (item v xs) = extent v + extent_items xs

  extent_entries : Entries → ℕ
  extent_entries no_entries = 0
  extent_entries (entry k v es) = length k + 9 + extent v + extent_entries es

mutual
  unfolding to_bytes

  pub length-to_bytes : (v : Value) → length (to_bytes v) ≤ extent v
  length-to_bytes null = omega arith
  length-to_bytes (bool b) = omega arith
  length-to_bytes (int n) = omega (arith, length-push_be n (minimal_int_length n))
  length-to_bytes (float n) = omega (arith, length-to_be 8 n)
  length-to_bytes (str bs) = length-write_sized 0x40 bs
  length-to_bytes (raw bs) = length-write_sized 0x50 bs
  length-to_bytes (list xs) =
      omega (arith, length-append (items_bytes xs) (end_byte ∷ []), length-items_bytes xs)
  length-to_bytes (dict es) =
      omega (arith, length-append (entries_bytes es) (end_byte ∷ []), length-entries_bytes es)

  length-items_bytes : (xs : Items) → length (items_bytes xs) ≤ extent_items xs
  length-items_bytes no_items = omega arith
  length-items_bytes (item v xs) =
      omega (
        arith,
        length-append (to_bytes v) (items_bytes xs),
        length-to_bytes v,
        length-items_bytes xs,
      )

  length-entries_bytes : (es : Entries) → length (entries_bytes es) ≤ extent_entries es
  length-entries_bytes no_entries = omega arith
  length-entries_bytes (entry k v es) = omega (
    arith,
    length-append (write_sized 0x40 k) (to_bytes v ++ entries_bytes es),
    length-append (to_bytes v) (entries_bytes es),
    length-write_sized 0x40 k,
    length-to_bytes v,
    length-entries_bytes es,
  )
