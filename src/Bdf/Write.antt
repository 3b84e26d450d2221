-- ===== src/Bdf/Write.antt =====
-- crates/bdf/src/write.rs: encoding BDF objects. The bytes pushed onto `out` are what is returned.
use onestein.Base.{ℕ, ◌-◌, ◌^◌, min, bit_or, [], ◌∷◌, ◌++◌, if◌then◌else◌, length, drop}
use onestein.Base.Bytes.{Bytes, to_be}
use onestein.Bdf.{
  Value, Items, Entries, null, bool, int, float, str, raw, list, dict, no_items, item, no_entries,
  entry, minimal_int_length,
}

abbrev pub end_byte : ℕ
end_byte = 0x80

unfoldable pub push_be : ℕ → ℕ → Bytes
push_be number n = drop (8 - n) (to_be 8 number)

-- `i64::try_from(len).unwrap_or(i64::MAX)`.
abbrev pub signed_length : ℕ → ℕ
signed_length n = min n (2 ^ 63 - 1)

unfoldable pub write_sized : ℕ → Bytes → Bytes
write_sized kind bytes =
    let n = signed_length (length bytes) in
    let size = minimal_int_length n in bit_or kind size ∷ (push_be n size ++ bytes)

unfoldable mutual
  pub to_bytes : Value → Bytes
  to_bytes null = 0x00 ∷ []
  to_bytes (bool set) = bit_or 0x10 (if set then 1 else 0) ∷ []
  to_bytes (int number) =
      let size = minimal_int_length number in bit_or 0x20 size ∷ push_be number size
  to_bytes (float number) = 0x38 ∷ to_be 8 number
  to_bytes (str text) = write_sized 0x40 text
  to_bytes (raw bytes) = write_sized 0x50 bytes
  to_bytes (list xs) = 0x60 ∷ (items_bytes xs ++ end_byte ∷ [])
  to_bytes (dict es) = 0x70 ∷ (entries_bytes es ++ end_byte ∷ [])

  pub items_bytes : Items → Bytes
  items_bytes no_items = []
  items_bytes (item v xs) = to_bytes v ++ items_bytes xs

  pub entries_bytes : Entries → Bytes
  entries_bytes no_entries = []
  entries_bytes (entry k v es) = write_sized 0x40 k ++ (to_bytes v ++ entries_bytes es)
