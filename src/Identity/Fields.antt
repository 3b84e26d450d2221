-- ===== src/Identity/Fields.antt =====
-- crates/identity/src/certificate.rs: a dictionary off canonical BDF, and its fields.
use onestein.Base.{
  ℕ, ◌^◌, Option, none, some, ltb, ◌==◌, if◌then◌else◌, length, bytes_eq, Result, ok, err, ◌>>◌,
  guard,
}
use onestein.Base.Bytes.{Bytes}
use onestein.Bdf.{Value, Entries, int, raw, dict, no_entries, entry}
use onestein.Bdf.Read.{Error as BdfError, from_bytes_canonical}
use onestein.Identity.{Error, malformed, out_of_range}

abbrev pub entries_of : Result BdfError Value → Result Error Entries
entries_of (ok (dict entries)) = ok entries
entries_of _ = err malformed

unfoldable pub dictionary : Bytes → Result Error Entries
dictionary bytes = entries_of (from_bytes_canonical bytes)

-- `fields.iter().find(|(name, _)| name == key)`.
abbrev pub find_field : Bytes → Entries → Option Value
find_field key no_entries = none
find_field key (entry name value rest) =
    if bytes_eq name key then some value else find_field key rest

abbrev pub raw_field : Entries → Bytes → Result Error Bytes
raw_field fields key = elim (find_field key fields) [
  | some (raw bytes) ↦ ok bytes
  | _ ↦ err malformed
]

-- The 64-bit pattern of the number.
abbrev pub integer_field : Entries → Bytes → Result Error ℕ
integer_field fields key = elim (find_field key fields) [
  | some (int number) ↦ ok number
  | _ ↦ err malformed
]

abbrev pub exact : ℕ → Bytes → Result Error Bytes
exact n bytes = do guard (length bytes == n) malformed; ok bytes

-- `i64::try_from` of a u64, and `u64::try_from` of an i64: the patterns below 2 ^ 63.
abbrev pub to_i64 : ℕ → Result Error ℕ
to_i64 number = do guard (ltb number (2 ^ 63)) out_of_range; ok number

abbrev pub to_u64 : ℕ → Result Error ℕ
to_u64 pattern = do guard (ltb pattern (2 ^ 63)) malformed; ok pattern
