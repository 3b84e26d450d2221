-- ===== src/Sync/Retention.antt =====
-- crates/sync/src/retention.rs: what a device keeps, on the wire, and what it may drop.
pub mod Exact
pub mod Droppable
use onestein.Base.{
  ℕ, zero, suc, ◌^◌, Option, some, ltb, ◌==◌, if◌then◌else◌, bytes_eq, Result, ok, err, ◌>>=◌, ◌>>◌,
  guard,
}
use onestein.Base.Bytes.{Bytes}
use onestein.Base.Text.{ascii}
use onestein.Bdf.{Value, Entries, int, str, dict, no_entries, entry}
use onestein.Bdf.Read.{Error as BdfError, from_bytes_canonical}
use onestein.Bdf.Write.{to_bytes}
use onestein.Identity.Fields.{find_field}
use onestein.Sync.Identifiers.{SyncError, malformed}

pub data Retention : Type 0 where
  keep_all : Retention
  keep_count : ℕ → Retention
  keep_age : ℕ → Retention

abbrev pub retention_fields : Retention → Entries
retention_fields keep_all = entry (ascii "k") (str (ascii "all")) no_entries
retention_fields (keep_count count) =
    entry (ascii "k") (str (ascii "count")) (entry (ascii "n") (int count) no_entries)
retention_fields (keep_age days) =
    entry (ascii "k") (str (ascii "age")) (entry (ascii "n") (int days) no_entries)

unfoldable pub encode_retention : Retention → Bytes
encode_retention retention = to_bytes (dict (retention_fields retention))

abbrev pub entries_in : Result BdfError Value → Result SyncError Entries
entries_in (ok (dict fields)) = ok fields
entries_in _ = err malformed

abbrev pub count_entries : Entries → ℕ
count_entries no_entries = 0
count_entries (entry key value rest) = suc (count_entries rest)

abbrev pub text_in : Option Value → Result SyncError Bytes
text_in (some (str kind)) = ok kind
text_in _ = err malformed

-- `u32::try_from` of an i64: the patterns below 2 ^ 32.
abbrev pub number_in : Option Value → Result SyncError ℕ
number_in (some (int number)) = if ltb number (2 ^ 32) then ok number else err malformed
number_in _ = err malformed

abbrev pub kind_of : Entries → Result SyncError Bytes
kind_of fields = text_in (find_field (ascii "k") fields)

abbrev pub number_of : Entries → Result SyncError ℕ
number_of fields = number_in (find_field (ascii "n") fields)

abbrev pub policy_of : Bytes → Entries → Result SyncError Retention
policy_of kind fields =
    if bytes_eq kind (ascii "all")
    then ok keep_all
    else if bytes_eq kind (ascii "count")
    then (do number ← number_of fields; ok (keep_count number))
    else if bytes_eq kind (ascii "age")
    then (do number ← number_of fields; ok (keep_age number))
    else err malformed

abbrev pub retention_of : Entries → Result SyncError Retention
retention_of fields = do
  kind ← kind_of fields
  guard (count_entries fields == (if bytes_eq kind (ascii "all") then 1 else 2)) malformed
  policy_of kind fields

unfoldable pub decode_retention : Bytes → Result SyncError Retention
decode_retention bytes = do fields ← entries_in (from_bytes_canonical bytes); retention_of fields
