-- ===== src/Tests/RecordRuns.antt =====
-- crates/record/src/lib.rs at concrete records.
use onestein.Base.{
  ℕ, ◌≡◌, refl, ◌≢◌, true, none, some, [], ◌∷◌, ◌++◌, arith, leb, if◌then◌else◌, All, Result, ok,
  err,
}
use onestein.Base.Bytes.{Bytes, IsByte}
use onestein.Record.{Record, encode, Reader, reader, next, truncated}
use onestein.Record.Read.{next_sound}
use onestein.Record.Stream.{drain, traverse, encode_all, drain-encode_all, drain-ne-none}

abbrev first : Record
first = record { version = 1; record_type = 7; payload = 10 ∷ 20 ∷ [] }

abbrev second : Record
second = record { version = 1; record_type = 8; payload = [] }

-- Two records on the wire.
abbrev wire : Bytes
wire = 1 ∷ 7 ∷ 0 ∷ 2 ∷ 10 ∷ 20 ∷ 1 ∷ 8 ∷ 0 ∷ 0 ∷ []

wire_bytes : All IsByte wire
wire_bytes = (
  omega arith,
  (
    omega arith,
    (
      omega arith,
      (
        omega arith,
        (
          omega arith,
          (omega arith, (omega arith, (omega arith, (omega arith, (omega arith, tt))))),
        ),
      ),
    ),
  ),
)

run_encode : encode 1 7 (10 ∷ 20 ∷ []) ≡ ok (1 ∷ 7 ∷ 0 ∷ 2 ∷ 10 ∷ 20 ∷ [])
unfolding encode
run_encode = refl

run_all : encode_all (first ∷ second ∷ []) ≡ ok wire
unfolding encode
run_all = refl

run_next : next (reader wire 1) ≡ (some (ok first), reader (1 ∷ 8 ∷ 0 ∷ 0 ∷ []) 1)
unfolding next
run_next = refl

run_truncated : next (reader (1 ∷ 7 ∷ 0 ∷ 2 ∷ 10 ∷ []) 1) ≡ (
  some (err (truncated 2 1)),
  record { rest = 1 ∷ 7 ∷ 0 ∷ 2 ∷ 10 ∷ []; version = 1; stopped = true },
)
unfolding next
run_truncated = refl

-- The reader behind the first record, and the one that refused a record cut short.
abbrev behind : Reader
behind = reader (1 ∷ 8 ∷ 0 ∷ 0 ∷ []) 1

abbrev cut : Bytes
cut = 1 ∷ 7 ∷ 0 ∷ 2 ∷ 10 ∷ []

abbrev halted : Reader
halted = record { rest = cut; version = 1; stopped = true }

next_sound_example :
    (bs : Bytes) × (encode first.version first.record_type first.payload ≡ ok bs)
    × (wire ≡ bs ++ behind.rest)
    × (first.version ≡ (reader wire 1).version)
    × (behind ≡ reader behind.rest 1)
next_sound_example = next_sound (reader wire 1) behind first wire_bytes run_next

-- A caller that keeps the type bytes and knows 7 and 8 only.
abbrev known : Record → Result ℕ ℕ
known rec = if leb rec.record_type 8 then ok rec.record_type else err 1

drain-encode_all_example :
    drain (λ _. 0) known 3 (reader wire 1) ≡ some (traverse (λ _. 0) known (first ∷ second ∷ []))
drain-encode_all_example =
    drain-encode_all (λ _. 0) known 3 1 (first ∷ second ∷ []) wire (refl, (refl, tt)) run_all
      (omega arith)

drain-ne-none_example : drain (λ _. 0) known 11 (reader wire 1) ≢ none
drain-ne-none_example = drain-ne-none (λ _. 0) known 11 (reader wire 1) wire_bytes (omega arith)
