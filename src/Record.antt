-- ===== src/Record.antt =====
-- crates/record/src/lib.rs: the record framing shared by the handshake, sync and relay layers.
pub mod Read
pub mod Stream
pub mod Codec
use onestein.Base.{
  ℕ, zero, suc, ◌+◌, ◌-◌, Bool, true, false, Option, none, some, [], ◌∷◌, ◌++◌, ltb, leb, ◌==◌,
  if◌then◌else◌, length, get_or, drop, slice?, Result, ok, err, ◌>>=◌, ◌>>◌, ok_or,
}
use onestein.Base.Bytes.{Bytes, to_be, from_be}

abbrev pub header_len : ℕ
header_len = 4

abbrev pub max_payload_len : ℕ
max_payload_len = 49152

pub record Record : Type 0 where
  pub version : ℕ
  pub record_type : ℕ
  pub payload : Bytes

pub data Error : Type 0 where
  payload_too_long : ℕ → Error
  -- Expected, then given.
  truncated : ℕ → ℕ → Error
  unknown_version : ℕ → ℕ → Error

-- `u16::try_from(len).ok().filter(|_| len <= MAX_PAYLOAD_LEN)`.
abbrev pub payload_length : ℕ → Option ℕ
payload_length n = if leb n 65535 then (if leb n max_payload_len then some n else none) else none

unfoldable pub encode : ℕ → ℕ → Bytes → Result Error Bytes
encode version record_type payload = do
  n ← ok_or (payload_length (length payload)) (payload_too_long (length payload))
  ok (version ∷ record_type ∷ (to_be 2 n ++ payload))

-- `rest` is `input[pos..]`: the reader looks at its input nowhere else.
pub record Reader : Type 0 where
  pub rest : Bytes
  pub version : ℕ
  pub stopped : Bool

abbrev pub reader : Bytes → ℕ → Reader
reader input version = record { rest = input; version = version; stopped = false }

abbrev pub remaining : Reader → ℕ
remaining r = length r.rest

abbrev pub Next : Type 0
Next = Option (Result Error Record) × Reader

-- The reader that refused: nothing is consumed, and it is stopped.
abbrev pub refuse : Error → Reader → Next
refuse e r = (some (err e), record r { stopped = true })

-- `self.input.get(start..end)?`, and the position moved behind the payload.
abbrev take_payload : ℕ → Reader → Next
take_payload n r = elim (slice? header_len (header_len + n) r.rest) [
  | none ↦ (none, record r { stopped = true })
  | some payload ↦ (
    some (
        ok (record {
          version = get_or r.rest 0 0;
          record_type = get_or r.rest 1 0;
          payload = payload;
        })),
    record r { rest = drop (header_len + n) r.rest; stopped = false },
  )
]

-- The refusals on a whole header, in their order.
abbrev check_header : Reader → Next
check_header r =
    let given = get_or r.rest 0 0 in
    let n = from_be (get_or r.rest 2 0 ∷ get_or r.rest 3 0 ∷ []) in
    let available = remaining r - header_len in
    if given == r.version
    then if ltb max_payload_len n
      then refuse (payload_too_long n) r
      else if ltb available n
      then refuse (truncated n available) r
      else take_payload n r
    else refuse (unknown_version r.version given) r

unfoldable pub next : Reader → Next
next r =
    if r.stopped
    then (none, r)
    else if remaining r == 0
    then (none, r)
    else if ltb (remaining r) header_len
    then refuse (truncated header_len (remaining r)) r
    else check_header r
