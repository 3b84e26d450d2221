-- ===== src/Bdf/Read.antt =====
-- crates/bdf/src/read.rs: decoding BDF objects. The reader's state is its unread input.
use onestein.Base.{
  ℕ, zero, suc, ◌+◌, ◌-◌, ◌*◌, ◌/◌, ◌%◌, ◌^◌, bit_and, bit_or, Bool, true, false, not, ◌&&◌, ◌||◌,
  Option, none, some, [], ◌∷◌, ltb, leb, ◌==◌, if◌then◌else◌, length, take, drop, Result, ok, err,
  ◌>>=◌, ◌>>◌, guard,
}
use onestein.Base.Bytes.{Bytes, from_be}
use Prim.Native.Nat.{Ordering}
use onestein.Base.Words.{u64_mod}
use onestein.Bdf.{
  Value, Items, Entries, null, bool, int, float, str, raw, list, dict, no_items, item, no_entries,
  entry, minimal_int_length, max_nesting, cmp_bytes,
}
use onestein.Bdf.Utf8.{is_utf8}
use onestein.Bdf.Write.{end_byte}

-- `out_of_fuel` has no counterpart in the program.
pub data Error : Type 0 where
  truncated : Error
  unknown_type : ℕ → Error
  invalid_int_length : ℕ → Error
  invalid_float_length : ℕ → Error
  invalid_length_of_length : ℕ → Error
  negative_length : ℕ → Error
  length_beyond_input : ℕ → ℕ → Error
  invalid_utf8 : Error
  unexpected_end : Error
  key_not_a_string : Error
  too_deeply_nested : Error
  trailing_bytes : ℕ → Error
  non_minimal_integer : ℕ → ℕ → Error
  non_minimal_length : ℕ → ℕ → Error
  keys_out_of_order : Error
  duplicate_key : Error
  out_of_fuel : Error

-- A read returns its value and the input that is left.
abbrev pub Read : Type 0 → Type 0
Read A = Result Error (A × Bytes)

abbrev pub byte : Bytes → Read ℕ
byte [] = err truncated
byte (b ∷ bs) = ok (b, bs)

unfoldable pub take_bytes : ℕ → Bytes → Read Bytes
take_bytes count bs =
    if ltb (length bs) count
    then err (length_beyond_input count (length bs))
    else ok (take count bs, drop count bs)

-- `i64::from(byte as i8)`.
abbrev pub sign_extend : ℕ → ℕ
sign_extend b = if ltb b 128 then b else b + (u64_mod - 256)

-- The rounds left, the value so far, and whether this is the first byte.
unfoldable pub signed_loop : ℕ → ℕ → Bool → Bytes → Read ℕ
signed_loop zero value first bs = ok (value, bs)
signed_loop (suc n) value first bs = do
  (b, rest) ← byte bs
  signed_loop n (if first then sign_extend b else bit_or (value * 2 ^ 8 % u64_mod) b) false rest

abbrev pub is_size : ℕ → Bool
is_size n = n == 1 || n == 2 || n == 4 || n == 8

unfoldable pub signed : ℕ → Bytes → Read ℕ
signed n bs = if is_size n then signed_loop n 0 true bs else err (invalid_int_length n)

unfoldable pub read_length : Bool → ℕ → Bytes → Read ℕ
read_length strict size bs = do
  guard (is_size size) (invalid_length_of_length size)
  (n, rest) ← signed size bs
  guard (not strict || minimal_int_length n == size)
      (non_minimal_length size (minimal_int_length n))
  guard (ltb n (2 ^ 63)) (negative_length n)
  ok (n, rest)

-- The cases of the match on the header's halves.
pub data Header : Type 0 where
  nothing open_list open_dict end_object : Header
  flag : Bool → Header
  sized_int sized_float sized_str sized_raw : ℕ → Header
  unknown : Header

abbrev pub by_kind : ℕ → ℕ → Header
by_kind kind low =
    if kind == 0 && low == 0
    then nothing
    else if kind == 1 && leb low 1
    then flag (low == 1)
    else if kind == 2
    then sized_int low
    else if kind == 3
    then sized_float low
    else if kind == 4
    then sized_str low
    else if kind == 5
    then sized_raw low
    else if kind == 6 && low == 0
    then open_list
    else if kind == 7 && low == 0
    then open_dict
    else if kind == 8
    then end_object
    else unknown

unfoldable pub classify : ℕ → Header
classify header = by_kind (header / 2 ^ 4) (bit_and header 0x0f)

unfoldable pub read_int : Bool → ℕ → Bytes → Read Value
read_int strict low bs = do
  (n, rest) ← signed low bs
  guard (not strict || minimal_int_length n == low) (non_minimal_integer low (minimal_int_length n))
  ok (int n, rest)

unfoldable pub read_float : ℕ → Bytes → Read Value
read_float low bs = do
  guard (low == 8) (invalid_float_length low)
  (bytes, rest) ← take_bytes 8 bs
  ok (float (from_be bytes), rest)

unfoldable pub read_str : Bool → ℕ → Bytes → Read Value
read_str strict low bs = do
  (n, rest) ← read_length strict low bs
  (bytes, rest') ← take_bytes n rest
  guard (is_utf8 bytes) invalid_utf8
  ok (str bytes, rest')

unfoldable pub read_raw : Bool → ℕ → Bytes → Read Value
read_raw strict low bs = do
  (n, rest) ← read_length strict low bs
  (bytes, rest') ← take_bytes n rest
  ok (raw bytes, rest')

abbrev pub deeper : ℕ → Result Error ℕ
deeper depth = if ltb max_nesting (depth + 1) then err too_deeply_nested else ok (depth + 1)

-- `self.peek() == Some(END)`.
abbrev pub at_end : Bytes → Bool
at_end [] = false
at_end (b ∷ bs) = b == end_byte

abbrev pub as_key : Value → Result Error Bytes
as_key (str k) = ok k
as_key _ = err key_not_a_string

-- A key against the last entry's, in strict mode.
abbrev pub check_order : Bool → Option Bytes → Bytes → Result Error (Unit {0})
check_order false previous key = ok tt
check_order true none key = ok tt
check_order true (some previous) key = elim (cmp_bytes key previous) [
  | Ordering.gt ↦ ok tt
  | Ordering.eq ↦ err duplicate_key
  | Ordering.lt ↦ err keys_out_of_order
]

-- The match of `value`, over the readers of what a container holds.
unfoldable pub read_object :
    Bool
    → ℕ
    → (ℕ → Bytes → Read Items)
    → (ℕ → Bytes → Read Entries)
    → ℕ
    → Header
    → Bytes
    → Read Value
read_object strict depth items entries header nothing bs = ok (null, bs)
read_object strict depth items entries header (flag b) bs = ok (bool b, bs)
read_object strict depth items entries header (sized_int low) bs = read_int strict low bs
read_object strict depth items entries header (sized_float low) bs = read_float low bs
read_object strict depth items entries header (sized_str low) bs = read_str strict low bs
read_object strict depth items entries header (sized_raw low) bs = read_raw strict low bs
read_object strict depth items entries header open_list bs = do
  depth' ← deeper depth
  (xs, rest) ← items depth' bs
  ok (list xs, rest)
read_object strict depth items entries header open_dict bs = do
  depth' ← deeper depth
  (es, rest) ← entries depth' bs
  ok (dict es, rest)
read_object strict depth items entries header end_object bs = err unexpected_end
read_object strict depth items entries header unknown bs = err (unknown_type header)

unfoldable mutual
  unfolding read_object

  pub read_value : ℕ → Bool → ℕ → Bytes → Read Value
  read_value zero strict depth bs = err out_of_fuel
  read_value (suc fuel) strict depth [] = err truncated
  read_value (suc fuel) strict depth (header ∷ bs) =
      read_object strict depth (λ d. read_items fuel strict d)
        (λ d. read_entries fuel strict d none) header (classify header) bs

  pub read_items : ℕ → Bool → ℕ → Bytes → Read Items
  read_items zero strict depth bs = err out_of_fuel
  read_items (suc fuel) strict depth bs = elim (at_end bs) [
    | true ↦ ok (no_items, drop 1 bs)
    | false ↦ read_value fuel strict depth bs >>= λ (v, rest).
        read_items fuel strict depth rest >>= λ (xs, rest'). ok (item v xs, rest')
  ]

  pub read_entries : ℕ → Bool → ℕ → Option Bytes → Bytes → Read Entries
  read_entries zero strict depth previous bs = err out_of_fuel
  read_entries (suc fuel) strict depth previous bs = elim (at_end bs) [
    | true ↦ ok (no_entries, drop 1 bs)
    | false ↦ read_value fuel strict depth bs >>= λ (k, rest). as_key k >>= λ key.
        check_order strict previous key
        >> (read_value fuel strict depth rest >>= λ (v, rest').
            read_entries fuel strict depth (some key) rest' >>= λ (es, rest'').
            ok (entry key v es, rest''))
  ]

-- Every call but the loops' own takes a byte, so two calls a byte are enough.
unfoldable pub read_one : Bool → Bytes → Result Error Value
read_one strict input = read_value (2 * length input + 1) strict 0 input >>= λ (v, rest).
    if length rest == 0 then ok v else err (trailing_bytes (length rest))

unfoldable pub from_bytes : Bytes → Result Error Value
from_bytes input = read_one false input

unfoldable pub from_bytes_canonical : Bytes → Result Error Value
from_bytes_canonical input = read_one true input
