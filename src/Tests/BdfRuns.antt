-- ===== src/Tests/BdfRuns.antt =====
-- crates/bdf at a concrete value: {"a": [5, true], "b": null}.
use onestein.Base.{◌≡◌, refl, ◌≢◌, ◌↔◌, true, [], ◌∷◌, arith, All, ok, err}
use onestein.Base.Bytes.{Bytes, IsByte}
use onestein.Bdf.{
  Value, null, bool, int, list, dict, no_items, item, no_entries, entry, is_canonical,
  minimal_int_length,
}
use onestein.Bdf.Utf8.{is_utf8}
use onestein.Bdf.Write.{to_bytes, write_sized, push_be}
use onestein.Bdf.Read.{
  read_value, read_one, from_bytes, from_bytes_canonical, out_of_fuel, classify, read_str,
  read_length, signed, signed_loop, take_bytes, read_int,
}
use onestein.Bdf.Valid.{IsValid, IsText}
use onestein.Bdf.RoundTrip.{from_bytes-to_bytes}
use onestein.Bdf.Canonical.{from_bytes_canonical_iff, read_one-ne-out_of_fuel}

abbrev sample : Value
sample = dict (
    entry (97 ∷ []) (list (item (int 5) (item (bool true) no_items)))
      (entry (98 ∷ []) null no_entries))

abbrev wire : Bytes
wire = 0x70 ∷ 0x41 ∷ 1 ∷ 97 ∷ 0x60 ∷ 0x21 ∷ 5 ∷ 0x11 ∷ 0x80 ∷ 0x41 ∷ 1 ∷ 98 ∷ 0x00 ∷ 0x80 ∷ []

-- The number 5 on two bytes: lenient reading takes it, strict reading does not.
abbrev loose : Bytes
loose = 0x22 ∷ 0 ∷ 5 ∷ []

run_write : to_bytes sample ≡ wire
unfolding to_bytes write_sized minimal_int_length push_be
run_write = refl

run_read : from_bytes_canonical wire ≡ ok sample
unfolding from_bytes_canonical read_one read_value classify read_str read_length signed signed_loop
    minimal_int_length take_bytes is_utf8 read_int
run_read = refl

run_loose : from_bytes loose ≡ ok (int 5)
unfolding from_bytes read_one read_value classify read_int signed signed_loop
run_loose = refl

IsText-a : IsText (97 ∷ [])
unfolding is_utf8
IsText-a = (refl, (omega arith, tt), omega arith)

IsText-b : IsText (98 ∷ [])
unfolding is_utf8
IsText-b = (refl, (omega arith, tt), omega arith)

sample-IsValid : IsValid 0 sample
sample-IsValid =
    (omega arith, (IsText-a, (omega arith, (omega arith, (tt, tt))), (IsText-b, tt, tt)))

wire_bytes : All IsByte wire
wire_bytes = (
  omega arith,
  (
    omega arith,
    (
      omega arith,
      (
        omega arith,
        (
          omega arith,
          (
            omega arith,
            (
              omega arith,
              (
                omega arith,
                (
                  omega arith,
                  (omega arith, (omega arith, (omega arith, (omega arith, (omega arith, tt))))),
                ),
              ),
            ),
          ),
        ),
      ),
    ),
  ),
)

sample_canonical : is_canonical sample ≡ true
unfolding is_canonical
sample_canonical = refl

loose_bytes : All IsByte loose
loose_bytes = (omega arith, (omega arith, (omega arith, tt)))

from_bytes_canonical_iff_example :
    (from_bytes_canonical wire ≡ ok sample)
    ↔ (IsValid 0 sample × (is_canonical sample ≡ true) × (wire ≡ to_bytes sample))
from_bytes_canonical_iff_example = from_bytes_canonical_iff wire sample wire_bytes

from_bytes-to_bytes_example : from_bytes (to_bytes sample) ≡ ok sample
from_bytes-to_bytes_example = from_bytes-to_bytes sample sample-IsValid

read_one-ne-out_of_fuel_example : read_one true loose ≢ err out_of_fuel
read_one-ne-out_of_fuel_example = read_one-ne-out_of_fuel true loose loose_bytes
