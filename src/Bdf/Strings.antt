-- ===== src/Bdf/Strings.antt =====
-- crates/bdf: the sized objects, integers and floats behind their header.
use onestein.Base.{
  ℕ, ◌^◌, ◌<◌, bit_or, ◌≡◌, refl, ap, Bool, true, ◌∷◌, ◌++◌, append_assoc, arith, ◌==◌, ==_refl,
  length, All, ok,
}
use onestein.Base.Bytes.{Bytes, IsByte, to_be, from_be-to_be_lt}
use onestein.Base.Words.{u64_mod}
use onestein.Bdf.{int, float, str, raw, minimal_int_length}
use onestein.Bdf.Utf8.{is_utf8}
use onestein.Bdf.Write.{push_be, write_sized, signed_length}
use onestein.Bdf.Read.{read_length, read_int, read_float, read_str, read_raw, invalid_utf8}
use onestein.Bdf.Ints.{minimal-IsSize, IsSize→is_size}
use onestein.Bdf.Valid.{IsRaw, IsText, Ensures, holds, Ensures-bind, Ensures-guard}
use onestein.Bdf.Sizes.{
  Sized, signed-push_be, read_length-Ensures, take_bytes-Ensures, take_bytes-append, Sized-if_taken,
}

pub read_raw-Ensures :
    (strict : Bool) (low : ℕ) (bs : Bytes)
    → All IsByte bs
    → Ensures
        (λ v rest. (bytes : Bytes) × (v ≡ raw bytes) × Sized strict 0x50 low bs bytes rest)
        (read_raw strict low bs)
unfolding read_raw
read_raw-Ensures strict low bs h =
    Ensures-bind _ (read_length-Ensures strict low bs h) λ n behind len.
      Ensures-bind _ (take_bytes-Ensures n behind) λ bytes rest (split, size).
        holds (bytes, refl, Sized-if_taken strict 0x50 low n bs behind bytes rest len split size)

pub read_str-Ensures :
    (strict : Bool) (low : ℕ) (bs : Bytes)
    → All IsByte bs
    → Ensures
        (λ v rest.
          (bytes : Bytes) × (v ≡ str bytes)
          × (is_utf8 bytes ≡ true)
          × Sized strict 0x40 low bs bytes rest)
        (read_str strict low bs)
unfolding read_str
read_str-Ensures strict low bs h =
    Ensures-bind _ (read_length-Ensures strict low bs h) λ n behind len.
      Ensures-bind _ (take_bytes-Ensures n behind) λ bytes rest (split, size).
        Ensures-guard (is_utf8 bytes) invalid_utf8 _ (λ e. cc)
          λ valid. holds (
            bytes,
            refl,
            valid,
            Sized-if_taken strict 0x40 low n bs behind bytes rest len split size,
          )

same_length : (n : ℕ) → (n == n) ≡ true
same_length n = ==_refl n

-- What the writer puts behind a header is read back, in both modes.
pub read_int-push_be :
    (strict : Bool) (n : ℕ) (rest : Bytes)
    → n < u64_mod
    → read_int strict (minimal_int_length n) (push_be n (minimal_int_length n) ++ rest)
      ≡ ok (int n, rest)
unfolding read_int
read_int-push_be strict n rest h =
    rw (signed-push_be n rest h) (ground (arith, ==_refl (minimal_int_length n)))

read_length-push_be :
    (strict : Bool) (n : ℕ) (rest : Bytes)
    → n < 2 ^ 63
    → read_length strict (minimal_int_length n) (push_be n (minimal_int_length n) ++ rest)
      ≡ ok (n, rest)
unfolding read_length
read_length-push_be strict n rest h =
    rw (IsSize→is_size _ (minimal-IsSize n), signed-push_be n rest (omega arith))
      (ground (arith, ==_refl (minimal_int_length n)))

pub read_float-to_be :
    (n : ℕ) (rest : Bytes) → n < u64_mod → read_float 8 (to_be 8 n ++ rest) ≡ ok (float n, rest)
unfolding read_float
read_float-to_be n rest h =
    rw (take_bytes-append (to_be 8 n) rest) (ap (λ k. ok (float k, rest)) (from_be-to_be_lt 8 n h))

-- The bytes behind the header of a sized object.
abbrev pub sized_body : Bytes → Bytes
sized_body bytes = push_be (length bytes) (minimal_int_length (length bytes)) ++ bytes

pub write_sized_lem :
    (kind : ℕ) (bytes : Bytes)
    → length bytes < 2 ^ 63
    → write_sized kind bytes ≡ bit_or kind (minimal_int_length (length bytes)) ∷ sized_body bytes
unfolding write_sized
write_sized_lem kind bytes h =
    let same : signed_length (length bytes) ≡ length bytes = omega arith in rw same

pub read_raw-sized_body :
    (strict : Bool) (bytes rest : Bytes)
    → IsRaw bytes
    → read_raw strict (minimal_int_length (length bytes)) (sized_body bytes ++ rest)
      ≡ ok (raw bytes, rest)
unfolding read_raw
read_raw-sized_body strict bytes rest h = rw (
  append_assoc,
  read_length-push_be strict (length bytes) (bytes ++ rest) h.1,
  take_bytes-append bytes rest,
)

pub read_str-sized_body :
    (strict : Bool) (bytes rest : Bytes)
    → IsText bytes
    → read_str strict (minimal_int_length (length bytes)) (sized_body bytes ++ rest)
      ≡ ok (str bytes, rest)
unfolding read_str
read_str-sized_body strict bytes rest h = rw (
  append_assoc,
  read_length-push_be strict (length bytes) (bytes ++ rest) h.2,
  take_bytes-append bytes rest,
  h.0,
)
