-- ===== src/Bdf/Scalars.antt =====
-- crates/bdf: the objects that are no containers, written and read back.
use onestein.Base.{
  ℕ, zero, suc, ◌≤◌, ◌<◌, bit_or, ◌≡◌, refl, Bool, true, false, ◌++◌, arith, ◌==◌, length, ok,
}
use onestein.Base.Bytes.{Bytes}
use onestein.Bdf.{Value, null, bool, int, float, str, raw, list, dict}
use onestein.Bdf.Write.{to_bytes, write_sized, end_byte}
use onestein.Bdf.Read.{sized_int, sized_str, sized_raw, classify, at_end, read_value}
use onestein.Bdf.Ints.{IsSize, IsSize-elim, minimal-IsSize}
use onestein.Bdf.Valid.{IsText, IsValid}
use onestein.Bdf.Strings.{
  read_int-push_be, read_float-to_be, read_raw-sized_body, read_str-sized_body, write_sized_lem,
}

-- The headers that the writer puts in front of a size.
classify-int : (n : ℕ) → IsSize n → classify (bit_or 0x20 n) ≡ sized_int n
unfolding classify
classify-int = IsSize-elim (λ n. classify (bit_or 0x20 n) ≡ sized_int n) refl refl refl refl

classify-str : (n : ℕ) → IsSize n → classify (bit_or 0x40 n) ≡ sized_str n
unfolding classify
classify-str = IsSize-elim (λ n. classify (bit_or 0x40 n) ≡ sized_str n) refl refl refl refl

classify-raw : (n : ℕ) → IsSize n → classify (bit_or 0x50 n) ≡ sized_raw n
unfolding classify
classify-raw = IsSize-elim (λ n. classify (bit_or 0x50 n) ≡ sized_raw n) refl refl refl refl

int_not_end : (n : ℕ) → IsSize n → (bit_or 0x20 n == end_byte) ≡ false
int_not_end = IsSize-elim (λ n. (bit_or 0x20 n == end_byte) ≡ false) refl refl refl refl

str_not_end : (n : ℕ) → IsSize n → (bit_or 0x40 n == end_byte) ≡ false
str_not_end = IsSize-elim (λ n. (bit_or 0x40 n == end_byte) ≡ false) refl refl refl refl

raw_not_end : (n : ℕ) → IsSize n → (bit_or 0x50 n == end_byte) ≡ false
raw_not_end = IsSize-elim (λ n. (bit_or 0x50 n == end_byte) ≡ false) refl refl refl refl

pub at_end-write_str : (bytes t : Bytes) → at_end (write_sized 0x40 bytes ++ t) ≡ false
unfolding write_sized
at_end-write_str bytes t = str_not_end _ (minimal-IsSize _)

at_end-write_raw : (bytes t : Bytes) → at_end (write_sized 0x50 bytes ++ t) ≡ false
unfolding write_sized
at_end-write_raw bytes t = raw_not_end _ (minimal-IsSize _)

-- No object begins with the byte that ends a container, and none is empty.
pub at_end-to_bytes : (v : Value) (t : Bytes) → at_end (to_bytes v ++ t) ≡ false
unfolding to_bytes
at_end-to_bytes null t = refl
at_end-to_bytes (bool false) t = refl
at_end-to_bytes (bool true) t = refl
at_end-to_bytes (int n) t = int_not_end _ (minimal-IsSize n)
at_end-to_bytes (float n) t = refl
at_end-to_bytes (str b) t = at_end-write_str b t
at_end-to_bytes (raw b) t = at_end-write_raw b t
at_end-to_bytes (list xs) t = refl
at_end-to_bytes (dict es) t = refl

pub write_sized_pos : (kind : ℕ) (bytes : Bytes) → 1 ≤ length (write_sized kind bytes)
unfolding write_sized
write_sized_pos kind bytes = omega arith

pub to_bytes_pos : (v : Value) → 1 ≤ length (to_bytes v)
unfolding to_bytes
to_bytes_pos null = omega arith
to_bytes_pos (bool b) = omega arith
to_bytes_pos (int n) = omega arith
to_bytes_pos (float n) = omega arith
to_bytes_pos (str b) = write_sized_pos 0x40 b
to_bytes_pos (raw b) = write_sized_pos 0x50 b
to_bytes_pos (list xs) = omega arith
to_bytes_pos (dict es) = omega arith

-- The scalar objects, one by one.
pub read_value-int :
    (fuel depth n : ℕ) (strict : Bool) (rest : Bytes)
    → IsValid depth (int n)
    → read_value (suc fuel) strict depth (to_bytes (int n) ++ rest) ≡ ok (int n, rest)
unfolding read_value to_bytes
read_value-int fuel depth n strict rest h =
    rw (classify-int _ (minimal-IsSize n), read_value) (read_int-push_be strict n rest h)

pub read_value-str :
    (fuel depth : ℕ) (strict : Bool) (bytes rest : Bytes)
    → IsText bytes
    → read_value (suc fuel) strict depth (write_sized 0x40 bytes ++ rest) ≡ ok (str bytes, rest)
unfolding read_value
read_value-str fuel depth strict bytes rest h =
    rw (write_sized_lem 0x40 bytes h.2, classify-str _ (minimal-IsSize (length bytes)), read_value)
      (read_str-sized_body strict bytes rest h)

pub read_value-raw :
    (fuel depth : ℕ) (strict : Bool) (bytes rest : Bytes)
    → IsValid depth (raw bytes)
    → read_value (suc fuel) strict depth (write_sized 0x50 bytes ++ rest) ≡ ok (raw bytes, rest)
unfolding read_value
read_value-raw fuel depth strict bytes rest h =
    rw (write_sized_lem 0x50 bytes h.1, classify-raw _ (minimal-IsSize (length bytes)), read_value)
      (read_raw-sized_body strict bytes rest h)

pub read_value-float :
    (fuel depth n : ℕ) (strict : Bool) (rest : Bytes)
    → IsValid depth (float n)
    → read_value (suc fuel) strict depth (to_bytes (float n) ++ rest) ≡ ok (float n, rest)
unfolding read_value to_bytes classify
read_value-float fuel depth n strict rest h = read_float-to_be n rest h

pub read_value-null :
    (fuel depth : ℕ) (strict : Bool) (rest : Bytes)
    → read_value (suc fuel) strict depth (to_bytes null ++ rest) ≡ ok (null, rest)
unfolding read_value to_bytes classify
read_value-null fuel depth strict rest = refl

pub read_value-bool :
    (fuel depth : ℕ) (strict b : Bool) (rest : Bytes)
    → read_value (suc fuel) strict depth (to_bytes (bool b) ++ rest) ≡ ok (bool b, rest)
unfolding read_value to_bytes classify
read_value-bool fuel depth strict false rest = refl
read_value-bool fuel depth strict true rest = refl

-- A key, with any fuel.
pub read_value-key :
    (fuel depth : ℕ) (strict : Bool) (bytes rest : Bytes)
    → 0 < fuel
    → IsText bytes
    → read_value fuel strict depth (write_sized 0x40 bytes ++ rest) ≡ ok (str bytes, rest)
read_value-key zero depth strict bytes rest lt h = absurd (omega arith)
read_value-key (suc fuel) depth strict bytes rest lt h =
    read_value-str fuel depth strict bytes rest h
