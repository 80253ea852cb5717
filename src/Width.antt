-- ===== src/Width.antt =====
-- Operand and operation widths: the BCD prefixes of src/include/EncodingDecoding.h.
use sysdarft.Base.{
  IsBytes, List, Option, arith, if◌then◌else◌, le_bytes, le_value, le_value-lt, length, none, some,
  ℕ, ◌%◌, ◌<◌, ◌==◌, ◌^◌, ◌≡◌, ◌≤◌,
}
use native.Mathlib.Nat.{pow-le-pow_right}

pub data Width : Type 0 where
  bit8 bit16 bit32 bit64 : Width

-- `sizeof` of the unsigned type of that width.
abbrev pub width_bytes : Width → ℕ
width_bytes bit8 = 1
width_bytes bit16 = 2
width_bytes bit32 = 4
width_bytes bit64 = 8

-- 2 to the number of bits.
abbrev pub modulus : Width → ℕ
modulus bit8 = 2 ^ 8
modulus bit16 = 2 ^ 16
modulus bit32 = 2 ^ 32
modulus bit64 = 2 ^ 64

-- `_8bit_prefix` to `_64bit_prefix`.
abbrev pub prefix : Width → ℕ
prefix bit8 = 0x08
prefix bit16 = 0x16
prefix bit32 = 0x32
prefix bit64 = 0x64

-- The `switch` over a prefix that the sources repeat; `none` is its `default`.
abbrev pub width_of : ℕ → Option Width
width_of bcd =
    if bcd == 0x08
    then some bit8
    else if bcd == 0x16
    then some bit16
    else if bcd == 0x32
    then some bit32
    else if bcd == 0x64
    then some bit64
    else none

-- A value stored in the bytes of a width is cut to the width.
pub le_value-le_bytes_width :
    (w : Width) (v : ℕ) → le_value (le_bytes (width_bytes w) v) ≡ v % modulus w
le_value-le_bytes_width bit8 v = omega arith
le_value-le_bytes_width bit16 v = omega arith
le_value-le_bytes_width bit32 v = omega arith
le_value-le_bytes_width bit64 v = omega arith

few_bytes : (bs : List ℕ) (n k : ℕ) → IsBytes bs → length bs ≤ n → 256 ^ n ≤ k → le_value bs < k
few_bytes bs n k b h p = omega (arith, le_value-lt bs b, pow-le-pow_right {n = 256} (omega arith) h)

-- As many bytes as a width has spell a number below its modulus.
pub width_bound :
    (w : Width) (bs : List ℕ) → IsBytes bs → length bs ≤ width_bytes w → le_value bs < modulus w
width_bound bit8 bs b h = few_bytes bs 1 (2 ^ 8) b h (omega arith)
width_bound bit16 bs b h = few_bytes bs 2 (2 ^ 16) b h (omega arith)
width_bound bit32 bs b h = few_bytes bs 4 (2 ^ 32) b h (omega arith)
width_bound bit64 bs b h = few_bytes bs 8 (2 ^ 64) b h (omega arith)
