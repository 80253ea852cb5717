-- ===== src/Encoding/Text.antt =====
-- The texts of the assembler: their bytes, and the number at the end of a register's name.
use Prim.Native.Char.{code}
use Prim.Native.String.{String, char_at, len, slice}
use sysdarft.Base.{
  Bool, Option, if◌then◌else◌, leb, ltb, none, some, suc, zero, ℕ, ◌&&◌, ◌*◌, ◌+◌, ◌-◌, ◌==◌, ◌^◌,
}

-- The byte at a position.
abbrev pub byte_at : String → ℕ → ℕ
byte_at s i = code (char_at s i)

-- `std::isdigit`.
abbrev is_digit : ℕ → Bool
is_digit c = leb b'0' c && leb c b'9'

-- The first loop of `extractTrailingNumber`: the position where the digits at the end start.
unfoldable pub digits_start : String → ℕ → ℕ
digits_start s zero = zero
digits_start s (suc pos) =
    let rest = digits_start s pos in if is_digit (byte_at s pos) then rest else suc pos

-- `std::from_chars` into `uint32_t`, of `n` digits from a position on, after the number `acc`.
unfoldable pub read_digits : String → ℕ → ℕ → ℕ → Option ℕ
read_digits s pos zero acc = if ltb acc (2 ^ 32) then some acc else none
read_digits s pos (suc n) acc = read_digits s (pos + 1) n (acc * 10 + (byte_at s pos - b'0'))

unfoldable pub extract_trailing_number : String → Option ℕ
unfolding digits_start read_digits
extract_trailing_number s =
    let pos = digits_start s (len s) in
    if pos == len s then none else read_digits s pos (len s - pos) 0

-- A name without the digits at its end.
unfoldable pub without_digits : String → String
unfolding digits_start
without_digits s = slice s 0 (digits_start s (len s))
