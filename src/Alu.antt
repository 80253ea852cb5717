-- ===== src/Alu.antt =====
-- src/cpu/Operations/Arithmetic.cpp, and the overflow checks of src/cpu/Operations/Helper.cpp.
-- `bcd` is the operation width of the instruction, and operands are values of 64 bits.
pub mod Sums
pub mod Comparison
pub mod Division
use Prim.Native.Nat.{bit_or}
use sysdarft.Base.{
  Bool, false, if◌then◌else◌, leb, ltb, true, xor, ℕ, ◌%◌, ◌&&◌, ◌+◌, ◌-◌, ◌/◌, ◌==◌, ◌^◌,
}
use sysdarft.Registers.{Flags, load, store}
use sysdarft.Width.{Width, bit8, modulus, width_of}
use sysdarft.Machine.{
  M, add64, gets, illegal_instruction, modify_regs, mul64, or_throw, pure, sub64, ◌>>=◌, ◌>>◌,
}
use sysdarft.Operand.{Operand, compliment, get_val, set_val}
use sysdarft.Interrupt.{do_interruption, with_flags}

-- The flags after an arithmetic operation: `carry` and `overflow` as given, the others cleared.
abbrev pub arithmetic_flags : Bool → Bool → Flags → Flags
arithmetic_flags cf of fg = record fg {
  carry = cf;
  overflow = of;
  larger_than = false;
  less_than = false;
  equal = false;
}

-- `check_overflow`: the value cut to the width; `carry` says that something was cut off.
unfoldable pub check_overflow : ℕ → ℕ → M ℕ
check_overflow bcd value = do
  w ← or_throw illegal_instruction (width_of bcd)
  modify_regs (with_flags (arithmetic_flags (leb (modulus w) value) false))
  pure (value % modulus w)

-- `val > maxVal || val < minVal`, for the `int64_t` of these 64 bits.
unfoldable pub signed_overflows : Width → ℕ → Bool
signed_overflows w val =
    if ltb val (2 ^ 63) then leb (modulus w / 2) val else ltb val (2 ^ 64 - modulus w / 2)

-- The value cut to the width and widened to 64 bits again: by zeros at 8 bits, with its sign at the
-- others.
unfoldable pub widen : Width → ℕ → ℕ
widen bit8 val = val % 2 ^ 8
widen w val =
    let cut = val % modulus w in if ltb cut (modulus w / 2) then cut else cut + (2 ^ 64 - modulus w)

-- `check_overflow_signed`.
unfoldable pub check_overflow_signed : ℕ → ℕ → M ℕ
unfolding signed_overflows widen
check_overflow_signed bcd value = do
  w ← or_throw illegal_instruction (width_of bcd)
  let val = value % 2 ^ 64
  modify_regs (with_flags (arithmetic_flags false (signed_overflows w val)))
  pure (widen w val)

-- Both operands, the first one read first.
unfoldable pub two_values : Operand → Operand → M (ℕ × ℕ)
unfolding get_val
two_values a b = do x ← get_val a; y ← get_val b; pure (x, y)

-- The result is checked, then stored in the first operand.
unfoldable pub store_checked : ℕ → Operand → ℕ → M (Unit {0})
unfolding check_overflow set_val
store_checked bcd a result = do cut ← check_overflow bcd result; set_val a cut

abbrev pub bit_of : Bool → ℕ
bit_of true = 1
bit_of false = 0

unfoldable pub add : ℕ → Operand → Operand → M (Unit {0})
unfolding two_values store_checked
add bcd a b = do (x, y) ← two_values a b; store_checked bcd a (add64 x y)

unfoldable pub adc : ℕ → Operand → Operand → M (Unit {0})
unfolding two_values store_checked
adc bcd a b = do
  (x, y) ← two_values a b
  cf ← gets (λ c. c.regs.flags.carry)
  store_checked bcd a (add64 (add64 x y) (bit_of cf))

unfoldable pub sub : ℕ → Operand → Operand → M (Unit {0})
unfolding two_values store_checked
sub bcd a b = do (x, y) ← two_values a b; store_checked bcd a (sub64 x y)

unfoldable pub sbb : ℕ → Operand → Operand → M (Unit {0})
unfolding two_values store_checked
sbb bcd a b = do
  (x, y) ← two_values a b
  cf ← gets (λ c. c.regs.flags.carry)
  store_checked bcd a (sub64 (sub64 x y) (bit_of cf))

-- Register 0 of the operation width.
unfoldable pub accumulator : ℕ → M ℕ
unfolding load
accumulator bcd = do w ← or_throw illegal_instruction (width_of bcd); gets (λ c. load w 0 c.regs)

-- The same for the signed operations, which set all the higher bits.
unfoldable pub signed_accumulator : ℕ → M ℕ
unfolding load
signed_accumulator bcd = do
  w ← or_throw illegal_instruction (width_of bcd)
  gets (λ c. bit_or (load w 0 c.regs) (compliment w))

unfoldable pub store_accumulator : ℕ → ℕ → ℕ → M (Unit {0})
unfolding store
store_accumulator bcd i value = do
  w ← or_throw illegal_instruction (width_of bcd)
  modify_regs (store w i value)

-- `if (signed_result > 0)` chooses the check. The value is the 64 bits of an `int64_t`.
unfoldable pub check_by_sign : ℕ → ℕ → M ℕ
unfolding check_overflow check_overflow_signed
check_by_sign bcd val =
    if ltb 0 val && ltb val (2 ^ 63) then check_overflow bcd val else check_overflow_signed bcd val

-- The product of two `int64_t` that does not fit is undefined in C++; here it wraps.
unfoldable pub imul : ℕ → Operand → M (Unit {0})
unfolding signed_accumulator check_by_sign store_accumulator get_val
imul bcd a = do
  base ← signed_accumulator bcd
  factor ← get_val a
  result ← check_by_sign bcd (mul64 factor base)
  store_accumulator bcd 0 result

unfoldable pub mul : ℕ → Operand → M (Unit {0})
unfolding accumulator check_overflow store_accumulator get_val
mul bcd a = do
  base ← accumulator bcd
  factor ← get_val a
  result ← check_overflow bcd (mul64 factor base)
  store_accumulator bcd 0 result

-- Sign and magnitude of an `int64_t`, given by its 64 bits.
abbrev pub is_negative : ℕ → Bool
is_negative x = leb (2 ^ 63) x

abbrev pub magnitude : ℕ → ℕ
magnitude x = if is_negative x then 2 ^ 64 - x else x

abbrev pub with_sign : Bool → ℕ → ℕ
with_sign true n = (2 ^ 64 - n) % 2 ^ 64
with_sign false n = n

-- Division of `int64_t` rounds towards zero, and the remainder has the sign of the dividend. The
-- least number divided by -1 is undefined in C++; here it wraps.
unfoldable pub signed_quotient : ℕ → ℕ → ℕ
signed_quotient base factor =
    with_sign (xor (is_negative base) (is_negative factor))
      (magnitude base / magnitude factor % 2 ^ 64)

unfoldable pub signed_remainder : ℕ → ℕ → ℕ
signed_remainder base factor = with_sign (is_negative base) (magnitude base % magnitude factor)

unfoldable pub idiv : ℕ → Operand → M (Unit {0})
unfolding signed_accumulator check_by_sign store_accumulator get_val do_interruption signed_quotient
    signed_remainder
idiv bcd a = do
  base ← signed_accumulator bcd
  factor ← get_val a
  if factor == 0 then do_interruption 0x01 else do
    quotient ← check_by_sign bcd (signed_quotient base factor)
    remainder ← check_by_sign bcd (signed_remainder base factor)
    store_accumulator bcd 0 quotient
    store_accumulator bcd 1 remainder

unfoldable pub div : ℕ → Operand → M (Unit {0})
unfolding accumulator check_overflow store_accumulator get_val do_interruption
div bcd a = do
  base ← accumulator bcd
  factor ← get_val a
  if factor == 0 then do_interruption 0x01 else do
    quotient ← check_overflow bcd (base / factor)
    remainder ← check_overflow bcd (base % factor)
    store_accumulator bcd 0 quotient
    store_accumulator bcd 1 remainder

unfoldable pub neg : Operand → M (Unit {0})
unfolding get_val set_val check_overflow
neg a = do x ← get_val a; set_val a (sub64 0 x); cut ← check_overflow 0x08 0; pure tt

-- The flags that `cmp` stores: the three of the comparison, the others from before.
abbrev pub compared : ℕ → ℕ → Flags → Flags
compared x y fg = record fg { larger_than = ltb y x; less_than = ltb x y; equal = x == y }

unfoldable pub cmp : Operand → Operand → M (Unit {0})
unfolding two_values check_overflow
cmp a b = do
  (x, y) ← two_values a b
  fg ← gets (λ c. c.regs.flags)
  cut ← check_overflow 0x08 0
  modify_regs (with_flags (λ _. compared x y fg))

unfoldable pub inc : ℕ → Operand → M (Unit {0})
unfolding get_val store_checked
inc bcd a = do x ← get_val a; store_checked bcd a (add64 x 1)

unfoldable pub dec : ℕ → Operand → M (Unit {0})
unfolding get_val store_checked
dec bcd a = do x ← get_val a; store_checked bcd a (sub64 x 1)
