-- ===== src/Logic.antt =====
-- src/cpu/Operations/LogicalAndBitwise.cpp.
pub mod Carry
pub mod Rotation
use Prim.Native.Nat.{bit_and, bit_or, bit_xor}
use sysdarft.Base.{Bool, if◌then◌else◌, suc, zero, ℕ, ◌%◌, ◌*◌, ◌+◌, ◌-◌, ◌/◌, ◌==◌, ◌^◌}
use sysdarft.Width.{Width, bit16, bit32, bit64, bit8, modulus, width_of}
use sysdarft.Machine.{M, gets, illegal_instruction, modify_regs, or_throw, ◌>>=◌, ◌>>◌}
use sysdarft.Operand.{Operand, get_val, set_val}
use sysdarft.Interrupt.{with_flags}
use sysdarft.Alu.{two_values}

-- The result of two values, stored in the first operand.
unfoldable pub bitwise_op : (ℕ → ℕ → ℕ) → Operand → Operand → M (Unit {0})
unfolding two_values set_val
bitwise_op f a b = do (x, y) ← two_values a b; set_val a (f x y)

unfoldable pub and_ : Operand → Operand → M (Unit {0})
unfolding bitwise_op
and_ = bitwise_op bit_and

unfoldable pub or_ : Operand → Operand → M (Unit {0})
unfolding bitwise_op
or_ = bitwise_op bit_or

unfoldable pub xor_ : Operand → Operand → M (Unit {0})
unfolding bitwise_op
xor_ = bitwise_op bit_xor

unfoldable pub not_ : Operand → M (Unit {0})
unfolding get_val set_val
not_ a = do x ← get_val a; set_val a (2 ^ 64 - 1 - x)

-- Shifts of `uint64_t`. C++ leaves a count of 64 or more undefined; here its low six bits count.
abbrev pub shift_left : ℕ → ℕ → ℕ
shift_left x n = x * 2 ^ (n % 64) % 2 ^ 64

abbrev pub shift_right : ℕ → ℕ → ℕ
shift_right x n = x / 2 ^ (n % 64)

unfoldable pub shl : Operand → Operand → M (Unit {0})
unfolding bitwise_op
shl = bitwise_op shift_left

unfoldable pub shr : Operand → Operand → M (Unit {0})
unfolding bitwise_op
shr = bitwise_op shift_right

-- `SIZE`.
abbrev pub bits : Width → ℕ
bits bit8 = 8
bits bit16 = 16
bits bit32 = 32
bits bit64 = 64

unfoldable pub rotate_left : Width → ℕ → ℕ → ℕ
rotate_left w value n =
    let k = n % bits w in
    if k == 0 then value else bit_or (value * 2 ^ k) (value / 2 ^ (bits w - k)) % modulus w

unfoldable pub rotate_right : Width → ℕ → ℕ → ℕ
rotate_right w value n =
    let k = n % bits w in
    if k == 0 then value else bit_or (value / 2 ^ k) (value * 2 ^ (bits w - k)) % modulus w

unfoldable pub rol : ℕ → Operand → Operand → M (Unit {0})
unfolding two_values rotate_left set_val
rol bcd a b = do
  (x, y) ← two_values a b
  w ← or_throw illegal_instruction (width_of bcd)
  set_val a (rotate_left w (x % modulus w) y)

unfoldable pub ror : ℕ → Operand → Operand → M (Unit {0})
unfolding two_values rotate_right set_val
ror bcd a b = do
  (x, y) ← two_values a b
  w ← or_throw illegal_instruction (width_of bcd)
  set_val a (rotate_right w (x % modulus w) y)

-- One round of the loop of `rcl`. `~1U` has 32 bits, so the `&` of a clear carry also takes the
-- upper half of a 64-bit value.
unfoldable pub rcl_step : Width → ℕ → Bool → ℕ × Bool
rcl_step w value cf =
    let shifted = value * 2 % modulus w in
    (if cf then bit_or shifted 1 else bit_and shifted 0xFFFFFFFE, value / (modulus w / 2) % 2 == 1)

-- One round of the loop of `rcr`. `&` with the lower bits is a remainder.
unfoldable pub rcr_step : Width → ℕ → Bool → ℕ × Bool
rcr_step w value cf =
    let shifted = value / 2 in
    (if cf then bit_or shifted (modulus w / 2) else shifted % (modulus w / 2), value % 2 == 1)

-- `for (i = 0; i < n; i++)` of both, with the rounds left.
unfoldable pub rotate_carry : (ℕ → Bool → ℕ × Bool) → ℕ → ℕ → Bool → ℕ × Bool
rotate_carry step zero value cf = (value, cf)
rotate_carry step (suc n) value cf =
    let (value', cf') = step value cf in rotate_carry step n value' cf'

-- The count is cut to `unsigned`, then taken modulo the bits and the carry.
abbrev pub carry_count : Width → ℕ → ℕ
carry_count w n = n % 2 ^ 32 % (bits w + 1)

unfoldable pub rotate_op : (Width → ℕ → Bool → ℕ × Bool) → ℕ → Operand → Operand → M (Unit {0})
unfolding two_values rotate_carry set_val
rotate_op step bcd a b = do
  (x, y) ← two_values a b
  cf ← gets (λ c. c.regs.flags.carry)
  w ← or_throw illegal_instruction (width_of bcd)
  let result = rotate_carry (step w) (carry_count w y) (x % modulus w) cf
  modify_regs (with_flags (λ fg. record fg { carry = result.1 }))
  set_val a result.0

unfoldable pub rcl : ℕ → Operand → Operand → M (Unit {0})
unfolding rotate_op rcl_step
rcl = rotate_op rcl_step

unfoldable pub rcr : ℕ → Operand → Operand → M (Unit {0})
unfolding rotate_op rcr_step
rcr = rotate_op rcr_step
