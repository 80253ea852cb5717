-- ===== src/Invariant/Bitwise.antt =====
-- The logic instructions.
use sysdarft.Invariant.Arithmetic.{IsGood-width}
use sysdarft.Invariant.Access.{set_flags, set_registers}
use sysdarft.Invariant.Operands.{
  IsOperand, IsGood-get_val, IsGood-set_val, IsGood-two_values, modulus_le,
}
use sysdarft.Invariant.{Any, IsGood, IsMachine, IsWord, IsGood-bind}
use sysdarft.Machine.{Cpu}
use sysdarft.Operand.{Operand}
use sysdarft.Logic.Carry.{positive}
use sysdarft.Logic.{
  and_, bits, bitwise_op, carry_count, not_, or_, rcl, rcl_step, rcr, rcr_step, rol, ror,
  rotate_carry, rotate_left, rotate_op, rotate_right, shift_left, shift_right, shl, shr, xor_,
}
use sysdarft.Width.{Width, modulus}
use Prim.Native.Nat.{bit_and, bit_or, bit_xor}
use native.Mathlib.Nat.{div-le_self, mod-le, mod-lt}
use sysdarft.Base.{
  Bool, Bool-cases, arith, bit_and-lt, bit_or-lt, bit_xor-lt, false, inl, inr, suc, true, zero, ℕ,
  ◌%◌, ◌*◌, ◌-◌, ◌/◌, ◌==◌, ◌^◌,
}

shift_right-IsWord : (x n : ℕ) → IsWord x → IsWord (shift_right x n)
shift_right-IsWord x n h = omega (arith, h, div-le_self x (2 ^ (n % 64)))

rotate_left-IsWord : (w : Width) (x n : ℕ) → IsWord x → IsWord (rotate_left w x n)
unfolding rotate_left
rotate_left-IsWord w x n h = elim (Bool-cases (n % bits w == 0)) [
  | inl zero_count ↦ rw zero_count h
  | inr other ↦ rw other (omega (arith, mod-lt _ (positive w), modulus_le w))
]

rotate_right-IsWord : (w : Width) (x n : ℕ) → IsWord x → IsWord (rotate_right w x n)
unfolding rotate_right
rotate_right-IsWord w x n h = elim (Bool-cases (n % bits w == 0)) [
  | inl zero_count ↦ rw zero_count h
  | inr other ↦ rw other (omega (arith, mod-lt _ (positive w), modulus_le w))
]

-- A round of a rotation through the carry keeps 64 bits.
abbrev KeepsWord : (ℕ → Bool → ℕ × Bool) → Type 0
KeepsWord step = (v : ℕ) (cf : Bool) → IsWord v → IsWord (step v cf).0

rcl_step-KeepsWord : (w : Width) → KeepsWord (rcl_step w)
unfolding rcl_step
rcl_step-KeepsWord w v true h =
    bit_or-lt 64 _ 1 (omega (arith, mod-lt (v * 2) (positive w), modulus_le w)) (omega arith)
rcl_step-KeepsWord w v false h =
    bit_and-lt 64 _ 0xFFFFFFFE (omega (arith, mod-lt (v * 2) (positive w), modulus_le w))
      (omega arith)

rcr_step-KeepsWord : (w : Width) → KeepsWord (rcr_step w)
unfolding rcr_step
rcr_step-KeepsWord w v true h =
    bit_or-lt 64 (v / 2) (modulus w / 2) (omega arith) (omega (arith, modulus_le w))
rcr_step-KeepsWord w v false h = omega (arith, h, mod-le (v / 2) (modulus w / 2))

rotate_carry-IsWord :
    (step : ℕ → Bool → ℕ × Bool)
    → KeepsWord step
    → (n v : ℕ) (cf : Bool) → IsWord v
    → IsWord (rotate_carry step n v cf).0
unfolding rotate_carry
rotate_carry-IsWord step k zero v cf h = h
rotate_carry-IsWord step k (suc n) v cf h =
    rotate_carry-IsWord step k n (step v cf).0 (step v cf).1 (k v cf h)

module _ {total : ℕ} (a b : Operand) (p : IsOperand a) (q : IsOperand b) {c : Cpu}
    (h : IsMachine total c) where
  pub IsGood-bitwise :
      (f : ℕ → ℕ → ℕ)
      → ((x y : ℕ) → IsWord x → IsWord y → IsWord (f x y))
      → IsGood total Any (bitwise_op f a b c)
  unfolding bitwise_op
  IsGood-bitwise f k =
      IsGood-bind (IsGood-two_values a b p q h)
        λ x c1 k1 h1. IsGood-set_val a (f x.0 x.1) (k x.0 x.1 k1.0 k1.1) h1

  pub IsGood-and : IsGood total Any (and_ a b c)
  unfolding and_
  IsGood-and = IsGood-bitwise bit_and (bit_and-lt 64)

  pub IsGood-or : IsGood total Any (or_ a b c)
  unfolding or_
  IsGood-or = IsGood-bitwise bit_or (bit_or-lt 64)

  pub IsGood-xor : IsGood total Any (xor_ a b c)
  unfolding xor_
  IsGood-xor = IsGood-bitwise bit_xor (bit_xor-lt 64)

  pub IsGood-shl : IsGood total Any (shl a b c)
  unfolding shl
  IsGood-shl = IsGood-bitwise shift_left λ x y k l. omega arith

  pub IsGood-shr : IsGood total Any (shr a b c)
  unfolding shr
  IsGood-shr = IsGood-bitwise shift_right λ x y k l. shift_right-IsWord x y k

  pub IsGood-rol : (bcd : ℕ) → IsGood total Any (rol bcd a b c)
  unfolding rol
  IsGood-rol bcd = IsGood-bind (IsGood-two_values a b p q h) λ x c1 k1 h1.
      IsGood-bind (IsGood-width bcd h1) λ w c2 k2 h2.
        IsGood-set_val a _
          (rotate_left-IsWord w (x.0 % modulus w) x.1
            (omega (arith, mod-lt x.0 (positive w), modulus_le w)))
          h2

  pub IsGood-ror : (bcd : ℕ) → IsGood total Any (ror bcd a b c)
  unfolding ror
  IsGood-ror bcd = IsGood-bind (IsGood-two_values a b p q h) λ x c1 k1 h1.
      IsGood-bind (IsGood-width bcd h1) λ w c2 k2 h2.
        IsGood-set_val a _
          (rotate_right-IsWord w (x.0 % modulus w) x.1
            (omega (arith, mod-lt x.0 (positive w), modulus_le w)))
          h2

  IsGood-rotate :
      (step : Width → ℕ → Bool → ℕ × Bool)
      → ((w : Width) → KeepsWord (step w))
      → (bcd : ℕ) → IsGood total Any (rotate_op step bcd a b c)
  unfolding rotate_op
  IsGood-rotate step k bcd = IsGood-bind (IsGood-two_values a b p q h) λ x c1 k1 h1.
      IsGood-bind (IsGood-width bcd h1) λ w c2 k2 h2.
        IsGood-set_val a _
          (rotate_carry-IsWord (step w) (k w) (carry_count w x.1) (x.0 % modulus w)
            c1.regs.flags.carry (omega (arith, mod-lt x.0 (positive w), modulus_le w)))
          (set_registers h2 (set_flags h2.registers _ h2.registers.flags_fit))

  pub IsGood-rcl : (bcd : ℕ) → IsGood total Any (rcl bcd a b c)
  unfolding rcl
  IsGood-rcl = IsGood-rotate rcl_step rcl_step-KeepsWord

  pub IsGood-rcr : (bcd : ℕ) → IsGood total Any (rcr bcd a b c)
  unfolding rcr
  IsGood-rcr = IsGood-rotate rcr_step rcr_step-KeepsWord

module _ {total : ℕ} (a : Operand) (p : IsOperand a) {c : Cpu} (h : IsMachine total c) where
  pub IsGood-not : IsGood total Any (not_ a c)
  unfolding not_
  IsGood-not =
      IsGood-bind (IsGood-get_val a p h)
        λ x c1 k1 h1. IsGood-set_val a (2 ^ 64 - 1 - x) (omega arith) h1
