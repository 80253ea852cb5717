-- ===== src/Invariant/Arithmetic.antt =====
-- The arithmetic instructions.
use native.Mathlib.Nat.{mod-lt}
use sysdarft.Invariant.Operands.{
  IsOperand, IsGood-get_val, IsGood-set_val, IsGood-two_values, modulus_le,
}
use sysdarft.Invariant.Access.{set_flags, set_registers}
use sysdarft.Invariant.{
  Any, IsGood, IsMachine, IsWord, IsGood-bind, IsGood-if, IsGood-or_throw, IsGood-weaken, returned,
}
use sysdarft.Logic.Carry.{positive}
use sysdarft.Alu.{
  accumulator, adc, add, bit_of, check_by_sign, check_overflow, check_overflow_signed, cmp, dec,
  imul, inc, mul, neg, sbb, signed_accumulator, store_accumulator, store_checked, sub,
}
use sysdarft.Registers.Aliasing.{store-IsRegisters}
use sysdarft.Operand.{Operand}
use sysdarft.Machine.{Cpu, add64, illegal_instruction, mul64, or_throw, sub64}
use sysdarft.Base.{arith, ltb, ℕ, ◌&&◌, ◌^◌}
use sysdarft.Width.{width_of}

-- The width of an instruction, if its prefix is one.
pub IsGood-width :
    {total : ℕ} (bcd : ℕ) {c : Cpu}
    → IsMachine total c
    → IsGood total Any (or_throw illegal_instruction (width_of bcd) c)
IsGood-width bcd h = IsGood-or_throw illegal_instruction (width_of bcd) h (λ w e. tt)

module _ {total : ℕ} where
  pub IsGood-check_overflow :
      (bcd v : ℕ) {c : Cpu} → IsMachine total c → IsGood total IsWord (check_overflow bcd v c)
  unfolding check_overflow
  IsGood-check_overflow bcd v h = IsGood-bind (IsGood-width bcd h) λ w c1 k h1.
      returned (omega (arith, mod-lt v (positive w), modulus_le w))
        (set_registers h1 (set_flags h1.registers _ h1.registers.flags_fit))

  IsGood-check_signed :
      (bcd v : ℕ) {c : Cpu} → IsMachine total c → IsGood total Any (check_overflow_signed bcd v c)
  unfolding check_overflow_signed
  IsGood-check_signed bcd v h =
      IsGood-bind (IsGood-width bcd h) λ w c1 k h1.
        returned tt (set_registers h1 (set_flags h1.registers _ h1.registers.flags_fit))

  IsGood-store_checked :
      (bcd : ℕ) (a : Operand) (v : ℕ) {c : Cpu}
      → IsMachine total c
      → IsGood total Any (store_checked bcd a v c)
  unfolding store_checked
  IsGood-store_checked bcd a v h =
      IsGood-bind (IsGood-check_overflow bcd v h) λ cut c1 k h1. IsGood-set_val a cut k h1

  pub IsGood-accumulator :
      (bcd : ℕ) {c : Cpu} → IsMachine total c → IsGood total Any (accumulator bcd c)
  unfolding accumulator
  IsGood-accumulator bcd h = IsGood-bind (IsGood-width bcd h) λ w c1 k h1. returned tt h1

  pub IsGood-signed_accumulator :
      (bcd : ℕ) {c : Cpu} → IsMachine total c → IsGood total Any (signed_accumulator bcd c)
  unfolding signed_accumulator
  IsGood-signed_accumulator bcd h = IsGood-bind (IsGood-width bcd h) λ w c1 k h1. returned tt h1

  pub IsGood-store_accumulator :
      (bcd i v : ℕ) {c : Cpu} → IsMachine total c → IsGood total Any (store_accumulator bcd i v c)
  unfolding store_accumulator
  IsGood-store_accumulator bcd i v h =
      IsGood-bind (IsGood-width bcd h)
        λ w c1 k h1. returned tt (set_registers h1 (store-IsRegisters w i v c1.regs h1.registers))

  pub IsGood-check_by_sign :
      (bcd v : ℕ) {c : Cpu} → IsMachine total c → IsGood total Any (check_by_sign bcd v c)
  unfolding check_by_sign
  IsGood-check_by_sign bcd v {c} h =
      IsGood-if (ltb 0 v && ltb v (2 ^ 63)) _ _ c
        (IsGood-weaken (λ x k. tt) (IsGood-check_overflow bcd v h)) (IsGood-check_signed bcd v h)

  module _ (a : Operand) (p : IsOperand a) {c : Cpu} (h : IsMachine total c) where
    pub IsGood-neg : IsGood total Any (neg a c)
    unfolding neg
    IsGood-neg = IsGood-bind (IsGood-get_val a p h) λ x c1 k h1.
        IsGood-bind (IsGood-set_val a (sub64 0 x) (omega arith) h1)
          λ u c2 k2 h2. IsGood-bind (IsGood-check_overflow 0x08 0 h2) λ cut c3 k3 h3. returned tt h3

    pub IsGood-inc : (bcd : ℕ) → IsGood total Any (inc bcd a c)
    unfolding inc
    IsGood-inc bcd =
        IsGood-bind (IsGood-get_val a p h) λ x c1 k h1. IsGood-store_checked bcd a (add64 x 1) h1

    pub IsGood-dec : (bcd : ℕ) → IsGood total Any (dec bcd a c)
    unfolding dec
    IsGood-dec bcd =
        IsGood-bind (IsGood-get_val a p h) λ x c1 k h1. IsGood-store_checked bcd a (sub64 x 1) h1

    pub IsGood-mul : (bcd : ℕ) → IsGood total Any (mul bcd a c)
    unfolding mul
    IsGood-mul bcd = IsGood-bind (IsGood-accumulator bcd h) λ base c1 k1 h1.
        IsGood-bind (IsGood-get_val a p h1) λ factor c2 k2 h2.
          IsGood-bind (IsGood-check_overflow bcd (mul64 factor base) h2)
            λ r c3 k3 h3. IsGood-store_accumulator bcd 0 r h3

    pub IsGood-imul : (bcd : ℕ) → IsGood total Any (imul bcd a c)
    unfolding imul
    IsGood-imul bcd = IsGood-bind (IsGood-signed_accumulator bcd h) λ base c1 k1 h1.
        IsGood-bind (IsGood-get_val a p h1) λ factor c2 k2 h2.
          IsGood-bind (IsGood-check_by_sign bcd (mul64 factor base) h2)
            λ r c3 k3 h3. IsGood-store_accumulator bcd 0 r h3

    module _ (b : Operand) (q : IsOperand b) where
      pub IsGood-add : (bcd : ℕ) → IsGood total Any (add bcd a b c)
      unfolding add
      IsGood-add bcd =
          IsGood-bind (IsGood-two_values a b p q h)
            λ x c1 k h1. IsGood-store_checked bcd a (add64 x.0 x.1) h1

      pub IsGood-adc : (bcd : ℕ) → IsGood total Any (adc bcd a b c)
      unfolding adc
      IsGood-adc bcd = IsGood-bind (IsGood-two_values a b p q h) λ x c1 k h1.
          IsGood-store_checked bcd a (add64 (add64 x.0 x.1) (bit_of c1.regs.flags.carry)) h1

      pub IsGood-sub : (bcd : ℕ) → IsGood total Any (sub bcd a b c)
      unfolding sub
      IsGood-sub bcd =
          IsGood-bind (IsGood-two_values a b p q h)
            λ x c1 k h1. IsGood-store_checked bcd a (sub64 x.0 x.1) h1

      pub IsGood-sbb : (bcd : ℕ) → IsGood total Any (sbb bcd a b c)
      unfolding sbb
      IsGood-sbb bcd = IsGood-bind (IsGood-two_values a b p q h) λ x c1 k h1.
          IsGood-store_checked bcd a (sub64 (sub64 x.0 x.1) (bit_of c1.regs.flags.carry)) h1

      pub IsGood-cmp : IsGood total Any (cmp a b c)
      unfolding cmp
      IsGood-cmp = IsGood-bind (IsGood-two_values a b p q h) λ x c1 k h1.
          returned tt (set_registers h1 (set_flags h1.registers _ h1.registers.flags_fit))
