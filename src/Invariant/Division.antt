-- ===== src/Invariant/Division.antt =====
-- The two divisions, which raise an interruption at a divisor of zero.
use sysdarft.Alu.{div, idiv, signed_quotient, signed_remainder}
use sysdarft.Invariant.Services.{IsGood-interruption}
use sysdarft.Invariant.Arithmetic.{
  IsGood-accumulator, IsGood-check_by_sign, IsGood-check_overflow, IsGood-signed_accumulator,
  IsGood-store_accumulator,
}
use sysdarft.Invariant.Operands.{IsOperand, IsGood-get_val}
use sysdarft.Invariant.{Any, IsGood, IsMachine, IsGood-bind, IsGood-if}
use sysdarft.Machine.{Cpu}
use sysdarft.Operand.{Operand}
use sysdarft.Base.{ℕ, ◌%◌, ◌/◌, ◌==◌}

module _ {total : ℕ} (a : Operand) (p : IsOperand a) {c : Cpu} (h : IsMachine total c) where
  pub IsGood-div : (bcd : ℕ) → IsGood total Any (div bcd a c)
  unfolding div
  IsGood-div bcd = IsGood-bind (IsGood-accumulator bcd h) λ base c1 k1 h1.
      IsGood-bind (IsGood-get_val a p h1) λ factor c2 k2 h2.
        IsGood-if (factor == 0) _ _ c2 (IsGood-interruption h2 0x01) (
          IsGood-bind (IsGood-check_overflow bcd (base / factor) h2) λ q c3 k3 h3.
            IsGood-bind (IsGood-check_overflow bcd (base % factor) h3) λ r c4 k4 h4.
              IsGood-bind (IsGood-store_accumulator bcd 0 q h4)
                λ u c5 k5 h5. IsGood-store_accumulator bcd 1 r h5)

  pub IsGood-idiv : (bcd : ℕ) → IsGood total Any (idiv bcd a c)
  unfolding idiv
  IsGood-idiv bcd = IsGood-bind (IsGood-signed_accumulator bcd h) λ base c1 k1 h1.
      IsGood-bind (IsGood-get_val a p h1) λ factor c2 k2 h2.
        IsGood-if (factor == 0) _ _ c2 (IsGood-interruption h2 0x01) (
          IsGood-bind (IsGood-check_by_sign bcd (signed_quotient base factor) h2) λ q c3 k3 h3.
            IsGood-bind (IsGood-check_by_sign bcd (signed_remainder base factor) h3) λ r c4 k4 h4.
              IsGood-bind (IsGood-store_accumulator bcd 0 q h4)
                λ u c5 k5 h5. IsGood-store_accumulator bcd 1 r h5)
