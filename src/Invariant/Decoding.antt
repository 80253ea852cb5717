-- ===== src/Invariant/Decoding.antt =====
-- Decoded operands.
use sysdarft.Invariant.Operands.{IsOperand, IsGood-decode_constant, IsGood-decode_register}
use sysdarft.Invariant.Access.{IsGood-code}
use sysdarft.Invariant.{
  Any, IsGood, IsMachine, IsGood-bind, IsGood-if, IsGood-or_throw, returned, threw,
}
use sysdarft.Operand.{
  access_register, constant_prefix, decode_memory, decode_operand, decode_parameter,
  decode_signed_parameter, memory_prefix, ratio_of, register_prefix,
}
use sysdarft.Machine.{Cpu, illegal_instruction}
use sysdarft.Base.{arith, ℕ, ◌==◌}
use sysdarft.Width.{bit8, width_of}

module _ {total : ℕ} where
  IsGood-parameter : (c : Cpu) → IsMachine total c → IsGood total Any (decode_parameter c)
  unfolding decode_parameter
  IsGood-parameter c h = IsGood-bind (IsGood-code h bit8) λ kind c1 k h1.
      IsGood-if (kind == register_prefix) _ _ c1
        (IsGood-bind (IsGood-decode_register c1 h1) λ x c2 k2 h2.
          IsGood-or_throw illegal_instruction (access_register x.0 x.1 c2.regs) h2 λ v e. tt)
        (IsGood-if (kind == constant_prefix) _ _ c1
          (IsGood-bind (IsGood-decode_constant c1 h1) λ x c2 k2 h2. returned tt h2) (threw h1))

  IsGood-signed_parameter :
      (c : Cpu) → IsMachine total c → IsGood total Any (decode_signed_parameter c)
  unfolding decode_signed_parameter
  IsGood-signed_parameter c h = IsGood-bind (IsGood-code h bit8) λ kind c1 k h1.
      IsGood-if (kind == register_prefix) _ _ c1
        (IsGood-bind (IsGood-decode_register c1 h1) λ x c2 k2 h2.
          IsGood-bind
            (IsGood-or_throw {P = Any} illegal_instruction (access_register x.0 x.1 c2.regs) h2
              (λ v e. tt))
            λ v c3 k3 h3.
              IsGood-bind
                (IsGood-or_throw {P = Any} illegal_instruction (width_of x.0) h3 (λ w e. tt))
                λ w c4 k4 h4. returned tt h4)
        (IsGood-if (kind == constant_prefix) _ _ c1
          (IsGood-bind (IsGood-decode_constant c1 h1) λ x c2 k2 h2.
            IsGood-bind
              (IsGood-or_throw {P = Any} illegal_instruction (width_of x.1) h2 (λ w e. tt))
              λ w c3 k3 h3. returned tt h3)
          (threw h1))

  IsGood-decode_memory : (c : Cpu) → IsMachine total c → IsGood total IsOperand (decode_memory c)
  unfolding decode_memory
  IsGood-decode_memory c h = IsGood-bind (IsGood-code h bit8) λ width c1 k1 h1.
      IsGood-bind (IsGood-parameter c1 h1) λ base c2 k2 h2.
        IsGood-bind (IsGood-parameter c2 h2) λ off1 c3 k3 h3.
          IsGood-bind (IsGood-signed_parameter c3 h3) λ off2 c4 k4 h4.
            IsGood-bind (IsGood-code h4 bit8) λ bcd c5 k5 h5.
              IsGood-bind
                (IsGood-or_throw {P = Any} illegal_instruction (ratio_of bcd) h5 (λ w e. tt))
                λ ratio c6 k6 h6.
                  IsGood-bind
                    (IsGood-or_throw {P = Any} illegal_instruction (width_of width) h6 (λ w e. tt))
                    λ w c7 k7 h7. returned (omega arith) h7

  pub IsGood-decode_operand :
      (c : Cpu) → IsMachine total c → IsGood total IsOperand (decode_operand c)
  unfolding decode_operand
  IsGood-decode_operand c h = IsGood-bind (IsGood-code h bit8) λ kind c1 k h1.
      IsGood-if (kind == register_prefix) _ _ c1
        (IsGood-bind (IsGood-decode_register c1 h1) λ x c2 k2 h2. returned tt h2)
        (IsGood-if (kind == constant_prefix) _ _ c1
          (IsGood-bind (IsGood-decode_constant c1 h1) λ x c2 k2 h2. returned k2 h2)
          (IsGood-if (kind == memory_prefix) _ _ c1 (IsGood-decode_memory c1 h1) (threw h1)))
