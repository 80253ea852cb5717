-- ===== src/Invariant/Jumps.antt =====
-- The control flow and misc instructions.
use sysdarft.Invariant.Services.{IsGood-interruption}
use sysdarft.Invariant.Access.{IsGood-pop, IsGood-push, set_flags, set_location, set_registers}
use sysdarft.Invariant.Operands.{IsOperand, IsGood-get_val, IsGood-two_values}
use sysdarft.Invariant.{Any, IsGood, IsMachine, IsGood-bind, IsGood-if, returned}
use sysdarft.Machine.{Cpu, sub64}
use sysdarft.Operand.{Operand}
use sysdarft.Control.{alwi, call, hlt, igni, int3, int_, jmp, jump_if, loop_, ret}
use sysdarft.Width.{bit64, width_bound}
use sysdarft.Registers.Aliasing.{store-IsRegisters}
use sysdarft.Registers.{Flags, load}
use sysdarft.Base.{Bool, arith, le_bytes, le_bytes-IsBytes, le_value, ℕ, ◌==◌}

module _ {total : ℕ} {c : Cpu} (h : IsMachine total c) where
  pub IsGood-ret : IsGood total Any (ret c)
  unfolding ret
  IsGood-ret = IsGood-bind (IsGood-pop h 8 (omega arith)) λ ip c1 k1 h1.
      IsGood-bind (IsGood-pop h1 8 (omega arith)) λ cb c2 k2 h2. returned tt (
        set_registers h2 (
          set_location h2.registers (le_value cb) (le_value ip)
            (width_bound bit64 cb k2.0 (omega (arith, k2.1)))
            (width_bound bit64 ip k1.0 (omega (arith, k1.1)))))

  pub IsGood-int3 : IsGood total Any (int3 c)
  unfolding int3
  IsGood-int3 = IsGood-interruption h 0x03

  pub IsGood-hlt : IsGood total Any (hlt c)
  unfolding hlt
  IsGood-hlt = returned tt search

  pub IsGood-igni : IsGood total Any (igni c)
  unfolding igni
  IsGood-igni = returned tt (set_registers h (set_flags h.registers _ h.registers.flags_fit))

  pub IsGood-alwi : IsGood total Any (alwi c)
  unfolding alwi
  IsGood-alwi = returned tt (set_registers h (set_flags h.registers _ h.registers.flags_fit))

  module _ (a : Operand) (p : IsOperand a) where
    pub IsGood-int : IsGood total Any (int_ a c)
    unfolding int_
    IsGood-int = IsGood-bind (IsGood-get_val a p h) λ x c1 k1 h1. IsGood-interruption h1 x

    module _ (b : Operand) (q : IsOperand b) where
      pub IsGood-jmp : IsGood total Any (jmp a b c)
      unfolding jmp
      IsGood-jmp =
          IsGood-bind (IsGood-two_values a b p q h) λ x c1 k1 h1.
            returned tt (set_registers h1 (set_location h1.registers x.0 x.1 k1.0 k1.1))

      pub IsGood-jump_if : (test : Flags → Bool) → IsGood total Any (jump_if test a b c)
      unfolding jump_if
      IsGood-jump_if test = IsGood-if (test c.regs.flags) _ _ c IsGood-jmp (returned tt h)

      pub IsGood-loop : IsGood total Any (loop_ a b c)
      unfolding loop_
      IsGood-loop =
          IsGood-if (sub64 (load bit64 3 c.regs) 1 == 0) _ _ c
            (returned tt (set_registers h (store-IsRegisters bit64 3 0 c.regs h.registers)))
            (IsGood-bind (IsGood-two_values a b p q h) λ x c1 k1 h1. returned tt (
              set_registers h1
                (store-IsRegisters bit64 3 _ _ (set_location h1.registers x.0 x.1 k1.0 k1.1))))

module _ {total : ℕ} {c : Cpu} (h : IsMachine total c) (a : Operand) (p : IsOperand a) (b : Operand)
    (q : IsOperand b) where
  pub IsGood-call : IsGood total Any (call a b c)
  unfolding call
  IsGood-call =
      IsGood-bind
        (IsGood-push h (le_bytes 8 c.regs.code_base) (le_bytes-IsBytes 8 c.regs.code_base))
        λ u c1 k1 h1.
          IsGood-bind
            (IsGood-push h1 (le_bytes 8 c.regs.instruction_pointer)
              (le_bytes-IsBytes 8 c.regs.instruction_pointer))
            λ v c2 k2 h2. IsGood-jmp h2 a p b q
