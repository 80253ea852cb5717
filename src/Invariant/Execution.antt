-- ===== src/Invariant/Execution.antt =====
-- A whole instruction: decoded, dispatched, and its exception handled.
use sysdarft.Invariant.Procedures.{IsSafeEntry, executor-IsSafe}
use sysdarft.Invariant.Services.{IsGood-interruption}
use sysdarft.Registers.Aliasing.{store-IsRegisters}
use sysdarft.Registers.{store}
use sysdarft.Invariant.Streams.{ReadsBytes}
use sysdarft.Invariant.Arithmetic.{IsGood-width}
use sysdarft.Invariant.Access.{IsGood-code, set_registers}
use sysdarft.Invariant.Decoding.{IsGood-decode_operand}
use sysdarft.Invariant.Operands.{IsOperand}
use sysdarft.Invariant.{
  Any, IsGood, IsMachine, IsWord, IsGood-bind, IsGood-if, IsGood-or_throw, returned, slept, threw,
}
use sysdarft.Machine.{
  Cpu, Exception, M, Outcome, aborted, bad_interruption, device_io_error, fatal, foreign,
  illegal_instruction, illegal_memory_access, interruption_out_of_range, no_such_device,
  stack_overflow, sub64, throw,
}
use sysdarft.Execute.{
  ActiveInstruction, catch_with, decode_operands, decode_width, dispatch, end_abort, execute,
  executor, handle, operand, pop_instruction, run_instruction,
}
use sysdarft.Hub.{Host}
use sysdarft.Operand.{Operand}
use sysdarft.Instructions.{find_opcode, instruction_map}
use sysdarft.Width.{bit16, bit8}
use sysdarft.Base.{List, Option, [], arith, false, none, some, suc, zero, ℕ, ◌==◌, ◌∷◌}

-- Operands that the decoder gives.
abbrev AreOperands : List Operand → Type 0
AreOperands [] = Unit
AreOperands (o ∷ os) = IsOperand o × AreOperands os

operand-IsOperand : (os : List Operand) (i : ℕ) → AreOperands os → IsOperand (operand os i)
operand-IsOperand [] i h = omega arith
operand-IsOperand (o ∷ os) zero h = h.0
operand-IsOperand (o ∷ os) (suc i) h = operand-IsOperand os i h.1

module _ {total : ℕ} where
  IsGood-decode_operands :
      (n : ℕ) (c : Cpu) → IsMachine total c → IsGood total AreOperands (decode_operands n c)
  unfolding decode_operands
  IsGood-decode_operands zero c h = returned tt h
  IsGood-decode_operands (suc n) c h =
      IsGood-bind (IsGood-decode_operand c h) λ o c1 k1 h1.
        IsGood-bind (IsGood-decode_operands n c1 h1) λ os c2 k2 h2. returned (k1, k2) h2

  IsGood-decode_width :
      (needs_width : ℕ) (c : Cpu)
      → IsMachine total c
      → IsGood total Any (decode_width needs_width c)
  unfolding decode_width
  IsGood-decode_width needs_width c h = IsGood-if (needs_width == 0) _ _ c (returned tt h) (
      IsGood-bind (IsGood-code h bit8)
        λ width c1 k1 h1. IsGood-bind (IsGood-width width h1) λ w c2 k2 h2. returned tt h2)

  pub IsGood-pop_instruction :
      (c : Cpu) → IsMachine total c → IsGood total (λ i. AreOperands i.operands) (pop_instruction c)
  unfolding pop_instruction
  IsGood-pop_instruction c h = IsGood-bind (IsGood-code h bit8) λ opcode c1 k1 h1.
      IsGood-bind
        (IsGood-or_throw {P = Any} illegal_instruction (find_opcode opcode instruction_map) h1
          (λ x e. tt))
        λ i c2 k2 h2. IsGood-bind (IsGood-decode_width i.needs_width c2 h2) λ width c3 k3 h3.
          IsGood-bind (IsGood-decode_operands i.argument_count c3 h3) λ os c4 k4 h4. returned k4 h4

module _ {total : ℕ} {c : Cpu} (h : IsMachine total c) where
  with_start : (v : ℕ) → IsWord v → IsMachine total (record c { ip_before_pop = v })
  with_start v k = search

  with_length : (v : ℕ) → IsWord v → IsMachine total (record c { pop_len = v; int3_debug = false })
  with_length v k = search

  -- EXR0 holds the code of a failed device.
  with_code : (v : ℕ) → IsMachine total (record c { regs = store bit16 0 v c.regs })
  with_code v = set_registers h (store-IsRegisters bit16 0 v c.regs h.registers)

-- The machine of an outcome, whatever came out.
pub IsGood-state :
    {total : ℕ} {A : Type 0} {P : A → Type 0} {r : Outcome A × Cpu}
    → IsGood total P r
    → IsMachine total r.1
IsGood-state (returned p h) = h
IsGood-state (threw h) = h
IsGood-state (slept h) = h

module _ {total : ℕ} (host : Host) (reads : ReadsBytes host) where
  IsGood-dispatch :
      (i : ActiveInstruction)
      → AreOperands i.operands
      → (c : Cpu) → IsMachine total c
      → IsGood total Any (dispatch host i c)
  unfolding dispatch
  IsGood-dispatch i k c h =
      run (executor host i.opcode i.width (operand i.operands 0) (operand i.operands 1)) (
        executor-IsSafe total i.opcode i.width (operand i.operands 0) (operand i.operands 1)
          (operand-IsOperand i.operands 0 k) (operand-IsOperand i.operands 1 k) host reads)
    where
      run :
          (o : Option (M (Unit {0})))
          → IsSafeEntry total o
          → IsGood total {A = Unit {0}} Any (
              (elim o as (λ _. M (Unit {0})) [ none ↦ throw foreign | some procedure ↦ procedure ])
                c)
      run none s = threw h
      run (some m) s = s c h

  IsGood-run : (c : Cpu) → IsMachine total c → IsGood total Any (run_instruction host c)
  unfolding run_instruction
  IsGood-run c h =
      IsGood-bind
        (IsGood-pop_instruction (record c { ip_before_pop = c.regs.instruction_pointer })
          (with_start h _ h.registers.instruction_pointer_fits))
        λ i c1 k h1.
          IsGood-dispatch i k _
            (with_length h1 (sub64 c1.regs.instruction_pointer c1.ip_before_pop) (omega arith))

  IsGood-handle : (e : Exception) (c : Cpu) → IsMachine total c → IsGood total Any (handle e c)
  unfolding handle
  IsGood-handle device_io_error c h = IsGood-interruption (with_code h 0xF0) 0x02
  IsGood-handle bad_interruption c h = IsGood-interruption h 0x04
  IsGood-handle interruption_out_of_range c h = IsGood-interruption h 0x04
  IsGood-handle illegal_instruction c h = IsGood-interruption h 0x06
  IsGood-handle stack_overflow c h = IsGood-interruption h 0x07
  IsGood-handle illegal_memory_access c h = IsGood-interruption h 0x08
  IsGood-handle no_such_device c h = IsGood-interruption (with_code h 0xF1) 0x02
  IsGood-handle fatal c h = IsGood-interruption h 0x00
  IsGood-handle aborted c h = threw h
  IsGood-handle foreign c h = threw h

  IsGood-end_abort :
      (r : Outcome (Unit {0}) × Cpu) → IsGood total Any r → IsGood total Any (end_abort r)
  unfolding end_abort
  IsGood-end_abort r (returned p h) = returned p h
  IsGood-end_abort r (slept h) = slept h
  IsGood-end_abort r (threw {e = aborted} h) = returned tt h
  IsGood-end_abort r (threw {e = stack_overflow} h) = threw h
  IsGood-end_abort r (threw {e = illegal_memory_access} h) = threw h
  IsGood-end_abort r (threw {e = illegal_instruction} h) = threw h
  IsGood-end_abort r (threw {e = bad_interruption} h) = threw h
  IsGood-end_abort r (threw {e = interruption_out_of_range} h) = threw h
  IsGood-end_abort r (threw {e = no_such_device} h) = threw h
  IsGood-end_abort r (threw {e = device_io_error} h) = threw h
  IsGood-end_abort r (threw {e = fatal} h) = threw h
  IsGood-end_abort r (threw {e = foreign} h) = threw h

  IsGood-catch :
      (r : Outcome (Unit {0}) × Cpu) → IsGood total Any r → IsGood total Any (catch_with r handle)
  IsGood-catch r (returned p h) = returned p h
  IsGood-catch r (slept h) = slept h
  IsGood-catch r (threw {e = e} h) = IsGood-handle e _ h

  -- Where the host reads bytes from files, `execute` keeps the machine one, whatever the memory
  -- holds at the instruction pointer and whatever is thrown: the memory is well formed, holds bytes
  -- and has the same total; every register fits its type; the streams of the devices hold bytes;
  -- the cursor is on the screen; and the recorded pointer and length fit 64 bits.
  pub execute-IsMachine : (c : Cpu) → IsMachine total c → IsMachine total (execute host c).1
  unfolding execute
  execute-IsMachine c h = IsGood-state (IsGood-end_abort _ (IsGood-catch _ (IsGood-run c h)))
