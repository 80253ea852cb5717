-- ===== src/Execute.antt =====
-- src/cpu/SysdarftInstructionExec.cpp and `pop_instruction_from_ip_and_increase_ip` of
-- src/cpu/SysdarftCPUDecoder.cpp: one instruction, decoded and executed. The debugger's break point
-- functions are the defaults that the constructor binds, which never stop and do nothing.
pub mod Cycle
pub mod Faults
use sysdarft.Base.{
  List, Option, [], false, get_or, if◌then◌else◌, none, some, suc, zero, ℕ, ◌==◌, ◌∷◌,
}
use sysdarft.Registers.{store}
use sysdarft.Width.{bit16, bit8, width_of}
use sysdarft.Machine.{
  Cpu, Exception, M, Outcome, aborted, bad_interruption, device_io_error, done, fatal, foreign,
  illegal_instruction, illegal_memory_access, interruption_out_of_range, modify, modify_regs,
  no_such_device, or_throw, pop_code, pure, stack_overflow, sub64, throw, thrown, waiting, ◌>>=◌,
  ◌>>◌,
}
use sysdarft.Operand.{Operand, constant, decode_operand}
use sysdarft.Interrupt.{do_interruption, iret}
use sysdarft.Instructions.{find_opcode, instruction_map}
use sysdarft.Alu.{adc, add, cmp, dec, div, idiv, imul, inc, mul, neg, sbb, sub}
use sysdarft.Logic.{and_, not_, or_, rcl, rcr, rol, ror, shl, shr, xor_}
use sysdarft.Transfer.{enter, lea, leave, mov, movs, pop, popall, push, pushall, xchg}
use sysdarft.Control.{alwi, call, hlt, igni, int3, int_, jb, jbe, je, jl, jle, jmp, jne, loop_, ret}
use sysdarft.Hub.{Host, in_, ins, out, outs}

-- `ActiveInstructionType`.
pub record ActiveInstruction : Type 0 where
  pub opcode : ℕ
  pub width : ℕ
  pub operands : List Operand

-- The loop over the operands, with the rounds left.
unfoldable pub decode_operands : ℕ → M (List Operand)
unfolding decode_operand
decode_operands zero = pure []
decode_operands (suc n) = do o ← decode_operand; os ← decode_operands n; pure (o ∷ os)

-- The width byte, if the instruction has one; otherwise zero.
unfoldable pub decode_width : ℕ → M ℕ
unfolding pop_code
decode_width needs_width =
    if needs_width == 0
    then pure 0
    else do width ← pop_code bit8; w ← or_throw illegal_instruction (width_of width); pure width

unfoldable pub pop_instruction : M ActiveInstruction
unfolding decode_operands decode_width find_opcode pop_code
pop_instruction = do
  opcode ← pop_code bit8
  i ← or_throw illegal_instruction (find_opcode opcode instruction_map)
  width ← decode_width i.needs_width
  operands ← decode_operands i.argument_count
  pure (record { opcode = opcode; width = width; operands = operands })

-- `ExecutorMap`, as the constructor fills it, group by group. `none` is an opcode that is not in the
-- group; `a` and `b` are the operands.
unfoldable pub misc : ℕ → ℕ → Operand → Operand → Option (M (Unit {0}))
unfolding hlt igni alwi
misc opcode width a b =
    if opcode == 0x40
    then some hlt
    else if opcode == 0x41
    then some igni
    else if opcode == 0x42
    then some alwi
    else if opcode == 0x00
    then some (pure tt)
    else none

unfoldable pub arithmetic : ℕ → ℕ → Operand → Operand → Option (M (Unit {0}))
unfolding add adc sub sbb imul mul idiv div neg cmp inc dec
arithmetic opcode width a b =
    if opcode == 0x01
    then some (add width a b)
    else if opcode == 0x02
    then some (adc width a b)
    else if opcode == 0x03
    then some (sub width a b)
    else if opcode == 0x04
    then some (sbb width a b)
    else if opcode == 0x05
    then some (imul width a)
    else if opcode == 0x06
    then some (mul width a)
    else if opcode == 0x07
    then some (idiv width a)
    else if opcode == 0x08
    then some (div width a)
    else if opcode == 0x09
    then some (neg a)
    else if opcode == 0x0A
    then some (cmp a b)
    else if opcode == 0x0B
    then some (inc width a)
    else if opcode == 0x0C
    then some (dec width a)
    else none

unfoldable pub data_transfer : ℕ → ℕ → Operand → Operand → Option (M (Unit {0}))
unfolding mov xchg push pop pushall popall enter leave movs lea
data_transfer opcode width a b =
    if opcode == 0x20
    then some (mov a b)
    else if opcode == 0x21
    then some (xchg a b)
    else if opcode == 0x22
    then some (push width a)
    else if opcode == 0x23
    then some (pop width a)
    else if opcode == 0x24
    then some pushall
    else if opcode == 0x25
    then some popall
    else if opcode == 0x26
    then some (enter a)
    else if opcode == 0x27
    then some leave
    else if opcode == 0x28
    then some movs
    else if opcode == 0x29
    then some (lea a b)
    else none

unfoldable pub logic : ℕ → ℕ → Operand → Operand → Option (M (Unit {0}))
unfolding and_ or_ xor_ not_ shl shr rol ror rcl rcr
logic opcode width a b =
    if opcode == 0x10
    then some (and_ a b)
    else if opcode == 0x11
    then some (or_ a b)
    else if opcode == 0x12
    then some (xor_ a b)
    else if opcode == 0x13
    then some (not_ a)
    else if opcode == 0x14
    then some (shl a b)
    else if opcode == 0x15
    then some (shr a b)
    else if opcode == 0x16
    then some (rol width a b)
    else if opcode == 0x17
    then some (ror width a b)
    else if opcode == 0x18
    then some (rcl width a b)
    else if opcode == 0x19
    then some (rcr width a b)
    else none

unfoldable pub control_flow : ℕ → ℕ → Operand → Operand → Option (M (Unit {0}))
unfolding jmp call ret je jne jb jl jbe jle int_ int3 iret loop_
control_flow opcode width a b =
    if opcode == 0x30
    then some (jmp a b)
    else if opcode == 0x31
    then some (call a b)
    else if opcode == 0x32
    then some ret
    else if opcode == 0x33
    then some (je a b)
    else if opcode == 0x34
    then some (jne a b)
    else if opcode == 0x35
    then some (jb a b)
    else if opcode == 0x36
    then some (jl a b)
    else if opcode == 0x37
    then some (jbe a b)
    else if opcode == 0x38
    then some (jle a b)
    else if opcode == 0x39
    then some (int_ a)
    else if opcode == 0x3A
    then some int3
    else if opcode == 0x3B
    then some iret
    else if opcode == 0x60
    then some (loop_ a b)
    else none

unfoldable pub io : Host → ℕ → ℕ → Operand → Operand → Option (M (Unit {0}))
unfolding in_ out ins outs
io host opcode width a b =
    if opcode == 0x50
    then some (in_ host a b)
    else if opcode == 0x51
    then some (out host a b)
    else if opcode == 0x52
    then some (ins host a)
    else if opcode == 0x53
    then some (outs host a)
    else none

-- The first that is there.
abbrev pub or_else : {A : Type 0} → Option A → Option A → Option A
or_else none b = b
or_else (some a) b = some a

-- `ExecutorMap.at(opcode)`; `none` is std::out_of_range.
unfoldable pub executor : Host → ℕ → ℕ → Operand → Operand → Option (M (Unit {0}))
unfolding misc arithmetic data_transfer logic control_flow io
executor host opcode width a b = or_else (misc opcode width a b) (
    or_else (arithmetic opcode width a b) (
      or_else (data_transfer opcode width a b) (
        or_else (logic opcode width a b)
          (or_else (control_flow opcode width a b) (io host opcode width a b)))))

-- The operand at that index. An instruction has as many as its procedure uses.
abbrev pub operand : List Operand → ℕ → Operand
operand os i = get_or os i (constant 0 0)

unfoldable pub dispatch : Host → ActiveInstruction → M (Unit {0})
unfolding executor
dispatch host i =
    elim (executor host i.opcode i.width (operand i.operands 0) (operand i.operands 1)) [
      | none ↦ throw foreign
      | some procedure ↦ procedure
    ]

-- The inner `try` block.
unfoldable pub run_instruction : Host → M (Unit {0})
unfolding pop_instruction dispatch
run_instruction host = do
  modify (λ c. record c { ip_before_pop = c.regs.instruction_pointer })
  i ← pop_instruction
  modify (λ c. record c {
    pop_len = sub64 c.regs.instruction_pointer c.ip_before_pop;
    int3_debug = false;
  })
  dispatch host i

-- Its handlers.
unfoldable pub handle : Exception → M (Unit {0})
unfolding do_interruption store
handle device_io_error = do modify_regs (store bit16 0 0xF0); do_interruption 0x02
handle bad_interruption = do_interruption 0x04
handle interruption_out_of_range = do_interruption 0x04
handle illegal_instruction = do_interruption 0x06
handle stack_overflow = do_interruption 0x07
handle illegal_memory_access = do_interruption 0x08
handle no_such_device = do modify_regs (store bit16 0 0xF1); do_interruption 0x02
handle fatal = do_interruption 0x00
handle aborted = throw aborted
handle foreign = throw foreign

abbrev pub catch_with :
    Outcome (Unit {0}) × Cpu → (Exception → M (Unit {0})) → Outcome (Unit {0}) × Cpu
catch_with (thrown e, c) h = h e c
catch_with (done u, c) h = (done u, c)
catch_with (waiting, c) h = (waiting, c)

-- The outer handlers: a request to abort ends the instruction, all else goes on to the caller.
unfoldable pub end_abort : Outcome (Unit {0}) × Cpu → Outcome (Unit {0}) × Cpu
end_abort (thrown aborted, c) = (done tt, c)
end_abort (r, c) = (r, c)

unfoldable pub execute : Host → M (Unit {0})
unfolding run_instruction handle end_abort
execute host c = end_abort (catch_with (run_instruction host c) handle)
