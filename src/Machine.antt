-- ===== src/Machine.antt =====
-- The state of the machine, and the computations over it: src/include/SysdarftMemory.h (stack
-- access), src/include/SysdarftInstructionExec.h and the classes that `SysdarftCPU` is made of.
pub mod Stack
use sysdarft.Base.{
  Bool, List, Option, if◌then◌else◌, le_value, length, ltb, none, some, ℕ, ◌%◌, ◌*◌, ◌+◌, ◌-◌, ◌^◌,
}
use sysdarft.Memory.{Memory, read_memory, write_memory}
use sysdarft.Registers.{Registers}
use sysdarft.Devices.{Device}
use sysdarft.Width.{Width, width_bytes}

-- The exceptions that can leave an instruction. `fatal` is any other `SysdarftBaseError`,
-- `foreign` any exception that is none, and `aborted` is
-- SysdarftCPUSubroutineRequestToAbortTheCurrentInstructionExecutionProcedureDueToError.
pub data Exception : Type 0 where
  stack_overflow : Exception
  illegal_memory_access : Exception
  illegal_instruction : Exception
  bad_interruption : Exception
  interruption_out_of_range : Exception
  no_such_device : Exception
  device_io_error : Exception
  fatal : Exception
  aborted : Exception
  foreign : Exception

-- `waiting` is the sleep in the loop of interruption 0x14: the machine is in the state beside it,
-- other threads may change that state, and the loop goes on from it.
pub data Outcome (A : Type 0) : Type 0 where
  done : A → Outcome A
  thrown : Exception → Outcome A
  waiting : Outcome A

-- The fields of `SysdarftCPU` and its base classes that instructions read or write.
pub record Cpu : Type 0 where
  pub regs : Registers
  pub mem : Memory
  pub devices : List Device
  -- SystemHalted, KeyboardIntAbort, CtrlZShutdownRequested
  pub halted : Bool
  pub keyboard_abort : Bool
  pub shutdown_requested : Bool
  -- debugger_pause_blocked_int_0x14, Int3DebugInterrupt
  pub debugger_pause : Bool
  pub int3_debug : Bool
  -- interruption_requests, external_device_requested
  pub requests : List ℕ
  pub external_requested : Bool
  -- current_routine_pop_len, ip_before_pop
  pub pop_len : ℕ
  pub ip_before_pop : ℕ
  -- the screen's cursor, the captured input and translate_cr_to_lf
  pub cursor_x : ℕ
  pub cursor_y : ℕ
  pub cursor_visible : Bool
  pub input : List ℕ
  pub translate_cr : Bool

-- An exception leaves the state as it was when thrown: nothing is rolled back.
abbrev pub M : Type 0 → Type 0
M A = Cpu → Outcome A × Cpu

abbrev pub pure : {A : Type 0} → A → M A
pure a c = (done a, c)

abbrev pub throw : {A : Type 0} → Exception → M A
throw e c = (thrown e, c)

abbrev pub and_then : {A B : Type 0} → Outcome A × Cpu → (A → M B) → Outcome B × Cpu
and_then (done a, c) f = f a c
and_then (thrown e, c) f = (thrown e, c)
and_then (waiting, c) f = (waiting, c)

infixl 5 ◌>>=◌ ◌>>◌
abbrev pub ◌>>=◌ : {A B : Type 0} → M A → (A → M B) → M B
◌>>=◌ m f c = and_then (m c) f

abbrev pub ◌>>◌ : {B : Type 0} → M (Unit {0}) → M B → M B
m >> k = m >>= λ _. k

abbrev pub gets : {A : Type 0} → (Cpu → A) → M A
gets f c = (done (f c), c)

abbrev pub modify : (Cpu → Cpu) → M (Unit {0})
modify f c = (done tt, f c)

abbrev pub modify_regs : (Registers → Registers) → M (Unit {0})
modify_regs f c = (done tt, record c { regs = f c.regs })

-- `none` throws that exception.
abbrev pub or_throw : {A : Type 0} → Exception → Option A → M A
or_throw e none c = (thrown e, c)
or_throw e (some a) c = (done a, c)

-- 64-bit addition, subtraction and multiplication.
abbrev pub add64 : ℕ → ℕ → ℕ
add64 a b = (a + b) % 2 ^ 64

abbrev pub sub64 : ℕ → ℕ → ℕ
sub64 a b = (a + (2 ^ 64 - b % 2 ^ 64)) % 2 ^ 64

abbrev pub mul64 : ℕ → ℕ → ℕ
mul64 a b = (a * b) % 2 ^ 64

-- The memory accesses of the machine.
unfoldable pub read_bytes : ℕ → ℕ → M (List ℕ)
read_bytes address size c = or_throw illegal_memory_access (read_memory c.mem address size) c

unfoldable pub write_bytes : ℕ → List ℕ → M (Unit {0})
write_bytes address source c = elim (write_memory c.mem address source) [
  | none ↦ (thrown illegal_memory_access, c)
  | some m ↦ (done tt, record c { mem = m })
]

-- `push_memory_to`, whose `offset` is a reference: the new memory and the new offset. `none` is
-- StackOverflow, the only exception that it lets out.
unfoldable pub push_memory_to : Memory → ℕ → ℕ → List ℕ → Option (Memory × ℕ)
push_memory_to m begin offset bytes =
    if ltb offset (length bytes)
    then none
    else elim (write_memory m (add64 begin (offset - length bytes)) bytes) [
      | none ↦ none
      | some m' ↦ some (m', offset - length bytes)
    ]

-- `pop_memory_from`: the bytes and the new offset.
unfoldable pub pop_memory_from : Memory → ℕ → ℕ → ℕ → Option (List ℕ × ℕ)
pop_memory_from m begin offset size = elim (read_memory m (add64 begin offset) size) [
  | none ↦ none
  | some bytes ↦ some (bytes, add64 offset size)
]

-- `push_stack`, of the bytes of a value.
unfoldable pub push_stack : List ℕ → M (Unit {0})
push_stack bytes c =
    let sp = c.regs.stack_pointer in
    if ltb sp (length bytes)
    then (thrown stack_overflow, c)
    else elim (write_memory c.mem (add64 (sp - length bytes) c.regs.stack_base) bytes) [
      | none ↦ (thrown stack_overflow, c)
      | some m ↦ (
        done tt,
        record c { mem = m; regs = record (c.regs) { stack_pointer = sp - length bytes } },
      )
    ]

-- `pop_stack`, of the bytes of a value of that size.
unfoldable pub pop_stack : ℕ → M (List ℕ)
pop_stack size c =
    let sp = c.regs.stack_pointer in
    elim (read_memory c.mem (add64 c.regs.stack_base sp) size) [
      | none ↦ (thrown stack_overflow, c)
      | some bytes ↦
          (done bytes, record c { regs = record (c.regs) { stack_pointer = add64 sp size } })
    ]

-- `pop_code_and_inc_ip`, as a number.
unfoldable pub pop_code : Width → M ℕ
unfolding pop_memory_from
pop_code w c =
    elim (pop_memory_from c.mem c.regs.code_base c.regs.instruction_pointer (width_bytes w)) [
      | none ↦ (thrown stack_overflow, c)
      | some (bytes, ip) ↦
          (done (le_value bytes), record c { regs = record (c.regs) { instruction_pointer = ip } })
    ]
