-- ===== src/Tests.antt =====
-- Machines for the tests.
pub mod Decoding
pub mod Storage
pub mod Transfers
pub mod Preprocessing
pub mod Processor
pub mod Interruptions
pub mod Running
pub mod Assembling
use sysdarft.Base.{
  [], arith, false, length-replicate, refl, replicate, replicate-IsBytes, some, true, ℕ, ◌<◌, ◌^◌,
  ◌≡◌,
}
use sysdarft.Memory.{Memory, block_size, init, zero_block}
use sysdarft.Memory.Flat.{IsWellFormed}
use sysdarft.Memory.Blocks.{replicate-IsUniform}
use sysdarft.Registers.{IsRegisters, Registers, initial}
use sysdarft.Machine.{Cpu}

-- Two blocks.
abbrev pub small_memory : Memory
small_memory = record { total = 8192; blocks = replicate 2 zero_block }

pub init_small : init 8192 ≡ some small_memory
unfolding init
init_small = refl

pub small-IsWellFormed : IsWellFormed small_memory
small-IsWellFormed = record {
  aligned = refl;
  uniform = replicate-IsUniform block_size 2 zero_block (length-replicate {A = ℕ} block_size 0);
  small = omega arith;
}

-- A stack of a page.
abbrev pub test_regs : Registers
test_regs = record initial {
  stack_pointer = 4096;
  instruction_pointer = 0;
  code_base = 4096;
  data_base = 100;
  extended_base = 4090;
}

pub placed-IsRegisters :
    (cb ip : ℕ)
    → cb < 2 ^ 64
    → ip < 2 ^ 64
    → IsRegisters (record test_regs { code_base = cb; instruction_pointer = ip })
placed-IsRegisters cb ip h k = record {
  size = length-replicate {A = ℕ} 128 0;
  bytes = replicate-IsBytes 128 0 (omega arith);
  flags_fit = (omega arith, omega arith);
  stack_base_fits = omega arith;
  stack_pointer_fits = omega arith;
  code_base_fits = h;
  instruction_pointer_fits = k;
  data_base_fits = omega arith;
  data_pointer_fits = omega arith;
  extended_base_fits = omega arith;
  extended_pointer_fits = omega arith;
  stack_preservation_fits = omega arith;
  selector_start_fits = omega arith;
  selector_size_fits = omega arith;
  reserved1_fits = omega arith;
  reserved2_fits = omega arith;
  reserved3_fits = omega arith;
  reserved4_fits = omega arith;
}

pub test_regs-IsRegisters : IsRegisters test_regs
test_regs-IsRegisters = placed-IsRegisters 4096 0 (omega arith) (omega arith)

abbrev pub machine : Memory → Cpu
machine m = record {
  regs = test_regs;
  mem = m;
  devices = [];
  halted = false;
  keyboard_abort = false;
  shutdown_requested = false;
  debugger_pause = false;
  int3_debug = false;
  requests = [];
  external_requested = false;
  pop_len = 0;
  ip_before_pop = 0;
  cursor_x = 0;
  cursor_y = 0;
  cursor_visible = true;
  input = [];
  translate_cr = false;
}

abbrev pub small_machine : Cpu
small_machine = machine small_memory
