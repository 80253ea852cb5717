-- ===== src/Tests/Interruptions.antt =====
-- Interruptions and faults at concrete inputs.
use sysdarft.Base.{
  List, [], ap, arith, inr, length-replicate, none, refl, replicate, some, suc, ℕ, ◌∷◌, ◌≡◌,
}
use sysdarft.Hub.{Host}
use sysdarft.Instructions.{find_opcode, instruction_map}
use sysdarft.Execute.{execute, pop_instruction, run_instruction}
use sysdarft.Execute.Faults.{
  execute_faults, execute_undefined, executor_complete, fetching, unregistered,
}
use sysdarft.Operand.{constant}
use sysdarft.Memory.{
  Memory, block_size, out_of_bounds, read_memory, read_pages, write_memory, zero_block,
}
use sysdarft.Memory.Blocks.{replicate-IsUniform}
use sysdarft.Memory.Flat.{IsWellFormed}
use sysdarft.Width.{bit8}
use sysdarft.Registers.{clear_flags, store}
use sysdarft.Registers.Image.{image}
use sysdarft.Machine.{Cpu, done, pop_code, pop_memory_from, stack_overflow, thrown}
use sysdarft.Interrupt.{do_interruption, iret}
use sysdarft.Interrupt.Delivery.{
  CanEnter, KeepsFrame, do_interruption_delivers, entered, entered_unsaved, frame, iret_restores,
}
use sysdarft.Tests.{machine, placed-IsRegisters, test_regs, test_regs-IsRegisters}

-- A memory that holds the interruption table, and 0xFF at address zero.
abbrev pub first_block : List ℕ
first_block = 0xFF ∷ replicate 4095 0

abbrev pub table_memory : Memory
table_memory = record { total = 0xA1000; blocks = first_block ∷ replicate 160 zero_block }

pub table-IsWellFormed : IsWellFormed table_memory
table-IsWellFormed = record {
  aligned = omega (arith, length-replicate 160 zero_block);
  uniform = (
    ap suc (length-replicate {A = ℕ} 4095 0),
    replicate-IsUniform block_size 160 zero_block (length-replicate {A = ℕ} block_size 0),
  );
  small = omega arith;
}

abbrev table_machine : Cpu
table_machine = record (machine table_memory) { regs = record test_regs { code_base = 0 } }

table_machine-CanEnter : CanEnter (machine table_memory)
table_machine-CanEnter = record {
  well_formed = table-IsWellFormed;
  valid = test_regs-IsRegisters;
  table = omega arith;
  room = omega arith;
  fits = omega arith;
}

do_interruption_delivers_example :
    (m : Memory) × (write_memory table_memory (frame (machine table_memory)) (image test_regs)
      ≡ some m)
    × (do_interruption 0x30 (machine table_memory)
        ≡ (done tt, entered 0x30 clear_flags m (machine table_memory)))
do_interruption_delivers_example =
    do_interruption_delivers 0x30 (machine table_memory) table_machine-CanEnter (omega arith)
      (inr (omega arith, refl))

delivered :
    (m : Memory) × (write_memory table_memory (frame (machine table_memory)) (image test_regs)
      ≡ some m)
    × (do_interruption 0x30 (machine table_memory)
        ≡ (done tt, entered 0x30 clear_flags m (machine table_memory)))
delivered =
    do_interruption_delivers 0x30 (machine table_memory) table_machine-CanEnter (omega arith)
      (inr (omega arith, refl))

-- The handler has set R0 to 9.
abbrev handled : Cpu
handled =
    let c = entered 0x30 clear_flags delivered.0 (machine table_memory) in
    record c { regs = store bit8 0 9 (c.regs) }

frame_kept : KeepsFrame (machine table_memory) handled delivered.0
unfolding store
frame_kept = record { same_base = refl; same_pointer = refl; same_bytes = refl }

iret_restores_example : iret handled ≡ (done tt, record handled { regs = test_regs })
iret_restores_example =
    iret_restores (machine table_memory) handled table_machine-CanEnter delivered.1 frame_kept

-- The machine that has read the opcode 0xFF.
abbrev fetched : Cpu
fetched = record table_machine {
  regs = record test_regs { code_base = 0; instruction_pointer = 1 };
}

fetch : pop_code bit8 (fetching table_machine) ≡ (done 0xFF, fetched)
unfolding pop_code pop_memory_from read_memory out_of_bounds read_pages
fetch = refl

undefined : find_opcode 0xFF instruction_map ≡ none
unfolding find_opcode
undefined = refl

fetched-CanEnter : CanEnter fetched
fetched-CanEnter = record {
  well_formed = table-IsWellFormed;
  valid = placed-IsRegisters 0 1 (omega arith) (omega arith);
  table = omega arith;
  room = omega arith;
  fits = omega arith;
}

abbrev test_host : Host
test_host = record {
  now = 0;
  read_file = λ file offset n. none;
  write_file = λ file offset bytes. none;
}

execute_undefined_example :
    (m : Memory) × (write_memory table_memory (frame fetched) (image (fetched.regs)) ≡ some m)
    × (execute test_host table_machine ≡ (done tt, entered 0x06 clear_flags m fetched))
execute_undefined_example =
    execute_undefined test_host table_machine 0xFF fetch undefined fetched-CanEnter

-- The machine whose next instruction is behind the memory.
abbrev stray : Cpu
stray = record (machine table_memory) { regs = record test_regs { code_base = 0xA1000 } }

unreadable :
    (host : Host) (c : Cpu) {c' : Cpu}
    → pop_code bit8 (fetching c) ≡ (thrown stack_overflow, c')
    → run_instruction host c ≡ (thrown stack_overflow, c')
unfolding run_instruction pop_instruction
unreadable host c e = rw e

stray_fetch : pop_code bit8 (fetching stray) ≡ (thrown stack_overflow, fetching stray)
unfolding pop_code pop_memory_from read_memory out_of_bounds
stray_fetch = refl

stray-CanEnter : CanEnter (fetching stray)
stray-CanEnter = record {
  well_formed = table-IsWellFormed;
  valid = placed-IsRegisters 0xA1000 0 (omega arith) (omega arith);
  table = omega arith;
  room = omega arith;
  fits = omega arith;
}

execute_faults_example :
    (m : Memory) × (write_memory table_memory (frame stray) (image (stray.regs)) ≡ some m)
    × (execute test_host stray ≡ (done tt, entered_unsaved 0x07 (fetching stray)))
execute_faults_example =
    execute_faults test_host stray stack_overflow 0x07 (unreadable test_host stray stray_fetch) refl
      stray-CanEnter

executor_complete_example :
    unregistered test_host 0x64 (constant 1 0x64) (constant 2 0x64) instruction_map
    ≡ 0x3C ∷ 0x3D ∷ 0x3E ∷ 0x3F ∷ []
executor_complete_example = executor_complete test_host 0x64 (constant 1 0x64) (constant 2 0x64)
