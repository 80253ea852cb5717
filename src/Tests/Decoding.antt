-- ===== src/Tests/Decoding.antt =====
-- Operands decoded from concrete bytes.
use sysdarft.Base.{
  List, [], arith, le_bytes, length, length-append, length-replicate, none, refl, replicate, some,
  ℕ, ◌%◌, ◌*◌, ◌++◌, ◌+◌, ◌-◌, ◌^◌, ◌∷◌, ◌≡◌, ◌≤◌,
}
use sysdarft.Memory.{Memory, block_size, zero_block}
use sysdarft.Memory.Blocks.{replicate-IsUniform}
use sysdarft.Memory.Flat.{IsWellFormed}
use sysdarft.Registers.{load}
use sysdarft.Width.{bit16, bit32, bit64, bit8, modulus}
use sysdarft.Machine.{Cpu, done}
use sysdarft.Alu.{add}
use sysdarft.Alu.Sums.{add_carry, add_lem, summed}
use sysdarft.Hub.{Host}
use sysdarft.Instructions.{Instruction, find_opcode, instruction_map}
use sysdarft.Execute.{arithmetic, execute, executor, misc}
use sysdarft.Execute.Cycle.{decoded, execute_lem, two_operand_code}
use sysdarft.Operand.{access_register, constant, decode_operand, get_val, memory, register}
use sysdarft.Operand.Decoding.{HasCode, advanced, constant_code, register_code}
use sysdarft.Operand.Addressing.{
  constant_parameter, decode_operand-memory, memory_code, register_parameter, sign_extended,
  times_2,
}
use sysdarft.Tests.{machine, placed-IsRegisters, test_regs}

-- A machine with code at address zero.
abbrev pub code_memory : List ℕ → Memory
code_memory bytes = record {
  total = 8192;
  blocks = (bytes ++ replicate (4096 - length bytes) 0) ∷ zero_block ∷ [];
}

abbrev pub code_machine : List ℕ → Cpu
code_machine bytes = record (machine (code_memory bytes)) {
  regs = record test_regs { code_base = 0 };
}

pub code_memory-IsWellFormed :
    (bytes : List ℕ) → length bytes ≤ 4096 → IsWellFormed (code_memory bytes)
code_memory-IsWellFormed bytes h = record {
  aligned = refl;
  uniform = (
    omega (
      arith,
      length-append bytes (replicate (4096 - length bytes) 0),
      length-replicate {A = ℕ} (4096 - length bytes) 0,
    ),
    replicate-IsUniform block_size 1 zero_block (length-replicate {A = ℕ} block_size 0),
  );
  small = omega arith;
}

abbrev constant_operand : List ℕ
constant_operand = 0x02 ∷ 0x16 ∷ le_bytes 2 0x1234

constant-HasCode : HasCode (code_machine constant_operand) constant_operand
constant-HasCode = record {
  well_formed = code_memory-IsWellFormed constant_operand (omega arith);
  within = omega arith;
  there = refl;
}

-- FER2, the constant 5, the constant -1 of eight bits, and the ratio 2.
abbrev b0 : List ℕ
b0 = 0x01 ∷ 0x64 ∷ 2 ∷ []

abbrev b1 : List ℕ
b1 = 0x02 ∷ 0x08 ∷ le_bytes 1 5

abbrev b2 : List ℕ
b2 = 0x02 ∷ 0x08 ∷ le_bytes 1 0xFF

abbrev memory_operand : List ℕ
memory_operand = memory_code bit32 b0 b1 b2 0x02

abbrev memory_machine : Cpu
memory_machine = code_machine memory_operand

memory-HasCode : HasCode memory_machine memory_operand
memory-HasCode = record {
  well_formed = code_memory-IsWellFormed memory_operand (omega arith);
  within = omega arith;
  there = refl;
}

fer2 : access_register 0x64 2 (memory_machine.regs) ≡ some 0
unfolding access_register load
fer2 = refl

decode_operand-memory_example : decode_operand memory_machine ≡ (
  done (memory ((0 + 5 + sign_extended bit8 0xFF) % 2 ^ 64 * 2 % 2 ^ 64) 0x32),
  advanced (length memory_operand) memory_machine,
)
decode_operand-memory_example =
    decode_operand-memory memory_machine bit32 0x02 (register_parameter 0x64 2 0 bit64 refl fer2)
      (constant_parameter bit8 5 (omega arith)) (constant_parameter bit8 0xFF (omega arith))
      (omega arith) times_2 memory-HasCode

-- ADD of the constant 5 to EXR2.
abbrev pub add_code : List ℕ
add_code = two_operand_code 0x01 bit16 (0x01 ∷ 0x16 ∷ 2 ∷ []) (0x02 ∷ 0x16 ∷ le_bytes 2 5)

abbrev pub add_machine : Cpu
add_machine = code_machine add_code

pub add-HasCode : HasCode add_machine add_code
add-HasCode = record {
  well_formed = code_memory-IsWellFormed add_code (omega arith);
  within = omega arith;
  there = refl;
}

abbrev add_row : Instruction
add_row = record { name = "ADD"; opcode = 0x01; argument_count = 2; needs_width = 1 }

row_found : find_opcode 0x01 instruction_map ≡ some add_row
unfolding find_opcode
row_found = refl

abbrev pub test_host : Host
test_host = record {
  now = 0;
  read_file = λ file offset n. none;
  write_file = λ file offset bytes. none;
}

add_procedure :
    executor test_host 0x01 0x16 (register 0x16 2) (constant 5 0x16)
    ≡ some (add 0x16 (register 0x16 2) (constant 5 0x16))
unfolding executor misc arithmetic
add_procedure = refl

abbrev at_add : Cpu
at_add = decoded (length add_code) add_machine

abbrev added : Cpu
added =
    summed bit16 2 ((load bit16 2 (at_add.regs) + 5) % modulus bit16)
      (add_carry bit16 (load bit16 2 (at_add.regs)) 5) at_add

add_runs : add 0x16 (register 0x16 2) (constant 5 0x16) at_add ≡ (done tt, added)
unfolding get_val
add_runs =
    add_lem bit16 2 (constant 5 0x16) at_add (placed-IsRegisters 0 9 (omega arith) (omega arith))
      (omega arith) refl (omega arith)

execute_lem_example : execute test_host add_machine ≡ (done tt, added)
execute_lem_example =
    execute_lem test_host 0x01 bit16 add_machine added add_row row_found refl refl
      (register_code 0x16 2) (constant_code bit16 5 (omega arith)) add-HasCode add_procedure
      add_runs
