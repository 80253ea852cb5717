-- ===== src/Instructions.antt =====
-- `instruction_map` of src/include/InstructionSet.h.
use Prim.Native.String.{String}
use sysdarft.Base.{List, Option, [], if◌then◌else◌, none, some, ℕ, ◌==◌, ◌∷◌}

pub record Instruction : Type 0 where
  pub name : String
  pub opcode : ℕ
  pub argument_count : ℕ
  pub needs_width : ℕ

abbrev row : String → ℕ → ℕ → ℕ → Instruction
row name opcode argument_count needs_width = record {
  name = name;
  opcode = opcode;
  argument_count = argument_count;
  needs_width = needs_width;
}

abbrev pub instruction_map : List Instruction
instruction_map =
    row "NOP" 0x00 0 0
    ∷ row "ADD" 0x01 2 1
    ∷ row "ADC" 0x02 2 1
    ∷ row "SUB" 0x03 2 1
    ∷ row "SBB" 0x04 2 1
    ∷ row "IMUL" 0x05 1 1
    ∷ row "MUL" 0x06 1 1
    ∷ row "IDIV" 0x07 1 1
    ∷ row "DIV" 0x08 1 1
    ∷ row "NEG" 0x09 1 1
    ∷ row "CMP" 0x0A 2 1
    ∷ row "INC" 0x0B 1 1
    ∷ row "DEC" 0x0C 1 1
    ∷ row "AND" 0x10 2 1
    ∷ row "OR" 0x11 2 1
    ∷ row "XOR" 0x12 2 1
    ∷ row "NOT" 0x13 1 1
    ∷ row "SHL" 0x14 2 1
    ∷ row "SHR" 0x15 2 1
    ∷ row "ROL" 0x16 2 1
    ∷ row "ROR" 0x17 2 1
    ∷ row "RCL" 0x18 2 1
    ∷ row "RCR" 0x19 2 1
    ∷ row "MOV" 0x20 2 1
    ∷ row "XCHG" 0x21 2 1
    ∷ row "PUSH" 0x22 1 1
    ∷ row "POP" 0x23 1 1
    ∷ row "PUSHALL" 0x24 0 0
    ∷ row "POPALL" 0x25 0 0
    ∷ row "ENTER" 0x26 1 1
    ∷ row "LEAVE" 0x27 0 0
    ∷ row "MOVS" 0x28 0 0
    ∷ row "LEA" 0x29 2 0
    ∷ row "JMP" 0x30 2 0
    ∷ row "CALL" 0x31 2 0
    ∷ row "RET" 0x32 0 0
    ∷ row "JE" 0x33 2 0
    ∷ row "JNE" 0x34 2 0
    ∷ row "JB" 0x35 2 0
    ∷ row "JL" 0x36 2 0
    ∷ row "JBE" 0x37 2 0
    ∷ row "JLE" 0x38 2 0
    ∷ row "INT" 0x39 1 0
    ∷ row "INT3" 0x3A 0 0
    ∷ row "IRET" 0x3B 0 0
    ∷ row "JC" 0x3C 2 0
    ∷ row "JNC" 0x3D 2 0
    ∷ row "JO" 0x3E 2 0
    ∷ row "JNO" 0x3F 2 0
    ∷ row "LOOP" 0x60 2 0
    ∷ row "HLT" 0x40 0 0
    ∷ row "IGNI" 0x41 0 0
    ∷ row "ALWI" 0x42 0 0
    ∷ row "IN" 0x50 2 1
    ∷ row "OUT" 0x51 2 1
    ∷ row "INS" 0x52 1 1
    ∷ row "OUTS" 0x53 1 1
    ∷ []

-- The loop over the map in `pop_instruction_from_ip_and_increase_ip`. The opcodes differ, so the
-- order of the map does not matter, and the
-- second entry for IRET, equal to the first, is left out.
unfoldable pub find_opcode : ℕ → List Instruction → Option Instruction
find_opcode opcode [] = none
find_opcode opcode (i ∷ rest) = if i.opcode == opcode then some i else find_opcode opcode rest
