-- ===== src/Encoding/Sanity.antt =====
-- src/coding/OperandSanity.cpp, and the width check of src/coding/EncodeInstruction.cpp.
use Prim.Native.String.{String}
use text.Mathlib.Text.{◌==◌ as str_eq}
use sysdarft.Base.{
  Bool, List, [], false, if◌then◌else◌, none, not, some, suc, true, zero, ℕ, ◌&&◌, ◌==◌, ◌||◌, ◌∷◌,
}
use sysdarft.Width.{Width, bit16, bit32, bit64, bit8}
use sysdarft.Encoding.Text.{byte_at}
use sysdarft.Encoding.{
  ParsedTarget, constant_target, memory_target, register_target, special_register,
}

-- Whether the name is one of the seven that stand alone.
abbrev pub is_special : String → Bool
is_special name = elim (special_register name) [ some index ↦ true | none ↦ false ]

abbrev pub is_constant : ParsedTarget → Bool
is_constant (register_target name) = false
is_constant (constant_target width expression) = true
is_constant (memory_target ratio width base off1 off2) = false

abbrev pub is_memory : ParsedTarget → Bool
is_memory (register_target name) = false
is_memory (constant_target width expression) = false
is_memory (memory_target ratio width base off1 off2) = true

-- `isInvalid64BitOperand`, true for operands of 64 bits and for every constant.
unfoldable pub is_64_bit : ParsedTarget → Bool
unfolding special_register
is_64_bit (register_target name) = byte_at name 1 == b'F' || is_special name
is_64_bit (constant_target width expression) = true
is_64_bit (memory_target ratio width base off1 off2) = str_eq width "64"

-- A test of `operands.at(i)`, which throws past the end.
unfoldable pub test_at : ℕ → (ParsedTarget → Bool) → List ParsedTarget → Bool
test_at i test [] = false
test_at zero test (o ∷ operands) = test o
test_at (suc i) test (o ∷ operands) = test_at i test operands

abbrev pub member : ℕ → List ℕ → Bool
member n [] = false
member n (x ∷ xs) = n == x || member n xs

-- MOV, POP, AND, OR, XOR, NOT, SHL, SHR, ROL, ROR, RCL, RCR, ADD, SUB, ADC, SBB, NEG, INC and DEC.
abbrev pub writing_opcodes : List ℕ
writing_opcodes =
    0x20 ∷ 0x23 ∷ 0x10 ∷ 0x11 ∷ 0x12 ∷ 0x13 ∷ 0x14 ∷ 0x15 ∷ 0x16 ∷ 0x17 ∷ 0x18 ∷ 0x19 ∷ 0x01 ∷ 0x03
    ∷ 0x02 ∷ 0x04 ∷ 0x09 ∷ 0x0B ∷ 0x0C ∷ []

-- JMP, CALL, JE, JNE, JB, JL, JBE, JLE, JC, JNC, JO, JNO and LOOP.
abbrev pub jump_opcodes : List ℕ
jump_opcodes =
    0x30 ∷ 0x31 ∷ 0x33 ∷ 0x34 ∷ 0x35 ∷ 0x36 ∷ 0x37 ∷ 0x38 ∷ 0x3C ∷ 0x3D ∷ 0x3E ∷ 0x3F ∷ 0x60 ∷ []

-- `OperandSanityCheck`: whether it throws nothing.
unfoldable pub is_sane : ℕ → List ParsedTarget → Bool
unfolding test_at is_64_bit
is_sane opcode operands =
    if opcode == 0x21
    then test_at 0 (λ o. not (is_constant o)) operands
      && test_at 1 (λ o. not (is_constant o)) operands
    else if opcode == 0x50
    then test_at 1 (λ o. not (is_constant o)) operands
    else if member opcode writing_opcodes
    then test_at 0 (λ o. not (is_constant o)) operands
    else if opcode == 0x29
    then test_at 0 (λ o. not (is_constant o)) operands
      && (test_at 1 is_memory operands && test_at 0 is_64_bit operands)
    else if member opcode jump_opcodes
    then test_at 0 is_64_bit operands && test_at 1 is_64_bit operands
    else true

-- The digits of a width.
abbrev pub width_text : Width → String
width_text bit8 = "8"
width_text bit16 = "16"
width_text bit32 = "32"
width_text bit64 = "64"

-- The width consistency check of an operand.
unfoldable pub agrees : Width → ParsedTarget → Bool
unfolding special_register
agrees bit8 (register_target name) = byte_at name 1 == b'R'
agrees bit16 (register_target name) = byte_at name 1 == b'E'
agrees bit32 (register_target name) = byte_at name 1 == b'H'
agrees bit64 (register_target name) = byte_at name 1 == b'F' || is_special name
agrees w (constant_target width expression) = str_eq width (width_text w)
agrees w (memory_target ratio width base off1 off2) = str_eq width (width_text w)
