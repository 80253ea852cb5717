-- ===== src/Tests/Assembling.antt =====
-- Targets and instructions, encoded and decoded.
use sysdarft.Tests.Decoding.{
  add-HasCode, add_code, add_machine, code_machine, code_memory-IsWellFormed,
}
use sysdarft.Encoding.Fetch.{pop_instruction-encode}
use sysdarft.Encoding.RoundTrip.{decode-encode}
use sysdarft.Encoding.Denotation.{instruction_of, operand_of, operands_of}
use sysdarft.Encoding.Instruction.{
  encode_instruction, encode_operands, encode_width, encode_width_specifier, find_name,
}
use sysdarft.Encoding.Sanity.{agrees, is_sane, test_at}
use sysdarft.Encoding.Text.{digits_start, extract_trailing_number, read_digits, without_digits}
use sysdarft.Encoding.{
  ParsedTarget, Tools, encode_constant, encode_memory, encode_parameter, encode_parsed,
  encode_ratio, encode_register, encode_target, memory_target, named_width, parse, register_index,
  register_width, special_register,
}
use sysdarft.Execute.{ActiveInstruction, pop_instruction}
use sysdarft.Operand.Decoding.{HasCode, advanced}
use sysdarft.Operand.{
  Operand, access_register, constant, decode_operand, memory, register, signed_offset,
}
use sysdarft.Machine.{add64, done, mul64}
use sysdarft.Registers.{load}
use sysdarft.Width.{bit8}
use Prim.Native.String.{String}
use text.Mathlib.Text.{◌==◌ as str_eq}
use sysdarft.Base.{List, [], arith, length, none, refl, some, ℕ, ◌∷◌, ◌≡◌}

-- Tools that know one register and one constant.
abbrev tools : String → String → String → Tools
tools name width value = record {
  normalise = λ text. text;
  match_register = λ text. str_eq text name;
  match_constant = λ text. some (width, value);
  match_memory = λ text. none;
  evaluate = λ expression. some expression;
  read_number = λ text. some 5;
}

-- *2&32(%FER2, $8(5), $8(5)).
abbrev target : ParsedTarget
target = memory_target "2" "32" "%FER2" "$8(5)" "$8(5)"

abbrev target_bytes : List ℕ
target_bytes = 0x03 ∷ 0x32 ∷ 0x01 ∷ 0x64 ∷ 2 ∷ 0x02 ∷ 0x08 ∷ 5 ∷ 0x02 ∷ 0x08 ∷ 5 ∷ 0x02 ∷ []

target_encoded : encode_parsed (tools "%FER2" "8" "5") target ≡ some target_bytes
unfolding encode_parsed encode_memory encode_parameter encode_register encode_constant encode_ratio
    named_width special_register register_width register_index extract_trailing_number digits_start
    read_digits without_digits
target_encoded = refl

abbrev meant : Operand
meant = memory (mul64 (add64 (add64 0 5) (signed_offset bit8 5)) 2) 0x32

target_denoted :
    operand_of (tools "%FER2" "8" "5") (code_machine target_bytes).regs target ≡ some meant
unfolding named_width special_register register_width register_index extract_trailing_number
    digits_start read_digits access_register load
target_denoted = refl

target-HasCode : HasCode (code_machine target_bytes) target_bytes
target-HasCode = record {
  well_formed = code_memory-IsWellFormed target_bytes (omega arith);
  within = omega arith;
  there = refl;
}

decode-encode_example :
    decode_operand (code_machine target_bytes)
    ≡ (done meant, advanced (length target_bytes) (code_machine target_bytes))
decode-encode_example =
    decode-encode (tools "%FER2" "8" "5") target (code_machine target_bytes) target_encoded
      target_denoted target-HasCode

-- ADD .16BIT <%EXR2>, <$16(5)>.
abbrev texts : List String
texts = ".16BIT" ∷ "<%EXR2>" ∷ "<$16(5)>" ∷ []

add_encoded : encode_instruction (tools "%EXR2" "16" "5") "ADD" texts ≡ some add_code
unfolding encode_instruction find_name encode_width encode_width_specifier encode_operands
    encode_target parse agrees is_sane test_at encode_parsed encode_register encode_constant
    named_width special_register register_width register_index extract_trailing_number digits_start
    read_digits
add_encoded = refl

abbrev add_instruction : ActiveInstruction
add_instruction = record {
  opcode = 0x01;
  width = 0x16;
  operands = register 0x16 2 ∷ constant 5 0x16 ∷ [];
}

add_denoted :
    instruction_of (tools "%EXR2" "16" "5") add_machine.regs "ADD" texts ≡ some add_instruction
unfolding instruction_of operands_of find_name encode_width encode_width_specifier parse named_width
    special_register register_width register_index extract_trailing_number digits_start read_digits
add_denoted = refl

pop_instruction-encode_example :
    pop_instruction add_machine ≡ (done add_instruction, advanced (length add_code) add_machine)
pop_instruction-encode_example =
    pop_instruction-encode (tools "%EXR2" "16" "5") "ADD" texts add_machine add_encoded add_denoted
      add-HasCode
