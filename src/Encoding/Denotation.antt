-- ===== src/Encoding/Denotation.antt =====
-- What the texts of operands mean: registers, constants and addresses.
use sysdarft.Encoding.Instruction.{encode_width, find_name, without_brackets}
use sysdarft.Instructions.{instruction_map}
use sysdarft.Execute.{ActiveInstruction}
use Prim.Native.String.{String}
use text.Mathlib.Text.{◌==◌ as str_eq}
use sysdarft.Base.{Bool, List, Option, [], if◌then◌else◌, none, some, suc, zero, ℕ, ◌%◌, ◌>>=◌, ◌∷◌}
use sysdarft.Width.{Width, bit64, modulus, prefix, width_of}
use sysdarft.Registers.{Registers}
use sysdarft.Machine.{add64, mul64}
use sysdarft.Operand.{Operand, access_register, constant, memory, register, signed_offset}
use sysdarft.Encoding.{
  ParsedTarget, Tools, constant_target, memory_target, named_width, parse, register_index,
  register_target, register_width, special_register,
}

-- The width prefix and the index of the register of a name.
abbrev pub operand_from : Option ℕ → Option Width → ℕ → Option (ℕ × ℕ)
operand_from (some special) w index = some (prefix bit64, special)
operand_from none (some w) index = some (prefix w, index)
operand_from none none index = none

abbrev pub register_operand : String → Option (ℕ × ℕ)
register_operand name =
    operand_from (special_register name) (register_width name) (register_index name)

-- The width of a constant, and its value cut to that width.
abbrev pub constant_value : Tools → String → String → Option (Width × ℕ)
constant_value tools width expression = do
  result ← tools.evaluate expression
  w ← named_width width
  number ← tools.read_number result
  some (w, number % modulus w)

abbrev pub register_value : Registers → ℕ × ℕ → Option (ℕ × Width)
register_value r x = access_register x.0 x.1 r >>= λ v. width_of x.0 >>= λ w. some (v, w)

abbrev pub swapped : Width × ℕ → Option (ℕ × Width)
swapped x = some (x.1, x.0)

-- The value of a part of an address, and its width.
abbrev pub parameter_value : Tools → Registers → String → Option (ℕ × Width)
parameter_value tools r param =
    if tools.match_register param
    then (register_operand param >>= register_value r)
    else (tools.match_constant param >>= λ x. constant_value tools x.0 x.1 >>= swapped)

abbrev pub named_ratio_from : Bool → Bool → Bool → Bool → Bool → Option ℕ
named_ratio_from one two four eight sixteen =
    if one
    then some 1
    else if two
    then some 2
    else if four
    then some 4
    else if eight
    then some 8
    else if sixteen
    then some 16
    else none

-- The factor of an address.
abbrev pub named_ratio : String → Option ℕ
named_ratio text =
    named_ratio_from (str_eq text "1") (str_eq text "2") (str_eq text "4") (str_eq text "8")
      (str_eq text "16")

-- The operand that a target denotes where the registers hold those values.
abbrev pub operand_of : Tools → Registers → ParsedTarget → Option Operand
operand_of tools r (register_target name) = register_operand name >>= λ x. some (register x.0 x.1)
operand_of tools r (constant_target width expression) =
    constant_value tools width expression >>= λ x. some (constant x.1 (prefix x.0))
operand_of tools r (memory_target ratio width base off1 off2) = named_width width >>= λ w.
    parameter_value tools r base >>= λ b. parameter_value tools r off1 >>= λ x.
    parameter_value tools r off2 >>= λ y. named_ratio ratio >>= λ k.
    some (memory (mul64 (add64 (add64 b.0 x.0) (signed_offset y.1 y.0)) k) (prefix w))

-- The operands of the first `k` texts.
unfoldable pub operands_of : Tools → Registers → ℕ → List String → Option (List Operand)
operands_of tools r zero texts = some []
operands_of tools r (suc k) [] = none
operands_of tools r (suc k) (text ∷ texts) =
    let later = operands_of tools r k texts in
    parse tools (without_brackets text) >>= λ t.
    operand_of tools r t >>= λ o. later >>= λ os. some (o ∷ os)

-- The byte that the decoder gives for a width.
abbrev pub width_code : Option Width → ℕ
width_code none = 0
width_code (some w) = prefix w

-- The instruction that a name and its texts denote, where the registers hold those values.
unfoldable pub instruction_of : Tools → Registers → String → List String → Option ActiveInstruction
unfolding operands_of
instruction_of tools r name texts = find_name name instruction_map >>= λ row.
    encode_width row texts >>= λ head. operands_of tools r row.argument_count head.2 >>= λ os.
    some (record { opcode = row.opcode; width = width_code head.0; operands = os })
