-- ===== src/Encoding/Instruction.antt =====
-- `encode_instruction` of src/coding/EncodeInstruction.cpp, of a line that `clean_line` has cut.
use Prim.Native.String.{String, len, slice}
use text.Mathlib.Text.{◌==◌ as str_eq}
use sysdarft.Base.{
  ◌>>=◌, Bool, List, Option, [], if◌then◌else◌, length, ltb, none, some, suc, true, zero, ℕ, ◌++◌,
  ◌-◌, ◌==◌, ◌∷◌,
}
use sysdarft.Width.{Width, bit16, bit32, bit64, bit8, prefix}
use sysdarft.Instructions.{Instruction, instruction_map}
use sysdarft.Encoding.{ParsedTarget, Tools, encode_target}
use sysdarft.Encoding.Sanity.{agrees, is_sane}

-- `instruction_map.at`.
unfoldable pub find_name : String → List Instruction → Option Instruction
find_name name [] = none
find_name name (i ∷ rows) = if str_eq i.name name then some i else find_name name rows

-- `encode_width_specifier`.
unfoldable pub encode_width_specifier : String → Option Width
encode_width_specifier text =
    if str_eq text ".8BIT"
    then some bit8
    else if str_eq text ".16BIT"
    then some bit16
    else if str_eq text ".32BIT"
    then some bit32
    else if str_eq text ".64BIT"
    then some bit64
    else none

-- The text between `<` and `>`.
abbrev pub without_brackets : String → String
without_brackets text = slice text 1 (len text - 1)

abbrev pub passes : Option Width → ParsedTarget → Bool
passes none parsed = true
passes (some w) parsed = agrees w parsed

-- The loop over the operands, with the rounds left: the bytes and the operands of the sanity check.
-- The number of operands that are given is tested in every round, and in none if none is needed.
unfoldable pub encode_operands :
    Tools → Option Width → ℕ → ℕ → ℕ → List String → Option (List ℕ × List ParsedTarget)
unfolding encode_target agrees
encode_operands tools width needed provided zero texts = some ([], [])
encode_operands tools width needed provided (suc k) [] = none
encode_operands tools width needed provided (suc k) (text ∷ texts) =
    let later = encode_operands tools width needed provided k texts in
    if ltb provided needed then none else if ltb needed provided then none else do
      first ← encode_target tools (without_brackets text)
      rest ← (if passes width first.1 then later else none)
      some (first.0 ++ rest.0, first.1 ∷ rest.1)

-- The operation width: its byte, if the instruction has one, and the texts behind it.
unfoldable pub encode_width :
    Instruction → List String → Option (Option Width × List ℕ × List String)
unfolding encode_width_specifier
encode_width row [] = if row.needs_width == 0 then some (none, [], []) else none
encode_width row (text ∷ texts) =
    if row.needs_width == 0
    then some (none, [], text ∷ texts)
    else do w ← encode_width_specifier text; some (some w, prefix w ∷ [], texts)

unfoldable pub encode_instruction : Tools → String → List String → Option (List ℕ)
unfolding find_name encode_width encode_operands is_sane
encode_instruction tools name texts = do
  row ← find_name name instruction_map
  head ← encode_width row texts
  operands ←
      encode_operands tools head.0 row.argument_count (length head.2) row.argument_count head.2
  if is_sane row.opcode operands.1 then some (row.opcode ∷ (head.1 ++ operands.0)) else none
