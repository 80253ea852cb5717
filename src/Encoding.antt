-- ===== src/Encoding.antt =====
-- The assembler's encoder: src/coding/EncodeTarget.cpp, src/coding/EncodeInstruction.cpp and
-- src/coding/OperandSanity.cpp. A result `none` is an exception; otherwise it is the bytes that are
-- pushed onto the buffer. The regular expressions, `bc` and `strtoull` are parameters.
pub mod Text
pub mod Sanity
pub mod Instruction
pub mod Denotation
pub mod Operands
pub mod Addresses
pub mod RoundTrip
pub mod Fetch
use Prim.Native.String.{String}
use text.Mathlib.Text.{◌==◌ as str_eq}
use sysdarft.Base.{
  Bool, List, Option, [], if◌then◌else◌, le_bytes, none, some, ℕ, ◌%◌, ◌++◌, ◌==◌, ◌>>=◌, ◌^◌, ◌∷◌,
}
use sysdarft.Width.{Width, bit16, bit32, bit64, bit8, prefix, width_bytes}
use sysdarft.Encoding.Text.{byte_at, extract_trailing_number, without_digits}

-- What the encoder takes from other libraries and programs: `remove_space` and `capitalization` of a
-- text; whether it matches `register_pattern`; the groups of a match of `constant_pattern` (width
-- and expression) and of `memory_pattern` (ratio, width, base and two offsets); the answer of
-- `execute_bc` for an expression after `process_base16`; and `strtoull`, with `none` where it reads
-- no digit.
pub record Tools : Type 0 where
  pub normalise : String → String
  pub match_register : String → Bool
  pub match_constant : String → Option (String × String)
  pub match_memory : String → Option (String × String × String × String × String)
  pub evaluate : String → Option String
  pub read_number : String → Option ℕ

-- `parsed_target_t`, with the fields that its tag makes valid. Those of a memory target are ratio,
-- width, base and two offsets; those of a constant width and expression.
pub data ParsedTarget : Type 0 where
  register_target : String → ParsedTarget
  constant_target : String → String → ParsedTarget
  memory_target : String → String → String → String → String → ParsedTarget

unfoldable pub parse : Tools → String → Option ParsedTarget
parse tools text =
    let input = tools.normalise text in
    if tools.match_register input
    then some (register_target input)
    else elim (tools.match_constant input) [
      | some (width, expression) ↦ some (constant_target width expression)
      | none ↦ elim (tools.match_memory input) [
        | some (ratio, width, base, off1, off2) ↦ some (memory_target ratio width base off1 off2)
        | none ↦ none
      ]
    ]

-- The registers that have a name of their own, and their codes.
unfoldable pub special_register : String → Option ℕ
special_register name =
    if str_eq name "%SB"
    then some 0xA0
    else if str_eq name "%SP"
    then some 0xA1
    else if str_eq name "%CB"
    then some 0xA2
    else if str_eq name "%DB"
    then some 0xA3
    else if str_eq name "%DP"
    then some 0xA4
    else if str_eq name "%EB"
    then some 0xA5
    else if str_eq name "%EP"
    then some 0xA6
    else none

-- The `switch` over the second character of a name.
unfoldable pub register_width : String → Option Width
register_width name =
    if byte_at name 1 == b'R'
    then some bit8
    else if byte_at name 1 == b'E'
    then some bit16
    else if byte_at name 1 == b'H'
    then some bit32
    else if byte_at name 1 == b'F'
    then some bit64
    else none

unfoldable pub register_index : String → ℕ
unfolding extract_trailing_number
register_index name = elim (extract_trailing_number name) [ some n ↦ n % 2 ^ 8 | none ↦ 0 ]

unfoldable pub encode_register : String → Option (List ℕ)
unfolding special_register register_width register_index
encode_register name = elim (special_register name) [
  | some index ↦ some (0x01 ∷ prefix bit64 ∷ index ∷ [])
  | none ↦ elim (register_width name) [
    | some w ↦ some (0x01 ∷ prefix w ∷ register_index name ∷ [])
    | none ↦ none
  ]
]

-- The tests of a width's digits, in `encode_constant` and `encode_memory_width_prefix`.
unfoldable pub named_width : String → Option Width
named_width text =
    if str_eq text "8"
    then some bit8
    else if str_eq text "16"
    then some bit16
    else if str_eq text "32"
    then some bit32
    else if str_eq text "64"
    then some bit64
    else none

unfoldable pub encode_constant : Tools → String → String → Option (List ℕ)
unfolding named_width
encode_constant tools width expression = if str_eq expression "" then none else do
  result ← tools.evaluate expression
  w ← named_width width
  number ← tools.read_number result
  some (0x02 ∷ prefix w ∷ le_bytes (width_bytes w) number)

-- `encode_each_parameter`.
unfoldable pub encode_parameter : Tools → String → Option (List ℕ)
unfolding encode_register encode_constant special_register without_digits
encode_parameter tools param =
    if tools.match_register param
    then elim (special_register param) [
      | some index ↦ encode_register param
      | none ↦ if str_eq (without_digits param) "%FER" then encode_register param else none
    ]
    else elim (tools.match_constant param) [
      | some (width, expression) ↦ encode_constant tools width expression
      | none ↦ none
    ]

-- The packed ratio, and nothing for another text.
unfoldable pub encode_ratio : String → List ℕ
encode_ratio text =
    if str_eq text "1"
    then 0x01 ∷ []
    else if str_eq text "2"
    then 0x02 ∷ []
    else if str_eq text "4"
    then 0x04 ∷ []
    else if str_eq text "8"
    then 0x08 ∷ []
    else if str_eq text "16"
    then 0x16 ∷ []
    else []

unfoldable pub encode_memory : Tools → String → String → String → String → String → Option (List ℕ)
unfolding named_width encode_parameter encode_ratio
encode_memory tools ratio width base off1 off2 = do
  w ← named_width width
  b0 ← encode_parameter tools base
  b1 ← encode_parameter tools off1
  b2 ← encode_parameter tools off2
  some (0x03 ∷ prefix w ∷ (b0 ++ (b1 ++ (b2 ++ encode_ratio ratio))))

-- `encode_target`, of a target that is parsed.
unfoldable pub encode_parsed : Tools → ParsedTarget → Option (List ℕ)
unfolding encode_register encode_constant encode_memory
encode_parsed tools (register_target name) = encode_register name
encode_parsed tools (constant_target width expression) = encode_constant tools width expression
encode_parsed tools (memory_target ratio width base off1 off2) =
    encode_memory tools ratio width base off1 off2

unfoldable pub encode_target : Tools → String → Option (List ℕ × ParsedTarget)
unfolding parse encode_parsed
encode_target tools text = do
  parsed ← parse tools text
  bytes ← encode_parsed tools parsed
  some (bytes, parsed)
