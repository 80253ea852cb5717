-- ===== src/Operand.antt =====
-- `OperandType`: decoding an operand, reading it and writing it. src/cpu/SysdarftCPUDecoder.cpp and
-- src/include/SysdarftCPUDecoder.h, in the build without `__DEBUG__`.
pub mod Access
pub mod Addressing
pub mod Decoding
use Prim.Native.Nat.{bit_or}
use sysdarft.Base.{
  Bool, Option, if◌then◌else◌, le_bytes, le_value, ltb, none, some, ℕ, ◌%◌, ◌/◌, ◌==◌,
}
use sysdarft.Registers.{Registers, load, store}
use sysdarft.Width.{Width, bit16, bit32, bit64, bit8, modulus, width_bytes, width_of}
use sysdarft.Machine.{
  M, add64, gets, illegal_instruction, modify, mul64, or_throw, pop_code, pop_memory_from, pure,
  stack_overflow, throw, write_bytes, ◌>>=◌,
}

-- `OperandReferenceTable`, by its `OperandType`: register width and index, constant value and
-- width, memory address and width.
pub data Operand : Type 0 where
  register : ℕ → ℕ → Operand
  constant : ℕ → ℕ → Operand
  memory : ℕ → ℕ → Operand

-- `REGISTER_PREFIX`, `CONSTANT_PREFIX` and `MEMORY_PREFIX`.
abbrev pub register_prefix : ℕ
register_prefix = 0x01

abbrev pub constant_prefix : ℕ
constant_prefix = 0x02

abbrev pub memory_prefix : ℕ
memory_prefix = 0x03

-- The registers beside the general ones, `R_StackBase` to `R_ExtendedPointer`.
unfoldable pub special_value : ℕ → Registers → Option ℕ
special_value index r =
    if index == 0xA0
    then some r.stack_base
    else if index == 0xA1
    then some r.stack_pointer
    else if index == 0xA2
    then some r.code_base
    else if index == 0xA3
    then some r.data_base
    else if index == 0xA4
    then some r.data_pointer
    else if index == 0xA5
    then some r.extended_base
    else if index == 0xA6
    then some r.extended_pointer
    else none

unfoldable pub set_special : ℕ → ℕ → Registers → Option Registers
set_special index v r =
    if index == 0xA0
    then some (record r { stack_base = v })
    else if index == 0xA1
    then some (record r { stack_pointer = v })
    else if index == 0xA2
    then some (record r { code_base = v })
    else if index == 0xA3
    then some (record r { data_base = v })
    else if index == 0xA4
    then some (record r { data_pointer = v })
    else if index == 0xA5
    then some (record r { extended_base = v })
    else if index == 0xA6
    then some (record r { extended_pointer = v })
    else none

-- `do_access_register_based_on_table`; `none` is IllegalInstruction.
unfoldable pub access_register : ℕ → ℕ → Registers → Option ℕ
unfolding special_value
access_register bcd index r = elim (width_of bcd) [
  | none ↦ none
  | some bit64 ↦ if ltb index 16 then some (load bit64 index r) else special_value index r
  | some w ↦ if ltb index 8 then some (load w index r) else none
]

-- `store_value_to_register_based_on_table`.
unfoldable pub store_register : ℕ → ℕ → ℕ → Registers → Option Registers
unfolding set_special
store_register bcd index v r = elim (width_of bcd) [
  | none ↦ none
  | some bit64 ↦ if ltb index 16 then some (store bit64 index v r) else set_special index v r
  | some w ↦ if ltb index 8 then some (store w index v r) else none
]

-- `do_decode_register_without_prefix`: the width and the index.
unfoldable pub decode_register : M (ℕ × ℕ)
decode_register = do width ← pop_code bit8; index ← pop_code bit8; pure (width, index)

-- `do_decode_constant_without_prefix`: the value and the width prefix.
unfoldable pub decode_constant : M (ℕ × ℕ)
decode_constant = do
  bcd ← pop_code bit8
  w ← or_throw illegal_instruction (width_of bcd)
  num ← pop_code w
  pure (num, bcd)

-- `compliment` of `convert_to_64bit_signed`.
abbrev pub compliment : Width → ℕ
compliment bit8 = 0xFFFFFFFFFFFFFF00
compliment bit16 = 0xFFFFFFFFFFFF0000
compliment bit32 = 0xFFFFFFFF00000000
compliment bit64 = 0

-- `check_msb`, of the value cut to the width.
unfoldable pub check_msb : Width → ℕ → Bool
check_msb w val = val % modulus w / (modulus w / 2) % 2 == 1

-- The second offset: an `int64_t`, as its 64 bits.
unfoldable pub signed_offset : Width → ℕ → ℕ
unfolding check_msb
signed_offset w val = if check_msb w val then bit_or (val % modulus w) (compliment w) else val

-- `decode_each_parameter`: base and first offset of a memory operand.
unfoldable pub decode_parameter : M ℕ
unfolding decode_register decode_constant
decode_parameter = do
  kind ← pop_code bit8
  if kind == register_prefix
      then (do
        (width, index) ← decode_register
        regs ← gets (λ c. c.regs)
        or_throw illegal_instruction (access_register width index regs))
      else if kind == constant_prefix
      then (do (num, bcd) ← decode_constant; pure num)
      else throw illegal_instruction

-- The `switch` for the second offset.
unfoldable pub decode_signed_parameter : M ℕ
unfolding decode_register decode_constant
decode_signed_parameter = do
  kind ← pop_code bit8
  if kind == register_prefix
      then (do
        (width, index) ← decode_register
        regs ← gets (λ c. c.regs)
        val ← or_throw illegal_instruction (access_register width index regs)
        w ← or_throw illegal_instruction (width_of width)
        pure (signed_offset w val))
      else if kind == constant_prefix
      then (do
        (val, bcd) ← decode_constant
        w ← or_throw illegal_instruction (width_of bcd)
        pure (signed_offset w val))
      else throw illegal_instruction

-- The ratio's BCD.
unfoldable pub ratio_of : ℕ → Option ℕ
ratio_of bcd =
    if bcd == 0x01
    then some 1
    else if bcd == 0x02
    then some 2
    else if bcd == 0x04
    then some 4
    else if bcd == 0x08
    then some 8
    else if bcd == 0x16
    then some 16
    else none

-- `do_decode_memory_without_prefix`.
unfoldable pub decode_memory : M Operand
unfolding decode_parameter decode_signed_parameter
decode_memory = do
  width ← pop_code bit8
  base ← decode_parameter
  off1 ← decode_parameter
  off2 ← decode_signed_parameter
  bcd ← pop_code bit8
  ratio ← or_throw illegal_instruction (ratio_of bcd)
  w ← or_throw illegal_instruction (width_of width)
  pure (memory (mul64 (add64 (add64 base off1) off2) ratio) width)

-- `do_decode_operand`.
unfoldable pub decode_operand : M Operand
unfolding decode_memory decode_register decode_constant
decode_operand = do
  kind ← pop_code bit8
  if kind == register_prefix
      then (do (width, index) ← decode_register; pure (register width index))
      else if kind == constant_prefix
      then (do (num, bcd) ← decode_constant; pure (constant num bcd))
      else if kind == memory_prefix
      then decode_memory
      else throw illegal_instruction

-- `get_val`. A memory operand goes through `pop_memory_from`, which throws StackOverflow.
unfoldable pub get_val : Operand → M ℕ
get_val (register width index) = do
  regs ← gets (λ c. c.regs)
  or_throw illegal_instruction (access_register width index regs)
get_val (constant val bcd) = pure val
get_val (memory address width) = do
  w ← or_throw illegal_instruction (width_of width)
  mem ← gets (λ c. c.mem)
  (bytes, offset) ← or_throw stack_overflow (pop_memory_from mem 0 address (width_bytes w))
  pure (le_value bytes)

-- `set_val`. A constant cannot be written.
unfoldable pub set_val : Operand → ℕ → M (Unit {0})
set_val (register width index) v = do
  regs ← gets (λ c. c.regs)
  regs' ← or_throw illegal_instruction (store_register width index v regs)
  modify (λ c. record c { regs = regs' })
set_val (constant val bcd) v = throw illegal_instruction
set_val (memory address width) v = do
  w ← or_throw illegal_instruction (width_of width)
  write_bytes address (le_bytes (width_bytes w) v)

-- `get_effective_addr`: zero but for a memory operand.
unfoldable pub get_effective_addr : Operand → ℕ
get_effective_addr (memory address width) = address
get_effective_addr (register width index) = 0
get_effective_addr (constant val bcd) = 0
