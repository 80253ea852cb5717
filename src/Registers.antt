-- ===== src/Registers.antt =====
-- src/include/SysdarftRegister.h: the register file, and loads and stores of its parts.
pub mod Image
pub mod Aliasing
use sysdarft.Base.{
  Bool, IsBytes, List, false, le_bytes, le_value, length, replicate, slice, splice, ℕ, ◌*◌, ◌<◌,
  ◌^◌, ◌≡◌,
}
use sysdarft.Width.{Width, width_bytes}

-- `FlagRegister`: one-bit fields are Booleans, the two wider ones numbers.
pub record Flags : Type 0 where
  pub carry : Bool
  pub overflow : Bool
  pub larger_than : Bool
  pub less_than : Bool
  pub equal : Bool
  pub interruption_mask : Bool
  pub privilege_level : ℕ
  pub protected_mode : Bool
  pub paging : Bool
  pub reserved : ℕ

-- `sysdarft_register_t`. The sixteen general registers overlap with their halves, quarters and
-- bytes, so they are the 128 bytes of memory that hold them, lowest byte of FER0 first.
pub record Registers : Type 0 where
  pub general : List ℕ
  pub flags : Flags
  pub stack_base : ℕ
  pub stack_pointer : ℕ
  pub code_base : ℕ
  pub instruction_pointer : ℕ
  pub data_base : ℕ
  pub data_pointer : ℕ
  pub extended_base : ℕ
  pub extended_pointer : ℕ
  pub stack_preservation : ℕ
  pub selector_start : ℕ
  pub selector_size : ℕ
  pub reserved1 : ℕ
  pub reserved2 : ℕ
  pub reserved3 : ℕ
  pub reserved4 : ℕ

-- `load<FullyExtendedRegisterType, i>` at 64 bits, `load<HalfExtendedRegisterType, i>` at 32,
-- `load<ExtendedRegisterType, i>` at 16 and `load<RegisterType, i>` at 8.
unfoldable pub load : Width → ℕ → Registers → ℕ
load w i r = le_value (slice (i * width_bytes w) (width_bytes w) r.general)

-- `store` of the same four families. The parameter's type cuts the value to the width.
unfoldable pub store : Width → ℕ → ℕ → Registers → Registers
store w i v r = record r {
  general = splice (i * width_bytes w) (le_bytes (width_bytes w) v) r.general;
}

-- The flags of a number: those that the hardware model keeps in their two wider fields fit them.
abbrev pub IsFlags : Flags → Type 0
IsFlags f = (f.privilege_level < 4) × (f.reserved < 2 ^ 54)

-- What the C++ types say of the register file.
pub record IsRegisters (r : Registers) : Type 0 where
  pub size : length r.general ≡ 128
  pub bytes : IsBytes r.general
  pub flags_fit : IsFlags r.flags
  pub stack_base_fits : r.stack_base < 2 ^ 64
  pub stack_pointer_fits : r.stack_pointer < 2 ^ 64
  pub code_base_fits : r.code_base < 2 ^ 64
  pub instruction_pointer_fits : r.instruction_pointer < 2 ^ 64
  pub data_base_fits : r.data_base < 2 ^ 64
  pub data_pointer_fits : r.data_pointer < 2 ^ 64
  pub extended_base_fits : r.extended_base < 2 ^ 64
  pub extended_pointer_fits : r.extended_pointer < 2 ^ 64
  pub stack_preservation_fits : r.stack_preservation < 2 ^ 64
  pub selector_start_fits : r.selector_start < 2 ^ 64
  pub selector_size_fits : r.selector_size < 2 ^ 64
  pub reserved1_fits : r.reserved1 < 2 ^ 64
  pub reserved2_fits : r.reserved2 < 2 ^ 64
  pub reserved3_fits : r.reserved3 < 2 ^ 64
  pub reserved4_fits : r.reserved4 < 2 ^ 64

abbrev pub clear_flags : Flags
clear_flags = record {
  carry = false;
  overflow = false;
  larger_than = false;
  less_than = false;
  equal = false;
  interruption_mask = false;
  privilege_level = 0;
  protected_mode = false;
  paging = false;
  reserved = 0;
}

-- The registers after construction: all zero but the instruction pointer, at `BIOS_START`.
abbrev pub initial : Registers
initial = record {
  general = replicate 128 0;
  flags = clear_flags;
  stack_base = 0;
  stack_pointer = 0;
  code_base = 0;
  instruction_pointer = 0xC1800;
  data_base = 0;
  data_pointer = 0;
  extended_base = 0;
  extended_pointer = 0;
  stack_preservation = 0;
  selector_start = 0;
  selector_size = 0;
  reserved1 = 0;
  reserved2 = 0;
  reserved3 = 0;
  reserved4 = 0;
}
