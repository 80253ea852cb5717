-- ===== src/Invariant/Operands.antt =====
-- Operands: decoding, reading and writing.
use sysdarft.Operand.Access.{width_bytes_le}
use sysdarft.Invariant.Access.{IsGood-code, pop_memory_from_cases, set_registers}
use sysdarft.Alu.{two_values}
use sysdarft.Memory.Invariant.{read_memory-IsBytes}
use sysdarft.Machine.{Cpu, illegal_instruction, pop_memory_from, stack_overflow}
use sysdarft.Base.{
  List, Option, arith, if◌then◌else◌, le_bytes, le_bytes-IsBytes, le_value, ltb, none, none_ne_some,
  some, ℕ, ◌^◌, ◌≡◌, ◌≤◌,
}
use sysdarft.Registers.{IsRegisters, Registers, load, store}
use sysdarft.Registers.Aliasing.{load-lt, store-IsRegisters}
use sysdarft.Width.{Width, bit16, bit32, bit64, bit8, modulus, width_bound, width_bytes, width_of}
use sysdarft.Operand.{
  Operand, access_register, constant, decode_constant, decode_register, get_val, memory, register,
  set_special, set_val, special_value, store_register,
}
use sysdarft.Invariant.{
  Any, IsGood, IsMachine, IsWord, IsGood-bind, IsGood-or_throw, IsGood-write, returned, threw,
}

pub modulus_le : (w : Width) → modulus w ≤ 2 ^ 64
modulus_le bit8 = omega arith
modulus_le bit16 = omega arith
modulus_le bit32 = omega arith
modulus_le bit64 = omega arith

-- A constant and an address are values of 64 bits.
abbrev pub IsOperand : Operand → Type 0
IsOperand (register width index) = Unit
IsOperand (constant val width) = IsWord val
IsOperand (memory address width) = IsWord address

pub load-IsWord : (w : Width) (i : ℕ) (r : Registers) → IsRegisters r → IsWord (load w i r)
load-IsWord w i r h = omega (arith, load-lt w i r h, modulus_le w)

special_value-IsWord :
    (index : ℕ) (r : Registers) {v : ℕ} → IsRegisters r → special_value index r ≡ some v → IsWord v
unfolding special_value
special_value-IsWord index r h e = ground arith

set_special-IsRegisters :
    (index v : ℕ) (r : Registers) {r' : Registers}
    → IsRegisters r
    → IsWord v
    → set_special index v r ≡ some r'
    → IsRegisters r'
unfolding set_special
set_special-IsRegisters index v r h k e = ground arith

access_register-IsWord :
    (bcd index : ℕ) (r : Registers) {v : ℕ}
    → IsRegisters r
    → access_register bcd index r ≡ some v
    → IsWord v
unfolding access_register
access_register-IsWord bcd index r {v} h e = by_width (width_of bcd) e
  where
    by_width :
        (o : Option Width)
        → (elim o [
          | none ↦ none
          | some bit64 ↦ if ltb index 16 then some (load bit64 index r) else special_value index r
          | some w ↦ if ltb index 8 then some (load w index r) else none
        ])
          ≡ some v
        → IsWord v
    by_width none e = absurd (none_ne_some e)
    by_width (some bit8) e = ground (arith, load-IsWord bit8 index r h)
    by_width (some bit16) e = ground (arith, load-IsWord bit16 index r h)
    by_width (some bit32) e = ground (arith, load-IsWord bit32 index r h)
    by_width (some bit64) e =
        ground (arith, load-IsWord bit64 index r h, special_value-IsWord index r {v = v} h)

store_register-IsRegisters :
    (bcd index v : ℕ) (r : Registers) {r' : Registers}
    → IsRegisters r
    → IsWord v
    → store_register bcd index v r ≡ some r'
    → IsRegisters r'
unfolding store_register
store_register-IsRegisters bcd index v r {r'} h k e = by_width (width_of bcd) e
  where
    by_width :
        (o : Option Width)
        → (elim o [
          | none ↦ none
          | some bit64 ↦
              if ltb index 16 then some (store bit64 index v r) else set_special index v r
          | some w ↦ if ltb index 8 then some (store w index v r) else none
        ])
          ≡ some r'
        → IsRegisters r'
    by_width none e = absurd (none_ne_some e)
    by_width (some bit8) e = ground (arith, store-IsRegisters bit8 index v r h)
    by_width (some bit16) e = ground (arith, store-IsRegisters bit16 index v r h)
    by_width (some bit32) e = ground (arith, store-IsRegisters bit32 index v r h)
    by_width (some bit64) e = ground (
      arith,
      store-IsRegisters bit64 index v r h,
      set_special-IsRegisters index v r {r' = r'} h k,
    )

module _ {total : ℕ} where
  pub IsGood-decode_register : (c : Cpu) → IsMachine total c → IsGood total Any (decode_register c)
  unfolding decode_register
  IsGood-decode_register c h =
      IsGood-bind (IsGood-code h bit8)
        λ width c1 k h1. IsGood-bind (IsGood-code h1 bit8) λ index c2 k2 h2. returned tt h2

  pub IsGood-decode_constant :
      (c : Cpu) → IsMachine total c → IsGood total (λ (x : ℕ × ℕ). IsWord x.0) (decode_constant c)
  unfolding decode_constant
  IsGood-decode_constant c h = IsGood-bind (IsGood-code h bit8) λ bcd c1 k h1.
      IsGood-bind (IsGood-or_throw {P = Any} illegal_instruction (width_of bcd) h1 (λ w e. tt))
        λ w c2 k2 h2.
          IsGood-bind (IsGood-code h2 w)
            λ num c3 k3 h3. returned (omega (arith, k3, modulus_le w)) h3

  pub IsGood-get_val :
      (o : Operand) {c : Cpu} → IsOperand o → IsMachine total c → IsGood total IsWord (get_val o c)
  unfolding get_val
  IsGood-get_val (register width index) {c} p h =
      IsGood-or_throw illegal_instruction (access_register width index c.regs) h
        λ v e. access_register-IsWord width index c.regs h.registers e
  IsGood-get_val (constant val width) p h = returned p h
  IsGood-get_val (memory address width) {c} p h =
      IsGood-bind (IsGood-or_throw {P = Any} illegal_instruction (width_of width) h (λ w e. tt))
        λ w c1 k h1.
          IsGood-bind
            (IsGood-or_throw {P = λ (x : List ℕ × ℕ). IsWord (le_value x.0)} stack_overflow
              (pop_memory_from c1.mem 0 address (width_bytes w)) h1
              λ x e.
                let (r, q) = pop_memory_from_cases c1.mem 0 address (width_bytes w) e in
                let (b, l) =
                  read_memory-IsBytes c1.mem _ (width_bytes w) h1.memory h1.memory_bytes
                    (omega (arith, width_bytes_le w)) r in
                omega (arith, width_bound w x.0 b (omega (arith, l)), modulus_le w))
            λ x c2 k2 h2. returned k2 h2

  pub IsGood-set_val :
      (o : Operand) (v : ℕ) {c : Cpu}
      → IsWord v
      → IsMachine total c
      → IsGood total Any (set_val o v c)
  unfolding set_val
  IsGood-set_val (register width index) v {c} p h =
      IsGood-bind
        (IsGood-or_throw {P = IsRegisters} illegal_instruction (store_register width index v c.regs)
          h λ r e. store_register-IsRegisters width index v c.regs h.registers p e)
        λ r c1 k h1. returned tt (set_registers h1 k)
  IsGood-set_val (constant val width) v p h = threw h
  IsGood-set_val (memory address width) v p h =
      IsGood-bind (IsGood-or_throw {P = Any} illegal_instruction (width_of width) h (λ w e. tt))
        λ w c1 k h1.
          IsGood-write h1 address (le_bytes (width_bytes w) v) (le_bytes-IsBytes (width_bytes w) v)

  -- Both operands of an instruction.
  pub IsGood-two_values :
      (a b : Operand) {c : Cpu}
      → IsOperand a
      → IsOperand b
      → IsMachine total c
      → IsGood total (λ (x : ℕ × ℕ). IsWord x.0 × IsWord x.1) (two_values a b c)
  unfolding two_values
  IsGood-two_values a b p q h =
      IsGood-bind (IsGood-get_val a p h)
        λ x c1 k h1. IsGood-bind (IsGood-get_val b q h1) λ y c2 k2 h2. returned (k, k2) h2
