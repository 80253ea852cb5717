-- ===== src/Operand/Access.antt =====
-- Reads after writes of operands.
use native.Mathlib.Omega.{arith}
use sysdarft.Base.{
  List, ap, arith, le_bytes, le_value, length-le_bytes, ltb_of_lt, refl, some, subst, ℕ, ◌%◌, ◌+◌,
  ◌<◌, ◌^◌, ◌∙◌, ◌≡◌, ◌≤◌,
}
use sysdarft.Memory.{read_memory}
use sysdarft.Memory.Flat.{IsWellFormed}
use sysdarft.Memory.Write.{write_in_range}
use sysdarft.Memory.Laws.{read-write_self}
use sysdarft.Registers.{IsRegisters, Registers, store}
use sysdarft.Registers.Aliasing.{load-store_self}
use sysdarft.Width.{
  Width, bit16, bit32, bit64, bit8, le_value-le_bytes_width, modulus, prefix, width_bytes, width_of,
}
use sysdarft.Machine.{Cpu, add64, done, or_throw, pop_memory_from, write_bytes}
use sysdarft.Operand.{Operand, access_register, get_val, memory, register, set_val, store_register}

-- How many general registers of a width there are.
abbrev pub register_count : Width → ℕ
register_count bit64 = 16
register_count w = 8

-- The operands that can be written, with their width.
pub data IsPlace (c : Cpu) : Operand → Width → Type 0 where
  general : (w : Width) (i : ℕ) → i < register_count w → IsPlace c (register (prefix w) i) w
  cell : (w : Width) (a : ℕ) → a + width_bytes w ≤ c.mem.total → IsPlace c (memory a (prefix w)) w

access-store :
    (w : Width) (i v : ℕ) (r : Registers)
    → IsRegisters r
    → i < register_count w
    → (store_register (prefix w) i v r ≡ some (store w i v r))
      × (access_register (prefix w) i (store w i v r) ≡ some (v % modulus w))
unfolding store_register access_register
access-store bit8 i v r h k =
    (rw (ltb_of_lt i 8 k), rw (ltb_of_lt i 8 k, load-store_self bit8 i v r h (omega arith)))
access-store bit16 i v r h k =
    (rw (ltb_of_lt i 8 k), rw (ltb_of_lt i 8 k, load-store_self bit16 i v r h (omega arith)))
access-store bit32 i v r h k =
    (rw (ltb_of_lt i 8 k), rw (ltb_of_lt i 8 k, load-store_self bit32 i v r h (omega arith)))
access-store bit64 i v r h k =
    (rw (ltb_of_lt i 16 k), rw (ltb_of_lt i 16 k, load-store_self bit64 i v r h (omega arith)))

pub width_of-prefix : (w : Width) → width_of (prefix w) ≡ some w
width_of-prefix bit8 = refl
width_of-prefix bit16 = refl
width_of-prefix bit32 = refl
width_of-prefix bit64 = refl

pub width_bytes_le : (w : Width) → width_bytes w ≤ 8
width_bytes_le bit8 = omega arith
width_bytes_le bit16 = omega arith
width_bytes_le bit32 = omega arith
width_bytes_le bit64 = omega arith

get_cell :
    (w : Width) (a : ℕ) (c : Cpu) {bytes : List ℕ}
    → a < 2 ^ 64
    → read_memory c.mem a (width_bytes w) ≡ some bytes
    → get_val (memory a (prefix w)) c ≡ (done (le_value bytes), c)
unfolding get_val pop_memory_from
get_cell w a c h e =
    let z : add64 0 a ≡ a = omega arith in rw (width_of-prefix w, or_throw, z, e, or_throw)

-- Writing a value to a general register, or to a memory operand within the total, succeeds, and the
-- operand then reads as the value cut to its width.
pub get_val-set_val :
    (c : Cpu) {o : Operand} {w : Width} (v : ℕ)
    → IsRegisters c.regs
    → IsWellFormed c.mem
    → IsPlace c o w
    → (c' : Cpu) × (set_val o v c ≡ (done tt, c')) × (get_val o c' ≡ (done (v % modulus w), c'))
unfolding set_val get_val write_bytes
get_val-set_val c v r m (general w i k) =
    let (s, l) = access-store w i v c.regs r k in
    (record c { regs = store w i v c.regs }, rw (s, or_throw), rw (l, or_throw))
get_val-set_val c v r m (cell w a k) =
    let l = length-le_bytes (width_bytes w) v in
    let few = width_bytes_le w in
    let (m', e, p) =
      write_in_range c.mem a (le_bytes (width_bytes w) v) m (omega (arith, l, few))
        (omega (arith, l)) in
    let r' : read_memory m' a (width_bytes w) ≡ some (le_bytes (width_bytes w) v) =
      subst (λ n. read_memory m' a n ≡ some (le_bytes (width_bytes w) v)) l
        (read-write_self c.mem a (le_bytes (width_bytes w) v) m (omega (arith, l, few)) e) in
    (
      record c { mem = m' },
      rw (width_of-prefix w, or_throw, write_bytes, e),
      get_cell w a (record c { mem = m' }) (omega (arith, m.small, k)) r'
          ∙ ap (λ n. (done n, record c { mem = m' })) (le_value-le_bytes_width w v),
    )
