-- ===== src/Invariant/Moves.antt =====
-- The data transfer instructions.
use sysdarft.Invariant.Interruptions.{flags_of_word-IsFlags}
use sysdarft.Invariant.Arithmetic.{IsGood-width}
use sysdarft.Invariant.Access.{IsGood-pop, IsGood-push, set_registers}
use sysdarft.Invariant.Operands.{
  IsOperand, IsGood-get_val, IsGood-set_val, IsGood-two_values, modulus_le,
}
use sysdarft.Invariant.{
  Any, IsGood, IsMachine, IsWord, IsGood-bind, IsGood-read, IsGood-write, returned, threw,
}
use sysdarft.Machine.{Cpu}
use sysdarft.Operand.Access.{width_bytes_le}
use sysdarft.Operand.{Operand, constant, get_effective_addr, memory, register}
use sysdarft.Transfer.{
  enter, general_words, lea, leave, mov, movs, pop, popall, push, pushall, pushall_data,
  restore_all, restore_general, word_of, xchg,
}
use sysdarft.Width.{bit64, width_bound, width_bytes}
use sysdarft.Registers.Aliasing.{store-IsRegisters}
use sysdarft.Registers.{IsRegisters, Registers, load}
use sysdarft.Base.{
  Bool-cases, IsBytes, IsBytes-append, List, arith, inl, inr, le_bytes, le_bytes-IsBytes, le_value,
  leb, length-slice_le, slice, slice-IsBytes, suc, zero, ℕ, ◌*◌, ◌++◌, ◌+◌, ◌^◌,
}

get_effective_addr-IsWord : (o : Operand) → IsOperand o → IsWord (get_effective_addr o)
unfolding get_effective_addr
get_effective_addr-IsWord (register width index) p = omega arith
get_effective_addr-IsWord (constant val bcd) p = omega arith
get_effective_addr-IsWord (memory address width) p = p

general_words-IsBytes : (k i : ℕ) (r : Registers) → IsBytes (general_words k i r)
unfolding general_words
general_words-IsBytes zero i r = tt
general_words-IsBytes (suc k) i r =
    IsBytes-append (le_bytes 8 (load bit64 i r)) _ (le_bytes-IsBytes 8 _)
      (general_words-IsBytes k (i + 1) r)

-- A word in front of bytes.
word-append-IsBytes : (v : ℕ) (bs : List ℕ) → IsBytes bs → IsBytes (le_bytes 8 v ++ bs)
word-append-IsBytes v bs h = IsBytes-append (le_bytes 8 v) bs (le_bytes-IsBytes 8 v) h

pushall_data-IsBytes : (r : Registers) → IsBytes (pushall_data r)
unfolding pushall_data
pushall_data-IsBytes r =
    search (word-append-IsBytes, general_words-IsBytes, IsBytes-append, le_bytes-IsBytes) depth 12

restore_general-IsRegisters :
    (k i : ℕ) (bs : List ℕ) (r : Registers) → IsRegisters r → IsRegisters (restore_general k i bs r)
unfolding restore_general
restore_general-IsRegisters zero i bs r h = h
restore_general-IsRegisters (suc k) i bs r h =
    restore_general-IsRegisters k (i + 1) bs _ (store-IsRegisters bit64 i (word_of bs i) r h)

restore_all-IsRegisters :
    (bs : List ℕ) (r : Registers) → IsBytes bs → IsRegisters r → IsRegisters (restore_all bs r)
unfolding restore_all
restore_all-IsRegisters bs r b h =
    let word = λ (k : ℕ).
      width_bound bit64 (slice (8 * k) 8 bs) (slice-IsBytes (8 * k) 8 bs b)
        (length-slice_le (8 * k) 8 bs) in
    let g = restore_general-IsRegisters 16 0 bs r h in
    record {
      size = g.size;
      bytes = g.bytes;
      flags_fit = flags_of_word-IsFlags (word_of bs 16) (word 16);
      stack_base_fits = word 17;
      stack_pointer_fits = word 18;
      code_base_fits = g.code_base_fits;
      instruction_pointer_fits = g.instruction_pointer_fits;
      data_base_fits = word 19;
      data_pointer_fits = word 20;
      extended_base_fits = word 21;
      extended_pointer_fits = word 22;
      stack_preservation_fits = word 23;
      selector_start_fits = g.selector_start_fits;
      selector_size_fits = g.selector_size_fits;
      reserved1_fits = g.reserved1_fits;
      reserved2_fits = g.reserved2_fits;
      reserved3_fits = g.reserved3_fits;
      reserved4_fits = g.reserved4_fits;
    }

set_frame :
    {r : Registers} (s v : ℕ)
    → IsRegisters r
    → IsWord s
    → IsWord v
    → IsRegisters (record r { stack_preservation = v; stack_pointer = s })
set_frame s v h k l = search

module _ {total : ℕ} {c : Cpu} (h : IsMachine total c) where
  pub IsGood-pushall : IsGood total Any (pushall c)
  unfolding pushall
  IsGood-pushall = IsGood-push h (pushall_data c.regs) (pushall_data-IsBytes c.regs)

  pub IsGood-popall : IsGood total Any (popall c)
  unfolding popall
  IsGood-popall = IsGood-bind (IsGood-pop h 192 (omega arith)) λ bs c1 k h1.
      returned tt (set_registers h1 (restore_all-IsRegisters bs c1.regs k.0 h1.registers))

  pub IsGood-leave : IsGood total Any (leave c)
  unfolding leave
  IsGood-leave =
      returned tt (set_registers h (set_frame _ 0 h.registers (omega arith) (omega arith)))

  pub IsGood-movs : IsGood total Any (movs c)
  unfolding movs
  IsGood-movs = elim (Bool-cases (leb (2 ^ 63) (load bit64 3 c.regs))) [
    | inl large ↦ rw large (threw h)
    | inr small ↦ rw small (
        IsGood-bind (IsGood-read h _ (load bit64 3 c.regs) (ground arith))
          λ bs c1 k h1. IsGood-write h1 _ bs k.0)
  ]

  module _ (a : Operand) (p : IsOperand a) where
    pub IsGood-push_operand : (bcd : ℕ) → IsGood total Any (push bcd a c)
    unfolding push
    IsGood-push_operand bcd = IsGood-bind (IsGood-get_val a p h) λ x c1 k1 h1.
        IsGood-bind (IsGood-width bcd h1) λ w c2 k2 h2.
          IsGood-push h2 (le_bytes (width_bytes w) x) (le_bytes-IsBytes (width_bytes w) x)

    pub IsGood-pop_operand : (bcd : ℕ) → IsGood total Any (pop bcd a c)
    unfolding pop
    IsGood-pop_operand bcd = IsGood-bind (IsGood-width bcd h) λ w c1 k1 h1.
        IsGood-bind (IsGood-pop h1 (width_bytes w) (omega (arith, width_bytes_le w))) λ bs c2 k2 h2.
          IsGood-set_val a (le_value bs)
            (omega (arith, width_bound w bs k2.0 (omega (arith, k2.1)), modulus_le w)) h2

    pub IsGood-enter : IsGood total Any (enter a c)
    unfolding enter
    IsGood-enter =
        IsGood-bind (IsGood-get_val a p h)
          λ x c1 k1 h1. returned tt (set_registers h1 (set_frame _ x h1.registers (omega arith) k1))

    module _ (b : Operand) (q : IsOperand b) where
      pub IsGood-mov : IsGood total Any (mov a b c)
      unfolding mov
      IsGood-mov = IsGood-bind (IsGood-get_val b q h) λ x c1 k1 h1. IsGood-set_val a x k1 h1

      pub IsGood-xchg : IsGood total Any (xchg a b c)
      unfolding xchg
      IsGood-xchg = IsGood-bind (IsGood-two_values a b p q h) λ x c1 k1 h1.
          IsGood-bind (IsGood-set_val a x.1 k1.1 h1) λ u c2 k2 h2. IsGood-set_val b x.0 k1.0 h2

      pub IsGood-lea : IsGood total Any (lea a b c)
      unfolding lea
      IsGood-lea = IsGood-set_val a (get_effective_addr b) (get_effective_addr-IsWord b q) h
