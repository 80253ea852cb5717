-- ===== src/Invariant/Access.antt =====
-- The machine's own accesses to registers, stack and code.
use sysdarft.Base.{
  IsBytes, List, Option-cases, ap, arith, inl, inr, length, ltb, none_ne_some, some, some_inj, sym,
  ℕ, ◌-◌, ◌<◌, ◌^◌, ◌∙◌, ◌≡◌,
}
use sysdarft.Memory.{Memory, read_memory, write_memory}
use sysdarft.Memory.Invariant.{read_memory-IsBytes, write_memory-KeepsMemory}
use sysdarft.Registers.{Flags, IsFlags, IsRegisters, Registers}
use sysdarft.Width.{Width, modulus, width_bound, width_bytes}
use sysdarft.Machine.{Cpu, add64, pop_code, pop_memory_from, pop_stack, push_stack}
use sysdarft.Operand.Access.{width_bytes_le}
use sysdarft.Invariant.{
  Any, IsGood, IsMachine, IsWord, IsGood-option, IsGood-when, returned, threw,
  with_memory-IsMachine, with_registers-IsMachine,
}

module _ {r : Registers} (h : IsRegisters r) where
  pub set_stack_pointer : (v : ℕ) → IsWord v → IsRegisters (record r { stack_pointer = v })
  set_stack_pointer v k = search

  pub set_pointer : (v : ℕ) → IsWord v → IsRegisters (record r { instruction_pointer = v })
  set_pointer v k = search

  pub set_location :
      (b v : ℕ)
      → IsWord b
      → IsWord v
      → IsRegisters (record r { code_base = b; instruction_pointer = v })
  set_location b v k l = search

  pub set_flags : (f : Flags) → IsFlags f → IsRegisters (record r { flags = f })
  set_flags f k = search

pub pop_memory_from_cases :
    (m : Memory) (b o n : ℕ) {x : List ℕ × ℕ}
    → pop_memory_from m b o n ≡ some x
    → (read_memory m (add64 b o) n ≡ some x.0) × (x.1 ≡ add64 o n)
unfolding pop_memory_from
pop_memory_from_cases m b o n {x} e = elim (Option-cases (read_memory m (add64 b o) n)) [
  | inl lost ↦ absurd (none_ne_some (rw (lost, pop_memory_from) at e))
  | inr (bs, k) ↦
      let q : (bs, add64 o n) ≡ x = some_inj (rw (k, pop_memory_from) at e) in
      (k ∙ ap (λ (y : List ℕ × ℕ). some y.0) q, sym (ap (λ (y : List ℕ × ℕ). y.1) q))
]

module _ {total : ℕ} {c : Cpu} (h : IsMachine total c) where
  pub set_registers : {r : Registers} → IsRegisters r → IsMachine total (record c { regs = r })
  set_registers k = with_registers-IsMachine h k

  pushed-IsMachine :
      (bs : List ℕ) (a v : ℕ) (m : Memory)
      → IsBytes bs
      → IsWord v
      → write_memory c.mem a bs ≡ some m
      → IsMachine total (record c { mem = m; regs = record (c.regs) { stack_pointer = v } })
  pushed-IsMachine bs a v m b k e =
      with_registers-IsMachine
        (with_memory-IsMachine h (write_memory-KeepsMemory c.mem a bs h.memory h.memory_bytes b e))
        (set_stack_pointer h.registers v k)

  -- A push below the stack pointer.
  pub IsGood-push : (bs : List ℕ) → IsBytes bs → IsGood total Any (push_stack bs c)
  unfolding push_stack
  IsGood-push bs b =
      let sp = h.registers.stack_pointer_fits in
      IsGood-when (ltb c.regs.stack_pointer (length bs)) (threw h) (
        IsGood-option (write_memory c.mem _ bs) (threw h) λ m e.
          returned tt
            (pushed-IsMachine bs _ (c.regs.stack_pointer - length bs) m b (omega (arith, sp)) e))

  pub IsGood-pop :
      (n : ℕ) → n < 2 ^ 63 → IsGood total (λ bs. IsBytes bs × (length bs ≡ n)) (pop_stack n c)
  unfolding pop_stack
  IsGood-pop n s = IsGood-option (read_memory c.mem _ n) (threw h) λ bs e.
      returned (read_memory-IsBytes c.mem _ n h.memory h.memory_bytes s e)
        (set_registers (set_stack_pointer h.registers (add64 c.regs.stack_pointer n) (omega arith)))

  pub IsGood-code : (w : Width) → IsGood total (λ v. v < modulus w) (pop_code w c)
  unfolding pop_code
  IsGood-code w =
      IsGood-option
        (pop_memory_from c.mem c.regs.code_base c.regs.instruction_pointer (width_bytes w))
        (threw h)
        λ x e.
          let (r, q) = pop_memory_from_cases c.mem _ _ (width_bytes w) e in
          let (b, l) =
            read_memory-IsBytes c.mem _ (width_bytes w) h.memory h.memory_bytes
              (omega (arith, width_bytes_le w)) r in
          returned (width_bound w x.0 b (omega (arith, l)))
            (set_registers (set_pointer h.registers x.1 (omega (arith, q))))
