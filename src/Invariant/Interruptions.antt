-- ===== src/Invariant/Interruptions.antt =====
-- Delivery of interruptions, and their services.
use sysdarft.Invariant.Access.{
  pop_memory_from_cases, set_flags, set_location, set_registers, set_stack_pointer,
}
use sysdarft.Invariant.{
  Any, IsGood, IsMachine, IsWord, IsGood-bind, IsGood-if, IsGood-some, IsGood-read, returned, slept,
  threw, with_memory-IsMachine,
}
use sysdarft.Interrupt.{
  debug_0x03, deliver, deliver_unmasked, fatal_0x00, interruption_lookup, iret, jump_table, masked,
  preserve_cpu_state, rescue_overflow, set_mask, stackoverflow_0x07, vector_end, vector_start,
}
use sysdarft.Machine.{
  Cpu, M, Outcome, aborted, add64, bad_interruption, device_io_error, fatal, foreign,
  illegal_instruction, illegal_memory_access, interruption_out_of_range, no_such_device,
  pop_memory_from, pure, push_memory_to, stack_overflow, ◌>>=◌, ◌>>◌,
}
use sysdarft.Width.{bit64, width_bound}
use sysdarft.Registers.Image.{field_at, flags_of_word, image, image-IsBytes, of_image}
use sysdarft.Registers.{Flags, IsFlags, IsRegisters}
use sysdarft.Memory.Invariant.{read_memory-IsBytes, write_memory-KeepsMemory}
use sysdarft.Memory.{Memory, write_memory}
use sysdarft.Base.{
  Bool-cases, IsBytes, List, Option-cases, ap, arith, inl, inr, leb, length, length-slice_le,
  length-take, ltb, none_ne_some, slice, slice-IsBytes, some, some_inj, sym, take-IsBytes, true, ℕ,
  ◌*◌, ◌+◌, ◌-◌, ◌∙◌, ◌≡◌,
}

pub flags_of_word-IsFlags : (w : ℕ) → IsWord w → IsFlags (flags_of_word w)
unfolding flags_of_word
flags_of_word-IsFlags w k = (omega arith, omega arith)

module _ (bs : List ℕ) (b : IsBytes bs) where
  field_at-IsWord : (k : ℕ) → IsWord (field_at bs k)
  field_at-IsWord k =
      width_bound bit64 (slice (128 + 8 * k) 8 bs) (slice-IsBytes (128 + 8 * k) 8 bs b)
        (length-slice_le (128 + 8 * k) 8 bs)

  -- Any 256 bytes are a register file.
  pub of_image-IsRegisters : length bs ≡ 256 → IsRegisters (of_image bs)
  unfolding of_image
  of_image-IsRegisters l = record {
    size = length-take 128 bs (omega (arith, l));
    bytes = take-IsBytes 128 bs b;
    flags_fit = flags_of_word-IsFlags (field_at bs 0) (field_at-IsWord 0);
    stack_base_fits = field_at-IsWord 1;
    stack_pointer_fits = field_at-IsWord 2;
    code_base_fits = field_at-IsWord 3;
    instruction_pointer_fits = field_at-IsWord 4;
    data_base_fits = field_at-IsWord 5;
    data_pointer_fits = field_at-IsWord 6;
    extended_base_fits = field_at-IsWord 7;
    extended_pointer_fits = field_at-IsWord 8;
    stack_preservation_fits = field_at-IsWord 9;
    selector_start_fits = field_at-IsWord 10;
    selector_size_fits = field_at-IsWord 11;
    reserved1_fits = field_at-IsWord 12;
    reserved2_fits = field_at-IsWord 13;
    reserved3_fits = field_at-IsWord 14;
    reserved4_fits = field_at-IsWord 15;
  }

masked-IsFlags : (f : Flags) → IsFlags f → IsFlags (masked f)
masked-IsFlags f k = k

push_memory_to_cases :
    (m : Memory) (b o : ℕ) (bs : List ℕ) {x : Memory × ℕ}
    → push_memory_to m b o bs ≡ some x
    → (write_memory m (add64 b (o - length bs)) bs ≡ some x.0) × (x.1 ≡ o - length bs)
unfolding push_memory_to
push_memory_to_cases m b o bs {x} e = elim (Bool-cases (ltb o (length bs))) [
  | inl over ↦ absurd (none_ne_some (rw (over, push_memory_to) at e))
  | inr fits ↦ elim (Option-cases (write_memory m (add64 b (o - length bs)) bs)) [
    | inl lost ↦ absurd (none_ne_some (rw (fits, lost, push_memory_to) at e))
    | inr (m', k) ↦
        let q : (m', o - length bs) ≡ x = some_inj (rw (fits, k, push_memory_to) at e) in
        (k ∙ ap (λ (y : Memory × ℕ). some y.0) q, sym (ap (λ (y : Memory × ℕ). y.1) q))
  ]
]

-- A location: code base and instruction pointer.
abbrev pub IsLocation : ℕ × ℕ → Type 0
IsLocation x = IsWord x.0 × IsWord x.1

module _ {total : ℕ} where
  IsGood-lookup :
      (code : ℕ) {c : Cpu}
      → IsMachine total c
      → IsGood total IsLocation (interruption_lookup code c)
  unfolding interruption_lookup
  IsGood-lookup code {c} h = IsGood-if (leb vector_end (vector_start + code * 16)) _ _ c (threw h) (
      IsGood-bind (IsGood-read h (vector_start + code * 16) 16 (omega arith)) λ bs c1 k h1.
        returned
          (
            width_bound bit64 (slice 0 8 bs) (slice-IsBytes 0 8 bs k.0) (length-slice_le 0 8 bs),
            width_bound bit64 (slice 8 8 bs) (slice-IsBytes 8 8 bs k.0) (length-slice_le 8 8 bs),
          )
          h1)

  module _ {c : Cpu} (h : IsMachine total c) where
    IsGood-set_mask : IsGood total Any (set_mask c)
    unfolding set_mask
    IsGood-set_mask = returned tt (set_registers h (set_flags h.registers _ h.registers.flags_fit))

    set_flags-IsMachine :
        (f : Flags)
        → IsFlags f
        → IsMachine total (record c { regs = record (c.regs) { flags = f } })
    set_flags-IsMachine f k = set_registers h (set_flags h.registers f k)

    pub IsGood-jump_table : (x : ℕ × ℕ) → IsLocation x → IsGood total Any (jump_table x c)
    unfolding jump_table
    IsGood-jump_table x k = returned tt (set_registers h (set_location h.registers x.0 x.1 k.0 k.1))

    IsGood-preserve : IsGood total Any (preserve_cpu_state c)
    unfolding preserve_cpu_state
    IsGood-preserve =
        IsGood-some stack_overflow
          (push_memory_to c.mem c.regs.stack_base c.regs.stack_pointer (image c.regs)) _ h
          λ x e.
            let k = push_memory_to_cases c.mem _ c.regs.stack_pointer (image c.regs) e in
            returned tt (
              set_registers
                (with_memory-IsMachine h (
                  write_memory-KeepsMemory c.mem _ (image c.regs) h.memory h.memory_bytes
                    (image-IsBytes c.regs h.registers) k.0))
                (set_stack_pointer h.registers x.1
                  (omega (arith, k.1, h.registers.stack_pointer_fits))))

    pub IsGood-iret : IsGood total Any (iret c)
    unfolding iret
    IsGood-iret =
        IsGood-some stack_overflow
          (pop_memory_from c.mem c.regs.stack_base c.regs.stack_pointer 256) _ h
          λ x e.
            let k =
              read_memory-IsBytes c.mem _ 256 h.memory h.memory_bytes (omega arith)
                (pop_memory_from_cases c.mem _ c.regs.stack_pointer 256 e).0 in
            returned tt (set_registers h (of_image-IsRegisters x.0 k.0 k.1))

  -- The handler's location is looked up, the flags are masked, and the machine goes there.
  IsGood-direct :
      (code : ℕ) {c : Cpu}
      → IsMachine total c
      → IsGood total Any ((do location ← interruption_lookup code; set_mask; jump_table location) c)
  IsGood-direct code h =
      IsGood-bind (IsGood-lookup code h)
        λ x c1 k1 h1. IsGood-bind (IsGood-set_mask h1) λ u c2 k2 h2. IsGood-jump_table h2 x k1

  pub IsGood-debug : {c : Cpu} → IsMachine total c → IsGood total Any (debug_0x03 c)
  unfolding debug_0x03
  IsGood-debug {c} h =
      let h0 : IsMachine total (record c { int3_debug = true }) = search in
      IsGood-bind (IsGood-lookup 0x03 h0) λ x c1 k1 h1.
        IsGood-bind (IsGood-preserve h1)
          λ u c2 k2 h2. IsGood-bind (IsGood-set_mask h2) λ v c3 k3 h3. IsGood-jump_table h3 x k1

  pub IsGood-overflow : {c : Cpu} → IsMachine total c → IsGood total Any (stackoverflow_0x07 c)
  unfolding stackoverflow_0x07
  IsGood-overflow h = IsGood-direct 0x07 h

  pub IsGood-fatal : {c : Cpu} → IsMachine total c → IsGood total Any (fatal_0x00 c)
  unfolding fatal_0x00
  IsGood-fatal h = IsGood-direct 0x00 h

  IsGood-rescue :
      {A : Type 0} {P : A → Type 0} {r : Outcome A × Cpu} {m : M A}
      → IsGood total P r
      → ((c : Cpu) → IsMachine total c → IsGood total P (m c))
      → IsGood total P (rescue_overflow r m)
  IsGood-rescue (returned p h) g = returned p h
  IsGood-rescue (slept h) g = slept h
  IsGood-rescue (threw {e = stack_overflow} {c = c} h) g = g c h
  IsGood-rescue (threw {e = illegal_memory_access} h) g = threw h
  IsGood-rescue (threw {e = illegal_instruction} h) g = threw h
  IsGood-rescue (threw {e = bad_interruption} h) g = threw h
  IsGood-rescue (threw {e = interruption_out_of_range} h) g = threw h
  IsGood-rescue (threw {e = no_such_device} h) g = threw h
  IsGood-rescue (threw {e = device_io_error} h) g = threw h
  IsGood-rescue (threw {e = fatal} h) g = threw h
  IsGood-rescue (threw {e = aborted} h) g = threw h
  IsGood-rescue (threw {e = foreign} h) g = threw h

  pub IsGood-deliver :
      (code : ℕ) (fg : Flags)
      → IsFlags fg
      → {c : Cpu} → IsMachine total c
      → IsGood total IsFlags (deliver code fg c)
  unfolding deliver
  IsGood-deliver code fg k h = IsGood-bind (IsGood-lookup code h) λ x c1 l h1.
      IsGood-bind
        (IsGood-rescue (IsGood-preserve h1) λ c2 h2.
          IsGood-bind (IsGood-overflow h2)
            λ u c3 k3 h3. threw (set_flags-IsMachine h3 (masked fg) (masked-IsFlags fg k)))
        λ u c2 k2 h2.
          IsGood-bind {f = λ _. pure (masked fg)}
            (IsGood-jump_table (set_flags-IsMachine h2 (masked fg) (masked-IsFlags fg k)) x l)
            λ w c4 k4 h4. returned (masked-IsFlags fg k) h4

  pub IsGood-deliver_unmasked :
      (code : ℕ) (fg : Flags)
      → IsFlags fg
      → {c : Cpu} → IsMachine total c
      → IsGood total Any (deliver_unmasked code fg c)
  unfolding deliver_unmasked
  IsGood-deliver_unmasked code fg k {c} h =
      IsGood-if fg.interruption_mask _ _ c (returned tt h)
        (IsGood-bind (IsGood-deliver code fg k h) λ f c1 k1 h1. returned tt h1)
