-- ===== src/Interrupt/Delivery.antt =====
-- When an interruption is delivered, what the handler finds, and what `iret` gives back.
use sysdarft.Base.{
  List, ap, ap₂, arith, eq_of_ne, false, if_false, if_true, inl, inr, le_value, leb_of_le,
  leb_of_lt, ltb_of_le, ltb_of_lt, slice, some, subst, sym, true, ℕ, ◌*◌, ◌+◌, ◌-◌, ◌<◌, ◌∙◌, ◌≡◌,
  ◌≢◌, ◌≤◌, ◌⊎◌,
}
use sysdarft.Memory.{Memory, read_memory, write_memory}
use sysdarft.Memory.Flat.{IsWellFormed, contents, read_in_range}
use sysdarft.Memory.Write.{write_in_range}
use sysdarft.Memory.Laws.{read-write_self}
use sysdarft.Registers.{Flags, IsRegisters}
use sysdarft.Registers.Image.{image, length-image, of_image, of_image-image}
use sysdarft.Machine.{
  Cpu, M, add64, and_then, bad_interruption, done, or_throw, pop_memory_from, pure, push_memory_to,
  read_bytes, thrown,
}
use sysdarft.Interrupt.{
  deliver, deliver_unmasked, do_interruption, fatal_0x00, hardware, interruption_lookup, iret,
  jump_table, masked, max_entry, preserve_cpu_state, set_mask, stackoverflow_0x07, vector_end,
  vector_start,
}

-- A code past the table is refused, and changes nothing.
pub do_interruption_bad :
    (code : ℕ) (c : Cpu) → 256 < code → do_interruption code c ≡ (thrown bad_interruption, c)
unfolding do_interruption
do_interruption_bad code c h = rw (ltb_of_lt max_entry code h)

-- A maskable interruption that is masked does nothing at all.
pub do_interruption_masked :
    (code : ℕ) (c : Cpu)
    → 0x1F < code
    → code ≤ 256
    → c.regs.flags.interruption_mask ≡ true
    → do_interruption code c ≡ (done tt, c)
unfolding do_interruption deliver_unmasked
do_interruption_masked code c lo hi m = rw (ltb_of_le max_entry code hi, leb_of_lt code 0x1F lo, m)

-- The memory address that a push of the register file writes.
abbrev pub frame : Cpu → ℕ
frame c = add64 c.regs.stack_base (c.regs.stack_pointer - 256)

-- The machine with its registers saved below the stack pointer.
abbrev pub preserved : Memory → Cpu → Cpu
preserved m c = record c {
  mem = m;
  regs = record (c.regs) { stack_pointer = c.regs.stack_pointer - 256 };
}

preserve_cpu_state_lem :
    (c : Cpu) {m : Memory}
    → IsRegisters c.regs
    → 256 ≤ c.regs.stack_pointer
    → write_memory c.mem (frame c) (image c.regs) ≡ some m
    → preserve_cpu_state c ≡ (done tt, preserved m c)
unfolding preserve_cpu_state
preserve_cpu_state_lem c {m} v h e =
    let p : push_memory_to c.mem c.regs.stack_base c.regs.stack_pointer (image c.regs)
        ≡ some (m, c.regs.stack_pointer - 256) =
      unfold push_memory_to in
      rw (length-image c.regs v, ltb_of_le c.regs.stack_pointer 256 h, e, length-image c.regs v) in
    rw (p, or_throw)

-- The bytes of a table entry, and what they say: the handler's code base and instruction pointer.
abbrev pub entry : ℕ → Memory → List ℕ
entry code m = slice (vector_start + code * 16) 16 (contents m)

abbrev pub handler : ℕ → Memory → ℕ × ℕ
handler code m = (le_value (slice 0 8 (entry code m)), le_value (slice 8 8 (entry code m)))

-- A machine in which an interruption can be delivered: the table is in the memory, and the stack
-- has room for the registers.
pub record CanEnter (c : Cpu) : Type 0 where
  pub well_formed : IsWellFormed c.mem
  pub valid : IsRegisters c.regs
  pub table : vector_start + 4096 ≤ c.mem.total
  pub room : 256 ≤ c.regs.stack_pointer
  pub fits : frame c + 256 ≤ c.mem.total

-- The lookup of the last valid code still ends inside the table; code 256 is out of range.
pub interruption_lookup_lem :
    (code : ℕ) (c : Cpu)
    → IsWellFormed c.mem
    → vector_start + 4096 ≤ c.mem.total
    → code < 256
    → interruption_lookup code c ≡ (done (handler code c.mem), c)
unfolding interruption_lookup read_bytes
interruption_lookup_lem code c w t h = rw (
  leb_of_lt vector_end (vector_start + code * 16) (omega arith),
  read_in_range c.mem (vector_start + code * 16) 16 w (omega arith) (omega arith),
)

-- The machine at the start of a handler.
abbrev pub entered : ℕ → Flags → Memory → Cpu → Cpu
entered code fg m c = record c {
  mem = m;
  regs = record (c.regs) {
    flags = masked fg;
    stack_pointer = c.regs.stack_pointer - 256;
    code_base = (handler code c.mem).0;
    instruction_pointer = (handler code c.mem).1;
  };
}

deliver_lem :
    (code : ℕ) (fg : Flags) (c : Cpu) {m : Memory}
    → CanEnter c
    → code < 256
    → write_memory c.mem (frame c) (image c.regs) ≡ some m
    → deliver code fg c ≡ (done (masked fg), entered code fg m c)
unfolding deliver jump_table
deliver_lem code fg c v h e = rw (
  interruption_lookup_lem code c v.well_formed v.table h,
  and_then,
  preserve_cpu_state_lem c v.valid v.room e,
)

-- The codes that the hardware switch leaves to its default.
abbrev pub IsException : ℕ → Type 0
IsException code =
    (code ≤ 0x1F) × (code ≢ 0x00) × (code ≢ 0x03) × (code ≢ 0x07) × ((code < 0x10) ⊎ (0x19 < code))

hardware_default :
    (code : ℕ) (fg : Flags) (c : Cpu)
    → IsException code
    → hardware code fg c ≡ and_then (deliver code fg c) (deliver_unmasked code)
unfolding hardware
hardware_default code fg c h = rw (
  eq_of_ne code 0x00 (omega arith),
  eq_of_ne code 0x03 (omega arith),
  eq_of_ne code 0x07 (omega arith),
  eq_of_ne code 0x10 (omega arith),
  eq_of_ne code 0x11 (omega arith),
  eq_of_ne code 0x12 (omega arith),
  eq_of_ne code 0x13 (omega arith),
  eq_of_ne code 0x14 (omega arith),
  eq_of_ne code 0x15 (omega arith),
  eq_of_ne code 0x16 (omega arith),
  eq_of_ne code 0x17 (omega arith),
  eq_of_ne code 0x18 (omega arith),
  eq_of_ne code 0x19 (omega arith),
)

-- After a delivery the mask is set, so the test at the end of the code delivers no second time.
deliver_again :
    (code : ℕ) (fg : Flags) (c : Cpu)
    → fg.interruption_mask ≡ true
    → deliver_unmasked code fg c ≡ (done tt, c)
unfolding deliver_unmasked
deliver_again code fg c h = ap {A = M (Unit {0})} (λ f. f c) (if_true fg.interruption_mask _ _ h)

deliver_unmasked_open :
    (code : ℕ) (fg : Flags) (c : Cpu)
    → fg.interruption_mask ≡ false
    → deliver_unmasked code fg c ≡ and_then (deliver code fg c) (λ _. pure tt)
unfolding deliver_unmasked
deliver_unmasked_open code fg c h =
    ap {A = M (Unit {0})} (λ f. f c) (if_false fg.interruption_mask _ _ h)

-- Where the table is in the memory and the stack has room, an exception (a code up to 0x1F that has
-- no service of its own), which no mask stops, or an unmasked interruption of a code from 0x20 to
-- 0xFF is delivered exactly once: the registers are saved in the 256 bytes below the stack pointer,
-- the mask is set, and the machine goes on at the handler that the table names. Nothing else
-- changes.
pub do_interruption_delivers :
    (code : ℕ) (c : Cpu)
    → CanEnter c
    → code < 256
    → IsException code ⊎ ((0x1F < code) × (c.regs.flags.interruption_mask ≡ false))
    → (m : Memory) × (write_memory c.mem (frame c) (image c.regs) ≡ some m)
      × (do_interruption code c ≡ (done tt, entered code c.regs.flags m c))
unfolding do_interruption
do_interruption_delivers code c v h kind =
    let (m, e, p) =
      write_in_range c.mem (frame c) (image c.regs) v.well_formed
        (omega (arith, length-image c.regs v.valid))
        (omega (arith, length-image c.regs v.valid, v.fits)) in
    let d = deliver_lem code c.regs.flags c v h e in
    elim kind [
      | inl x ↦ (
        m,
        e,
        rw (
          ltb_of_le max_entry code (omega arith),
          leb_of_le code 0x1F x.0,
          hardware_default code c.regs.flags c x,
          d,
        ),
      )
      | inr (lo, unmasked) ↦ (
        m,
        e,
        rw (
          ltb_of_le max_entry code (omega arith),
          leb_of_lt code 0x1F lo,
          deliver_unmasked_open code c.regs.flags c unmasked,
          d,
        ),
      )
    ]

-- The machine at the start of a handler, with nothing saved.
abbrev pub entered_unsaved : ℕ → Cpu → Cpu
entered_unsaved code c = record c {
  regs = record (c.regs) {
    flags = masked c.regs.flags;
    code_base = (handler code c.mem).0;
    instruction_pointer = (handler code c.mem).1;
  };
}

-- The fatal error and the stack overflow go on at their handlers, and save nothing.
pub do_interruption_unsaved :
    (code : ℕ) (c : Cpu)
    → IsWellFormed c.mem
    → vector_start + 4096 ≤ c.mem.total
    → (code ≡ 0x00) ⊎ (code ≡ 0x07)
    → do_interruption code c ≡ (done tt, entered_unsaved code c)
unfolding do_interruption hardware fatal_0x00 stackoverflow_0x07 set_mask jump_table
do_interruption_unsaved code c w t (inl e) =
    subst (λ n. do_interruption n c ≡ (done tt, entered_unsaved n c)) (sym e)
      (rw (interruption_lookup_lem 0x00 c w t (omega arith)))
do_interruption_unsaved code c w t (inr e) =
    subst (λ n. do_interruption n c ≡ (done tt, entered_unsaved n c)) (sym e)
      (rw (interruption_lookup_lem 0x07 c w t (omega arith)))

-- The stack that `iret` finds is the one that the delivery left.
pub record KeepsFrame (c c' : Cpu) (m : Memory) : Type 0 where
  pub same_base : c'.regs.stack_base ≡ c.regs.stack_base
  pub same_pointer : c'.regs.stack_pointer ≡ c.regs.stack_pointer - 256
  pub same_bytes : read_memory c'.mem (frame c) 256 ≡ read_memory m (frame c) 256

iret_lem :
    (c : Cpu) {bytes : List ℕ}
    → read_memory c.mem (add64 c.regs.stack_base c.regs.stack_pointer) 256 ≡ some bytes
    → iret c ≡ (done tt, record c { regs = of_image bytes })
unfolding iret pop_memory_from
iret_lem c e = rw (e, or_throw)

-- If the registers of a machine in which an interruption can be delivered were written below its
-- stack pointer, `iret` gives back every one of them, flags and stack pointer included, from any
-- later machine that has the stack base and the saved bytes as they were left, and the stack
-- pointer 256 bytes lower. The rest of that machine stays.
pub iret_restores :
    (c c' : Cpu) {m : Memory}
    → CanEnter c
    → write_memory c.mem (frame c) (image c.regs) ≡ some m
    → KeepsFrame c c' m
    → iret c' ≡ (done tt, record c' { regs = c.regs })
iret_restores c c' {m} v e k =
    let r : read_memory c'.mem (frame c) 256 ≡ some (image c.regs) =
      k.same_bytes
      ∙ subst (λ n. read_memory m (frame c) n ≡ some (image c.regs)) (length-image c.regs v.valid)
          (read-write_self c.mem (frame c) (image c.regs) v.well_formed
            (omega (arith, length-image c.regs v.valid)) e) in
    let r' : read_memory c'.mem (add64 c'.regs.stack_base c'.regs.stack_pointer) 256
        ≡ some (image c.regs) =
      ap₂ (λ a b. read_memory c'.mem (add64 a b) 256) k.same_base k.same_pointer ∙ r in
    iret_lem c' r' ∙ ap (λ g. (done tt, record c' { regs = g })) (of_image-image c.regs v.valid)
