-- ===== src/Execute/Faults.antt =====
-- What ends an instruction that cannot go on.
use sysdarft.Interrupt.{do_interruption}
use sysdarft.Registers.{store}
use sysdarft.Base.{
  Bool, List, Option, [], ap, arith, false, if◌then◌else◌, inl, inr, none, none_ne_some, refl, some,
  some_inj, true, ℕ, ◌∙◌, ◌∷◌, ◌≡◌, ◌≢◌, ◌⊎◌,
}
use sysdarft.Memory.{Memory, write_memory}
use sysdarft.Registers.Image.{image}
use sysdarft.Width.{bit16, bit8}
use sysdarft.Machine.{
  Cpu, Exception, M, Outcome, aborted, bad_interruption, device_io_error, done, fatal, foreign,
  illegal_instruction, illegal_memory_access, interruption_out_of_range, no_such_device, or_throw,
  pop_code, stack_overflow, thrown, waiting,
}
use sysdarft.Operand.{Operand}
use sysdarft.Hub.{Host}
use sysdarft.Instructions.{Instruction, find_opcode, instruction_map}
use sysdarft.Interrupt.Delivery.{
  CanEnter, IsException, do_interruption_delivers, do_interruption_unsaved, entered,
  entered_unsaved, frame,
}
use sysdarft.Execute.{
  arithmetic, catch_with, control_flow, data_transfer, end_abort, execute, executor, handle, io,
  logic, misc, pop_instruction, run_instruction,
}

end_abort_never : (r : Outcome (Unit {0}) × Cpu) (c : Cpu) → end_abort r ≡ (thrown aborted, c) → ⊥
unfolding end_abort
end_abort_never (done u, s) c p = cc
end_abort_never (waiting, s) c p = cc
end_abort_never (thrown aborted, s) c p = cc
end_abort_never (thrown stack_overflow, s) c p = cc
end_abort_never (thrown illegal_memory_access, s) c p = cc
end_abort_never (thrown illegal_instruction, s) c p = cc
end_abort_never (thrown bad_interruption, s) c p = cc
end_abort_never (thrown interruption_out_of_range, s) c p = cc
end_abort_never (thrown no_such_device, s) c p = cc
end_abort_never (thrown device_io_error, s) c p = cc
end_abort_never (thrown fatal, s) c p = cc
end_abort_never (thrown foreign, s) c p = cc

-- An instruction never ends with the request to abort it: `execute` turns that into its end.
pub execute_never_aborted : (host : Host) (c c' : Cpu) → execute host c ≢ (thrown aborted, c')
unfolding execute
execute_never_aborted host c c' = end_abort_never _ c'

-- The machine when an instruction is fetched.
abbrev pub fetching : Cpu → Cpu
fetching c = record c { ip_before_pop = c.regs.instruction_pointer }

-- If the opcode that is read has no row in the instruction map, and an interruption can be
-- delivered in the machine that has read it, the instruction ends with interruption 0x06 delivered:
-- the registers, with the instruction pointer behind the opcode, are saved on the stack, and the
-- machine goes on at handler 0x06, whatever the mask says.
pub execute_undefined :
    (host : Host) (c : Cpu) (opcode : ℕ) {c' : Cpu}
    → pop_code bit8 (fetching c) ≡ (done opcode, c')
    → find_opcode opcode instruction_map ≡ none
    → CanEnter c'
    → (m : Memory) × (write_memory c'.mem (frame c') (image c'.regs) ≡ some m)
      × (execute host c ≡ (done tt, entered 0x06 c'.regs.flags m c'))
unfolding execute run_instruction pop_instruction handle end_abort
execute_undefined host c opcode {c'} e n v =
    let (m, w, d) =
      do_interruption_delivers 0x06 c' v (omega arith)
        (inl (omega arith, omega arith, omega arith, omega arith, inl (omega arith))) in
    (m, w, rw (e, n, or_throw, d))

-- The code of an exception in the table of interruptions. A request to abort and an exception of
-- the C++ library have none.
abbrev pub vector : Exception → Option ℕ
vector device_io_error = some 0x02
vector no_such_device = some 0x02
vector bad_interruption = some 0x04
vector interruption_out_of_range = some 0x04
vector illegal_instruction = some 0x06
vector stack_overflow = some 0x07
vector illegal_memory_access = some 0x08
vector fatal = some 0x00
vector aborted = none
vector foreign = none

-- What EXR0 says of a fault of a device.
abbrev pub reported : Exception → Cpu → Cpu
reported device_io_error c = record c { regs = store bit16 0 0xF0 c.regs }
reported no_such_device c = record c { regs = store bit16 0 0xF1 c.regs }
reported e c = c

-- The machine at the handler; a stack overflow and a fatal error save nothing.
abbrev pub at_handler : Exception → ℕ → Memory → Cpu → Cpu
at_handler stack_overflow code m c = entered_unsaved code c
at_handler fatal code m c = entered_unsaved code c
at_handler e code m c = entered code c.regs.flags m c

-- The registers can be saved, and the rest of the machine goes on as `after` says.
abbrev Handles : Outcome (Unit {0}) × Cpu → Cpu → (Memory → Cpu) → Type 0
Handles r c after =
    (m : Memory) × (write_memory c.mem (frame c) (image c.regs) ≡ some m) × (r ≡ (done tt, after m))

delivers_as :
    (k code : ℕ) (c : Cpu)
    → CanEnter c
    → IsException k
    → some k ≡ some code
    → Handles (do_interruption k c) c (λ m. entered code c.regs.flags m c)
delivers_as k code c v x n =
    let (m, w, d) = do_interruption_delivers k c v (omega (arith, x.0)) (inl x) in
    (m, w, d ∙ ap (λ i. (done tt, entered i c.regs.flags m c)) (some_inj n))

unsaved_as :
    (k code : ℕ) (c : Cpu)
    → CanEnter c
    → (k ≡ 0x00) ⊎ (k ≡ 0x07)
    → some k ≡ some code
    → Handles (do_interruption k c) c (λ m. entered_unsaved code c)
unsaved_as k code c v x n =
    let (m, w, d) =
      do_interruption_delivers 0x06 c v (omega arith)
        (inl (omega arith, omega arith, omega arith, omega arith, inl (omega arith))) in
    (
      m,
      w,
      do_interruption_unsaved k c v.well_formed v.table x
          ∙ ap (λ i. (done tt, entered_unsaved i c)) (some_inj n),
    )

handle_lem :
    (e : Exception) (code : ℕ) (c : Cpu)
    → CanEnter (reported e c)
    → vector e ≡ some code
    → Handles (handle e c) (reported e c) (λ m. at_handler e code m (reported e c))
unfolding handle
handle_lem device_io_error code c v n =
    delivers_as 0x02 code (reported device_io_error c) v (search arith) n
handle_lem no_such_device code c v n =
    delivers_as 0x02 code (reported no_such_device c) v (search arith) n
handle_lem bad_interruption code c v n = delivers_as 0x04 code c v (search arith) n
handle_lem interruption_out_of_range code c v n = delivers_as 0x04 code c v (search arith) n
handle_lem illegal_instruction code c v n = delivers_as 0x06 code c v (search arith) n
handle_lem illegal_memory_access code c v n = delivers_as 0x08 code c v (search arith) n
handle_lem stack_overflow code c v n = unsaved_as 0x07 code c v (inr refl) n
handle_lem fatal code c v n = unsaved_as 0x00 code c v (inl refl) n
handle_lem aborted code c v n = absurd (none_ne_some n)
handle_lem foreign code c v n = absurd (none_ne_some n)

-- If the fetch of an instruction or its procedure throws an exception that the table of
-- interruptions has a code for, and an interruption can be delivered where it was thrown, then
-- `execute` ends normally at the handler of that code: 0x02 for a fault or an absence of a device,
-- with 0xF0 or 0xF1 in EXR0, 0x04 for a bad interruption or one out of range, 0x06 for an illegal
-- instruction, 0x08 for an illegal access to the memory, each with the registers saved below the
-- stack pointer and the mask set, and 0x07 for a stack overflow and 0x00 for a fatal error, with
-- the mask set and nothing saved.
pub execute_faults :
    (host : Host) (c : Cpu) (e : Exception) (code : ℕ) {c' : Cpu}
    → run_instruction host c ≡ (thrown e, c')
    → vector e ≡ some code
    → CanEnter (reported e c')
    → (m : Memory) × (write_memory
          (reported e c').mem
          (frame (reported e c'))
          (image (reported e c').regs)
        ≡ some m)
      × (execute host c ≡ (done tt, at_handler e code m (reported e c')))
unfolding execute end_abort
execute_faults host c e code {c'} r n v =
    let (m, w, d) = handle_lem e code c' v n in
    (m, w, ap (λ x. end_abort (catch_with x handle)) r ∙ ap end_abort d)

abbrev has_executor : Option (M (Unit {0})) → Bool
has_executor none = false
has_executor (some p) = true

abbrev pub unregistered : Host → ℕ → Operand → Operand → List Instruction → List ℕ
unregistered host width a b [] = []
unregistered host width a b (i ∷ is) =
    if has_executor (executor host i.opcode width a b)
    then unregistered host width a b is
    else i.opcode ∷ unregistered host width a b is

-- Every opcode of the instruction map has a procedure in ExecutorMap, but for 0x3C to 0x3F, which
-- are JC, JNC, JO and JNO.
pub executor_complete :
    (host : Host) (width : ℕ) (a b : Operand)
    → unregistered host width a b instruction_map ≡ 0x3C ∷ 0x3D ∷ 0x3E ∷ 0x3F ∷ []
unfolding executor misc arithmetic data_transfer logic control_flow io
executor_complete host width a b = refl
