-- ===== src/Execute/Cycle.antt =====
-- One instruction from fetch to end.
use sysdarft.Base.{List, [], arith, false, length, length-append, some, ℕ, ◌++◌, ◌+◌, ◌∷◌, ◌≡◌}
use sysdarft.Width.{Width, prefix}
use sysdarft.Machine.{Cpu, M, done, or_throw, sub64}
use sysdarft.Operand.{Operand}
use sysdarft.Operand.Access.{width_of-prefix}
use sysdarft.Operand.Decoding.{
  HasCode, IsOperandCode, advanced, decode_operand_lem, first_code, pop_byte, rest_code,
}
use sysdarft.Hub.{Host}
use sysdarft.Instructions.{Instruction, find_opcode, instruction_map}
use sysdarft.Execute.{
  decode_operands, decode_width, dispatch, end_abort, execute, executor, pop_instruction,
  run_instruction,
}
use sysdarft.Execute.Faults.{fetching}

-- The bytes of an instruction with a width and two operands.
abbrev pub two_operand_code : ℕ → Width → List ℕ → List ℕ → List ℕ
two_operand_code opcode w b0 b1 = opcode ∷ prefix w ∷ (b0 ++ b1)

-- The machine that has fetched such an instruction.
abbrev pub decoded : ℕ → Cpu → Cpu
decoded n c = record (advanced n (fetching c)) { pop_len = n; int3_debug = false }

fetching-HasCode : (bytes : List ℕ) (c : Cpu) → HasCode c bytes → HasCode (fetching c) bytes
fetching-HasCode bytes c h = record {
  well_formed = h.well_formed;
  within = h.within;
  there = h.there;
}

two_operands :
    (opcode : ℕ) (w : Width) (c : Cpu) (row : Instruction) {o0 o1 : Operand} {b0 b1 : List ℕ}
    → find_opcode opcode instruction_map ≡ some row
    → row.argument_count ≡ 2
    → row.needs_width ≡ 1
    → IsOperandCode o0 b0
    → IsOperandCode o1 b1
    → HasCode c (two_operand_code opcode w b0 b1)
    → pop_instruction c ≡ (
      done (record { opcode = opcode; width = prefix w; operands = o0 ∷ o1 ∷ [] }),
      advanced (length (two_operand_code opcode w b0 b1)) c,
    )
unfolding pop_instruction decode_width decode_operands
two_operands opcode w c row {o0} {o1} {b0} {b1} f a n q0 q1 h =
    let (p1, h1) = pop_byte opcode (prefix w ∷ (b0 ++ b1)) c h in
    let c1 = advanced 1 c in
    let (p2, h2) = pop_byte (prefix w) (b0 ++ b1) c1 h1 in
    let c2 = advanced 1 c1 in
    let p3 = decode_operand_lem c2 (first_code b0 b1 c2 h2) q0 in
    let c3 = advanced (length b0) c2 in
    let p4 = decode_operand_lem c3 (rest_code b0 b1 c2 h2) q1 in
    let e : c.regs.instruction_pointer + 1 + 1 + length b0 + length b1
        ≡ c.regs.instruction_pointer + length (two_operand_code opcode w b0 b1) =
      omega (arith, length-append b0 b1) in
    rw (p1, f, or_throw, n, p2, width_of-prefix w, or_throw, a, p3, p4)
      (λ i. (
        done (record { opcode = opcode; width = prefix w; operands = o0 ∷ o1 ∷ [] }),
        record c { regs = record (c.regs) { instruction_pointer = e i } },
      ))

dispatch_lem :
    (host : Host) (opcode width : ℕ) (o0 o1 : Operand) (c : Cpu) {procedure : M (Unit {0})}
    → executor host opcode width o0 o1 ≡ some procedure
    → dispatch host (record { opcode = opcode; width = width; operands = o0 ∷ o1 ∷ [] }) c
      ≡ procedure c
unfolding dispatch
dispatch_lem host opcode width o0 o1 c x = rw (x, dispatch)

-- If the code at the instruction pointer lies in the memory and is an opcode whose row has a width
-- and two operands, its width prefix, and two register or constant operands, ExecutorMap has a
-- procedure for it, and that procedure ends normally on the machine whose instruction pointer is
-- past those bytes, with their number and the old pointer recorded, then `execute` ends normally
-- with what the procedure leaves.
pub execute_lem :
    (host : Host) (opcode : ℕ) (w : Width) (c c' : Cpu) (row : Instruction) {o0 o1 : Operand}
    {b0 b1 : List ℕ} {procedure : M (Unit {0})}
    → find_opcode opcode instruction_map ≡ some row
    → row.argument_count ≡ 2
    → row.needs_width ≡ 1
    → IsOperandCode o0 b0
    → IsOperandCode o1 b1
    → HasCode c (two_operand_code opcode w b0 b1)
    → executor host opcode (prefix w) o0 o1 ≡ some procedure
    → procedure (decoded (length (two_operand_code opcode w b0 b1)) c) ≡ (done tt, c')
    → execute host c ≡ (done tt, c')
unfolding execute run_instruction end_abort
execute_lem host opcode w c c' row {o0 = o0} {o1 = o1} {b0 = b0} {b1 = b1} f a n q0 q1 h x p =
    let k = length (two_operand_code opcode w b0 b1) in
    let d = two_operands opcode w (fetching c) row f a n q0 q1 (fetching-HasCode _ c h) in
    let s : sub64 (c.regs.instruction_pointer + k) c.regs.instruction_pointer ≡ k =
      omega (arith, h.within, h.well_formed.small) in
    rw (d, s, dispatch_lem host opcode (prefix w) o0 o1 (decoded k c) x, p)
