-- ===== src/Control/Subroutine.antt =====
-- Jumps on a comparison, calls and returns.
use sysdarft.Memory.{Memory, read_memory, write_memory}
use sysdarft.Memory.Flat.{IsWellFormed}
use sysdarft.Memory.Laws.{read-write_apart, read-write_self}
use sysdarft.Memory.Write.{write_memory-IsWritten}
use sysdarft.Base.{
  Bool, List, ap, ap₂, arith, false, if_false, if_true, if◌then◌else◌, inl, inr, le_bytes, le_value,
  le_value-le_bytes, leb, length, ltb, not, refl, some, subst, sym, true, ℕ, ◌+◌, ◌-◌, ◌<◌, ◌==◌,
  ◌^◌, ◌||◌, ◌∙◌, ◌≡◌, ◌≤◌, ◌⊎◌,
}
use sysdarft.Registers.{Flags, IsRegisters}
use sysdarft.Machine.{Cpu, M, add64, done, push_stack}
use sysdarft.Machine.Stack.{pop_stack_lem, popped, push_stack-IsPushed, pushed}
use sysdarft.Operand.{Operand}
use sysdarft.Alu.{cmp, two_values}
use sysdarft.Alu.Comparison.{after_cmp, cmp_lem}
use sysdarft.Control.{call, jb, jbe, je, jl, jle, jmp, jne, jump_if, ret}

jump_if_lem :
    (test : Flags → Bool) (t u : Operand) (c : Cpu) {b : Bool}
    → test c.regs.flags ≡ b
    → jump_if test t u c ≡ (if b then jmp t u c else (done tt, c))
unfolding jump_if
jump_if_lem test t u c {b = true} e =
    ap {A = M (Unit {0})} (λ f. f c) (if_true (test c.regs.flags) _ _ e)
jump_if_lem test t u c {b = false} e =
    ap {A = M (Unit {0})} (λ f. f c) (if_false (test c.regs.flags) _ _ e)

if_not : {A : Type 0} (b : Bool) (x y : A) → (if not b then x else y) ≡ (if b then y else x)
if_not true x y = refl
if_not false x y = refl

or_larger : (x y : ℕ) → ((x == y) || ltb y x) ≡ leb y x
or_larger x y = ground arith

or_less : (x y : ℕ) → ((x == y) || ltb x y) ≡ leb x y
or_less x y = ground arith

-- If the operands of a comparison read as `x` and `y` and reading them changes nothing, then after
-- it the jumps are taken exactly in the order that their names say: JE if they are equal, JNE if
-- not, JB if `x` is larger, JL if it is less, JBE and JLE with equality.
pub jump_if-cmp :
    (a b t u : Operand) (c : Cpu) {x y : ℕ}
    → two_values a b c ≡ (done (x, y), c)
    → (c' : Cpu) × (cmp a b c ≡ (done tt, c'))
      × (je t u c' ≡ (if x == y then jmp t u c' else (done tt, c')))
      × (jne t u c' ≡ (if x == y then (done tt, c') else jmp t u c'))
      × (jb t u c' ≡ (if ltb y x then jmp t u c' else (done tt, c')))
      × (jl t u c' ≡ (if ltb x y then jmp t u c' else (done tt, c')))
      × (jbe t u c' ≡ (if leb y x then jmp t u c' else (done tt, c')))
      × (jle t u c' ≡ (if leb x y then jmp t u c' else (done tt, c')))
unfolding je jne jb jl jbe jle
jump_if-cmp a b t u c {x} {y} e = (
  after_cmp x y c,
  cmp_lem a b c e,
  jump_if_lem (λ fg. fg.equal) t u (after_cmp x y c) refl,
  jump_if_lem (λ fg. not fg.equal) t u (after_cmp x y c) refl ∙ if_not (x == y) _ _,
  jump_if_lem (λ fg. fg.larger_than) t u (after_cmp x y c) refl,
  jump_if_lem (λ fg. fg.less_than) t u (after_cmp x y c) refl,
  jump_if_lem (λ fg. fg.equal || fg.larger_than) t u (after_cmp x y c) (or_larger x y),
  jump_if_lem (λ fg. fg.equal || fg.less_than) t u (after_cmp x y c) (or_less x y),
)

-- The machine `last` is `c` with its code base and instruction pointer pushed.
pub record IsCalled (c last : Cpu) : Type 0 where
  pub middle : Cpu
  pub first_push : push_stack (le_bytes 8 c.regs.code_base) c ≡ (done tt, middle)
  pub second_push : push_stack (le_bytes 8 c.regs.instruction_pointer) middle ≡ (done tt, last)

-- A subroutine that has run from `last` to `c'`, with the stack as it found it.
pub record KeepsStack (last c' : Cpu) : Type 0 where
  pub same_base : c'.regs.stack_base ≡ last.regs.stack_base
  pub same_pointer : c'.regs.stack_pointer ≡ last.regs.stack_pointer
  pub same_bytes :
      (a : ℕ)
      → (a ≡ add64 last.regs.stack_base last.regs.stack_pointer)
        ⊎ (a ≡ add64 last.regs.stack_base (last.regs.stack_pointer + 8))
      → read_memory c'.mem a 8 ≡ read_memory last.mem a 8

-- What the two pushes of a call leave on the stack.
pub record IsFrame (c last : Cpu) : Type 0 where
  pub base : last.regs.stack_base ≡ c.regs.stack_base
  pub pointer : last.regs.stack_pointer + 16 ≡ c.regs.stack_pointer
  pub ip_word :
      read_memory last.mem (add64 last.regs.stack_base last.regs.stack_pointer) 8
      ≡ some (le_bytes 8 c.regs.instruction_pointer)
  pub cb_word :
      read_memory last.mem (add64 last.regs.stack_base (last.regs.stack_pointer + 8)) 8
      ≡ some (le_bytes 8 c.regs.code_base)

frame_of :
    (x y : List ℕ) (c : Cpu) {m1 m2 : Memory}
    → length x ≡ 8
    → length y ≡ 8
    → IsWellFormed c.mem
    → 16 ≤ c.regs.stack_pointer
    → write_memory c.mem (add64 (c.regs.stack_pointer - 8) c.regs.stack_base) x ≡ some m1
    → write_memory m1 (add64 (c.regs.stack_pointer - 8 - 8) c.regs.stack_base) y ≡ some m2
    → (read_memory m2 (add64 c.regs.stack_base (c.regs.stack_pointer - 8 - 8)) 8 ≡ some y)
      × (read_memory m2 (add64 c.regs.stack_base (c.regs.stack_pointer - 8 - 8 + 8)) 8 ≡ some x)
frame_of x y c {m1} {m2} k l w h e1 e2 =
    let (f1, p1) = write_memory-IsWritten c.mem _ x w (omega (arith, k)) e1 in
    let (f2, p2) = write_memory-IsWritten m1 _ y p1.well_formed (omega (arith, l)) e2 in
    let r1 = read-write_self c.mem _ x w (omega (arith, k)) e1 in
    let r2 = read-write_self m1 _ y p1.well_formed (omega (arith, l)) e2 in
    let s1 = p1.same_total in
    let small = w.small in
    let apart =
      read-write_apart m1 (add64 (c.regs.stack_pointer - 8 - 8) c.regs.stack_base) y p1.well_formed
        (omega (arith, l)) e2 (add64 (c.regs.stack_pointer - 8) c.regs.stack_base) 8 (omega arith)
        (inr (omega (arith, k, l, f1, f2, s1, small))) in
    let a2 : add64 c.regs.stack_base (c.regs.stack_pointer - 8 - 8)
        ≡ add64 (c.regs.stack_pointer - 8 - 8) c.regs.stack_base =
      omega arith in
    let a1 : add64 c.regs.stack_base (c.regs.stack_pointer - 8 - 8 + 8)
        ≡ add64 (c.regs.stack_pointer - 8) c.regs.stack_base =
      omega arith in
    (rw a2 (rw l at r2), rw a1 (apart ∙ rw k at r1))

call-IsFrame :
    (c : Cpu) {last : Cpu}
    → IsWellFormed c.mem
    → IsRegisters c.regs
    → IsCalled c last
    → IsFrame c last
call-IsFrame c {last} w v k =
    let p1 = push_stack-IsPushed _ c k.first_push in
    let p2 = push_stack-IsPushed _ k.middle k.second_push in
    let e1 = p1.result in
    let e2 : last
        ≡ pushed (le_bytes 8 c.regs.instruction_pointer) p2.after
            (pushed (le_bytes 8 c.regs.code_base) p1.after c) =
      p2.result ∙ ap (pushed (le_bytes 8 c.regs.instruction_pointer) p2.after) e1 in
    let n = p1.room in
    let n2 = subst (λ (s : Cpu). 8 ≤ s.regs.stack_pointer) e1 p2.room in
    let (r2, r1) =
      frame_of (le_bytes 8 c.regs.code_base) (le_bytes 8 c.regs.instruction_pointer) c refl refl w
        (omega arith) p1.stored
        (subst
          (λ (s : Cpu).
            write_memory s.mem (add64 (s.regs.stack_pointer - 8) s.regs.stack_base)
              (le_bytes 8 c.regs.instruction_pointer)
            ≡ some p2.after)
          e1 p2.stored) in
    subst (λ s. IsFrame c s) (sym e2)
      (record { base = refl; pointer = omega arith; ip_word = r2; cb_word = r1 })

ret_lem :
    (c : Cpu) {x y : List ℕ}
    → read_memory c.mem (add64 c.regs.stack_base c.regs.stack_pointer) 8 ≡ some x
    → read_memory c.mem (add64 c.regs.stack_base (c.regs.stack_pointer + 8)) 8 ≡ some y
    → c.regs.stack_pointer + 16 < 2 ^ 64
    → ret c ≡ (
      done tt,
      record c {
        regs = record (c.regs) {
          code_base = le_value y;
          instruction_pointer = le_value x;
          stack_pointer = c.regs.stack_pointer + 16;
        };
      },
    )
unfolding ret
ret_lem c {x} {y} ex ey h =
    let n8 : add64 c.regs.stack_pointer 8 ≡ c.regs.stack_pointer + 8 = omega arith in
    let n16 : add64 (add64 c.regs.stack_pointer 8) 8 ≡ c.regs.stack_pointer + 16 = omega arith in
    let p1 = pop_stack_lem 8 c ex in
    let p2 = pop_stack_lem 8 (popped 8 c) {bytes = y} (rw n8 ey) in rw (p1, p2, n16)

-- In a well-formed memory, where both pushes of a call succeed, the call pushes where it stands and
-- jumps; and a return, after a subroutine that left the stack base, the stack pointer and the two
-- words as it found them, goes on where the call stood: code base, instruction pointer and stack
-- pointer are the caller's again, and the rest of the subroutine's machine stays.
pub ret-call :
    (a b : Operand) (c last c' : Cpu)
    → IsWellFormed c.mem
    → IsRegisters c.regs
    → IsCalled c last
    → KeepsStack last c'
    → (call a b c ≡ jmp a b last)
      × (ret c' ≡ (
        done tt,
        record c' {
          regs = record (c'.regs) {
            code_base = c.regs.code_base;
            instruction_pointer = c.regs.instruction_pointer;
            stack_pointer = c.regs.stack_pointer;
          };
        },
      ))
unfolding call
ret-call a b c last c' w v k s =
    let f = call-IsFrame c w v k in
    let sp = s.same_pointer ∙ refl in
    let n : c'.regs.stack_pointer + 16 ≡ c.regs.stack_pointer =
      omega (arith, f.pointer, s.same_pointer) in
    let x =
      ap₂ (λ a b. read_memory c'.mem (add64 a b) 8) s.same_base s.same_pointer
      ∙ s.same_bytes _ (inl refl)
      ∙ f.ip_word in
    let y =
      ap₂ (λ a b. read_memory c'.mem (add64 a (b + 8)) 8) s.same_base s.same_pointer
      ∙ s.same_bytes _ (inr refl)
      ∙ f.cb_word in
    (
      rw (k.first_push, k.second_push),
      ret_lem c' x y (omega (arith, n, v.stack_pointer_fits)) ∙ (λ i. (
        done tt,
        record c' {
          regs = record (c'.regs) {
            code_base = le_value-le_bytes 8 c.regs.code_base v.code_base_fits i;
            instruction_pointer =
                le_value-le_bytes 8 c.regs.instruction_pointer v.instruction_pointer_fits i;
            stack_pointer = n i;
          };
        },
      )),
    )
