-- ===== src/Machine/Stack.antt =====
-- The stack: pushes, pops and overflow.
use native.Mathlib.Decide.{dec_lt}
use native.Mathlib.Nat.{add_comm}
use sysdarft.Base.{
  List, Option-cases, ap, arith, inl, inr, length, ltb_of_le, ltb_of_lt, none, some, ℕ, ◌%◌, ◌+◌,
  ◌-◌, ◌<◌, ◌^◌, ◌≡◌, ◌≤◌,
}
use sysdarft.Memory.{Memory, read_memory, write_memory}
use sysdarft.Memory.Flat.{IsWellFormed}
use sysdarft.Memory.Write.{write_in_range}
use sysdarft.Memory.Laws.{read-write_self}
use sysdarft.Machine.{Cpu, add64, done, pop_stack, push_stack, stack_overflow, thrown}

-- A push into a memory that takes the write.
pub push_stack_lem :
    (bytes : List ℕ) (c : Cpu) {m : Memory}
    → length bytes ≤ c.regs.stack_pointer
    → write_memory c.mem (add64 (c.regs.stack_pointer - length bytes) c.regs.stack_base) bytes
      ≡ some m
    → push_stack bytes c ≡ (
      done tt,
      record c {
        mem = m;
        regs = record (c.regs) { stack_pointer = c.regs.stack_pointer - length bytes };
      },
    )
unfolding push_stack
push_stack_lem bytes c h e = rw (ltb_of_le c.regs.stack_pointer (length bytes) h, e)

-- A push that the stack pointer leaves no room for throws StackOverflow and changes nothing.
pub push_stack_overflow :
    (bytes : List ℕ) (c : Cpu)
    → c.regs.stack_pointer < length bytes
    → push_stack bytes c ≡ (thrown stack_overflow, c)
unfolding push_stack
push_stack_overflow bytes c h = rw (ltb_of_lt c.regs.stack_pointer (length bytes) h)

-- A push that the memory refuses is a stack overflow too.
pub push_stack_refused :
    (bytes : List ℕ) (c : Cpu)
    → length bytes ≤ c.regs.stack_pointer
    → write_memory c.mem (add64 (c.regs.stack_pointer - length bytes) c.regs.stack_base) bytes
      ≡ none
    → push_stack bytes c ≡ (thrown stack_overflow, c)
unfolding push_stack
push_stack_refused bytes c h e = rw (ltb_of_le c.regs.stack_pointer (length bytes) h, e)

-- The machine after a pop.
abbrev pub popped : ℕ → Cpu → Cpu
popped size c = record c {
  regs = record (c.regs) { stack_pointer = add64 c.regs.stack_pointer size };
}

pub pop_stack_lem :
    (size : ℕ) (c : Cpu) {bytes : List ℕ}
    → read_memory c.mem (add64 c.regs.stack_base c.regs.stack_pointer) size ≡ some bytes
    → pop_stack size c ≡ (done bytes, popped size c)
unfolding pop_stack
pop_stack_lem size c e = rw (e, pop_stack)

-- The machine after a push: the new memory, and the lower stack pointer.
abbrev pub pushed : List ℕ → Memory → Cpu → Cpu
pushed bytes m c = record c {
  mem = m;
  regs = record (c.regs) { stack_pointer = c.regs.stack_pointer - length bytes };
}

-- What a push that succeeds has done.
pub record IsPushed (bytes : List ℕ) (c c' : Cpu) : Type 0 where
  pub room : length bytes ≤ c.regs.stack_pointer
  pub after : Memory
  pub stored :
      write_memory c.mem (add64 (c.regs.stack_pointer - length bytes) c.regs.stack_base) bytes
      ≡ some after
  pub result : c' ≡ pushed bytes after c

pub push_stack-IsPushed :
    (bytes : List ℕ) (c : Cpu) {c' : Cpu} → push_stack bytes c ≡ (done tt, c') → IsPushed bytes c c'
push_stack-IsPushed bytes c {c'} e = elim (dec_lt c.regs.stack_pointer (length bytes)) [
  | yes h ↦ cc (push_stack_overflow bytes c h)
  | no h ↦
      elim (Option-cases (
        write_memory c.mem (add64 (c.regs.stack_pointer - length bytes) c.regs.stack_base) bytes)) [
          | inl failed ↦ cc (push_stack_refused bytes c (omega arith) failed)
          | inr (m, ok) ↦ record {
            room = omega arith;
            after = m;
            stored = ok;
            result = cc (push_stack_lem bytes c (omega arith) ok);
          }
        ]
]

-- In a well-formed memory, a push of fewer than 2 ^ 63 bytes succeeds if there is room below the
-- stack pointer and the bytes lie within the total, and it leaves a well-formed memory.
pub push_stack_succeeds :
    (bytes : List ℕ) (c : Cpu)
    → IsWellFormed c.mem
    → length bytes < 2 ^ 63
    → length bytes ≤ c.regs.stack_pointer
    → add64 (c.regs.stack_pointer - length bytes) c.regs.stack_base + length bytes ≤ c.mem.total
    → (c' : Cpu) × (push_stack bytes c ≡ (done tt, c')) × IsWellFormed c'.mem
push_stack_succeeds bytes c w s room fits =
    let (m, e, p) = write_in_range c.mem _ bytes w s fits in
    (pushed bytes m c, push_stack_lem bytes c room e, p.well_formed)

-- In a well-formed memory, with a stack pointer of 64 bits, a value of fewer than 2 ^ 63 bytes that
-- was pushed is popped again by a pop of its size, and the registers are those from before the
-- push.
pub pop_stack-push_stack :
    (bytes : List ℕ) (c : Cpu) {c' : Cpu}
    → IsWellFormed c.mem
    → length bytes < 2 ^ 63
    → c.regs.stack_pointer < 2 ^ 64
    → push_stack bytes c ≡ (done tt, c')
    → pop_stack (length bytes) c' ≡ (done bytes, record c' { regs = c.regs })
pop_stack-push_stack bytes c {c'} w s k e =
    let p = push_stack-IsPushed bytes c e in
    let r = read-write_self c.mem _ bytes w s p.stored in
    let a : add64 c.regs.stack_base (c.regs.stack_pointer - length bytes)
        ≡ add64 (c.regs.stack_pointer - length bytes) c.regs.stack_base =
      ap (λ n. n % 2 ^ 64) (add_comm c.regs.stack_base (c.regs.stack_pointer - length bytes)) in
    let b : add64 (c.regs.stack_pointer - length bytes) (length bytes) ≡ c.regs.stack_pointer =
      omega (arith, p.room) in
    let q = pop_stack_lem (length bytes) (pushed bytes p.after c) {bytes = bytes} (rw a r) in
    rw (p.result, q, b)
