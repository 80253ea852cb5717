-- ===== src/Transfer/Moves.antt =====
-- `MOVS`, and `PUSH` with `POP`.
use sysdarft.Base.{
  List, arith, le_bytes, leb_of_lt, length, length-le_bytes, length-slice, slice, some, subst, ℕ,
  ◌%◌, ◌+◌, ◌<◌, ◌^◌, ◌≡◌, ◌≤◌,
}
use sysdarft.Memory.{Memory, write_memory}
use sysdarft.Memory.Flat.{IsWellFormed, contents, length-contents, read_in_range}
use sysdarft.Memory.Write.{IsWritten, write_in_range}
use sysdarft.Registers.{IsRegisters, load, store}
use sysdarft.Width.{Width, bit64, le_value-le_bytes_width, modulus, prefix, width_bytes}
use sysdarft.Machine.{Cpu, add64, done, or_throw, pop_stack, push_stack, read_bytes, write_bytes}
use sysdarft.Machine.Stack.{pop_stack-push_stack}
use sysdarft.Operand.{Operand, get_val, register}
use sysdarft.Operand.Access.{register_count, width_bytes_le, width_of-prefix}
use sysdarft.Alu.Sums.{set_register}
use sysdarft.Transfer.{movs, pop, push}

-- Where `MOVS` reads and writes.
abbrev pub source : Cpu → ℕ
source c = add64 c.regs.extended_pointer c.regs.extended_base

abbrev pub destination : Cpu → ℕ
destination c = add64 c.regs.data_pointer c.regs.data_base

write_bytes_lem :
    (a : ℕ) (bytes : List ℕ) (c : Cpu) {m : Memory}
    → write_memory c.mem a bytes ≡ some m
    → write_bytes a bytes c ≡ (done tt, record c { mem = m })
unfolding write_bytes
write_bytes_lem a bytes c e = rw (e, write_bytes)

-- In a well-formed memory, `MOVS` of a count below 2 ^ 63 whose source and destination lie within
-- the total writes the bytes that the source held before to the destination, overlap or not, and
-- changes nothing else.
pub movs_lem :
    (c : Cpu)
    → IsWellFormed c.mem
    → IsRegisters c.regs
    → load bit64 3 c.regs < 2 ^ 63
    → source c + load bit64 3 c.regs ≤ c.mem.total
    → destination c + load bit64 3 c.regs ≤ c.mem.total
    → (m : Memory) × (movs c ≡ (done tt, record c { mem = m }))
      × IsWritten c.mem (destination c) (slice (source c) (load bit64 3 c.regs) (contents c.mem)) m
unfolding movs
movs_lem c w v h s d =
    let n = load bit64 3 c.regs in
    let bytes = slice (source c) n (contents c.mem) in
    let l : length bytes ≡ n =
      length-slice (source c) n (contents c.mem) (omega (arith, length-contents c.mem w)) in
    let (m, e, p) =
      write_in_range c.mem (destination c) bytes w (omega (arith, l)) (omega (arith, l)) in
    let r : read_bytes (source c) n c ≡ (done bytes, c) =
      unfold read_bytes in rw (read_in_range c.mem (source c) n w h s, or_throw) in
    let e' = write_bytes_lem (destination c) bytes c e in (m, rw (leb_of_lt (2 ^ 63) n h, r, e'), p)

-- In a well-formed memory, after a `PUSH` that succeeded, of an operand whose reading changes
-- nothing, a `POP` of the same width into a general register stores the value cut to the width
-- there, and every other register is as before the push.
pop-push :
    (w : Width) (i : ℕ) (a : Operand) (c : Cpu) {x : ℕ} {c' : Cpu}
    → IsWellFormed c.mem
    → IsRegisters c.regs
    → i < register_count w
    → get_val a c ≡ (done x, c)
    → push (prefix w) a c ≡ (done tt, c')
    → pop (prefix w) (register (prefix w) i) c'
      ≡ (done tt, record c' { regs = store w i (x % modulus w) c.regs })
unfolding push pop
pop-push w i a c {x} {c'} f v k e p =
    let bytes = le_bytes (width_bytes w) x in
    let l = length-le_bytes (width_bytes w) x in
    let q : push_stack bytes c ≡ (done tt, c') = rw (e, width_of-prefix w, or_throw) at p in
    let r =
      pop_stack-push_stack bytes c f (omega (arith, l, width_bytes_le w)) v.stack_pointer_fits q in
    let r' : pop_stack (width_bytes w) c' ≡ (done bytes, record c' { regs = c.regs }) =
      subst (λ n. pop_stack n c' ≡ (done bytes, record c' { regs = c.regs })) l r in
    rw (
      width_of-prefix w,
      or_throw,
      r',
      le_value-le_bytes_width w x,
      set_register w i (x % modulus w) (record c' { regs = c.regs }) k,
    )
