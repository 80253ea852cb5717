-- ===== src/Operand/Decoding.antt =====
-- Decoding operands from the bytes at the instruction pointer.
use native.Mathlib.Nat.{mod-eq_of_lt}
use sysdarft.Base.{
  List, [], ap, arith, drop, drop-append, le_bytes, le_value, length, length-append,
  length-le_bytes, length-slice, refl, slice, slice-add, some, sym, take, take-append, ℕ, ◌++◌, ◌+◌,
  ◌<◌, ◌∙◌, ◌∷◌, ◌≡◌, ◌≤◌,
}
use sysdarft.Memory.{read_memory}
use sysdarft.Memory.Flat.{IsWellFormed, contents, length-contents, read_in_range}
use sysdarft.Width.{Width, bit8, le_value-le_bytes_width, modulus, prefix, width_bytes}
use sysdarft.Machine.{Cpu, add64, done, or_throw, pop_code, pop_memory_from}
use sysdarft.Operand.{Operand, constant, decode_constant, decode_operand, decode_register, register}
use sysdarft.Operand.Access.{width_bytes_le, width_of-prefix}

-- The address of the next byte of code.
abbrev pub code_address : Cpu → ℕ
code_address c = c.regs.code_base + c.regs.instruction_pointer

-- The next bytes of code, all within the memory.
pub record HasCode (c : Cpu) (bytes : List ℕ) : Type 0 where
  pub well_formed : IsWellFormed c.mem
  pub within : code_address c + length bytes ≤ c.mem.total
  pub there : slice (code_address c) (length bytes) (contents c.mem) ≡ bytes

-- The machine that has read `n` bytes of code.
abbrev pub advanced : ℕ → Cpu → Cpu
advanced n c = record c {
  regs = record (c.regs) { instruction_pointer = c.regs.instruction_pointer + n };
}

take-append_at : (n : ℕ) (xs ys : List ℕ) → length xs ≡ n → take n (xs ++ ys) ≡ xs
take-append_at n xs ys e = ap (λ k. take k (xs ++ ys)) (sym e) ∙ take-append xs ys

drop-append_at : (n : ℕ) (xs ys : List ℕ) → length xs ≡ n → drop n (xs ++ ys) ≡ ys
drop-append_at n xs ys e = ap (λ k. drop k (xs ++ ys)) (sym e) ∙ drop-append xs ys

-- The first part of the code, and the rest of it after that part is read.
pub first_code : (xs ys : List ℕ) (c : Cpu) → HasCode c (xs ++ ys) → HasCode c xs
first_code xs ys c h =
    let l = length-append xs ys in
    let t = ap (λ n. slice (code_address c) n (contents c.mem)) (sym l) ∙ h.there in
    let s = slice-add (code_address c) (length xs) (length ys) (contents c.mem) in
    let f =
      length-slice (code_address c) (length xs) (contents c.mem)
        (omega (arith, l, h.within, length-contents c.mem h.well_formed)) in
    record {
      well_formed = h.well_formed;
      within = omega (arith, l, h.within);
      there =
          sym (take-append_at (length xs) _ _ f)
          ∙ ap (take (length xs)) (sym s ∙ t)
          ∙ take-append xs ys;
    }

pub rest_code :
    (xs ys : List ℕ) (c : Cpu) → HasCode c (xs ++ ys) → HasCode (advanced (length xs) c) ys
rest_code xs ys c h =
    let l = length-append xs ys in
    let t = ap (λ n. slice (code_address c) n (contents c.mem)) (sym l) ∙ h.there in
    let s = slice-add (code_address c) (length xs) (length ys) (contents c.mem) in
    let f =
      length-slice (code_address c) (length xs) (contents c.mem)
        (omega (arith, l, h.within, length-contents c.mem h.well_formed)) in
    let a : code_address (advanced (length xs) c) ≡ code_address c + length xs = omega arith in
    record {
      well_formed = h.well_formed;
      within = omega (arith, l, h.within);
      there =
          ap (λ n. slice n (length ys) (contents c.mem)) a
          ∙ sym (drop-append_at (length xs) _ _ f)
          ∙ ap (drop (length xs)) (sym s ∙ t)
          ∙ drop-append_at (length xs) xs ys refl;
    }

pub pop_code_lem :
    (w : Width) (bytes : List ℕ) (c : Cpu)
    → HasCode c bytes
    → length bytes ≡ width_bytes w
    → pop_code w c ≡ (done (le_value bytes), advanced (length bytes) c)
unfolding pop_code pop_memory_from
pop_code_lem w bytes c h l =
    let cb = c.regs.code_base in
    let ip = c.regs.instruction_pointer in
    let small = h.well_formed.small in
    let few = width_bytes_le w in
    let a : add64 cb ip ≡ code_address c = omega (arith, h.within, small) in
    let r : read_memory c.mem (add64 cb ip) (width_bytes w) ≡ some bytes =
      ap (λ n. read_memory c.mem n (width_bytes w)) a
      ∙ read_in_range c.mem (code_address c) (width_bytes w) h.well_formed (omega (arith, few))
          (omega (arith, h.within, l))
      ∙ ap some (ap (λ n. slice (code_address c) n (contents c.mem)) (sym l) ∙ h.there) in
    let n : add64 ip (width_bytes w) ≡ ip + length bytes = omega (arith, h.within, small, few, l) in
    rw (r, pop_memory_from, pop_code, n)

pub pop_byte :
    (b : ℕ) (rest : List ℕ) (c : Cpu)
    → HasCode c (b ∷ rest)
    → (pop_code bit8 c ≡ (done b, advanced 1 c)) × HasCode (advanced 1 c) rest
pop_byte b rest c h =
    let v : le_value (b ∷ []) ≡ b = omega arith in
    (
      pop_code_lem bit8 (b ∷ []) c (first_code (b ∷ []) rest c h) refl
          ∙ ap (λ n. (done n, advanced 1 c)) v,
      rest_code (b ∷ []) rest c h,
    )

pub advanced-advanced : (m n : ℕ) (c : Cpu) → advanced n (advanced m c) ≡ advanced (m + n) c
advanced-advanced m n c =
    let e : c.regs.instruction_pointer + m + n ≡ c.regs.instruction_pointer + (m + n) =
      omega arith in
    λ i. record c { regs = record (c.regs) { instruction_pointer = e i } }

-- The bytes of a register operand and of a constant operand.
pub data IsOperandCode : Operand → List ℕ → Type 0 where
  register_code :
      (width index : ℕ) → IsOperandCode (register width index) (0x01 ∷ width ∷ index ∷ [])
  constant_code :
      (w : Width) (v : ℕ)
      → v < modulus w
      → IsOperandCode (constant v (prefix w)) (0x02 ∷ prefix w ∷ le_bytes (width_bytes w) v)

-- If the code at the instruction pointer lies in the memory and is a register operand (prefix,
-- width, index) or a constant operand (prefix, width prefix, the value's bytes, lowest first),
-- decoding gives that operand, and the instruction pointer moves past those bytes.
pub decode_operand_lem :
    (c : Cpu) {o : Operand} {bytes : List ℕ}
    → HasCode c bytes
    → IsOperandCode o bytes
    → decode_operand c ≡ (done o, advanced (length bytes) c)
unfolding decode_operand decode_register decode_constant
decode_operand_lem c h (register_code width index) =
    let (p1, h1) = pop_byte 0x01 (width ∷ index ∷ []) c h in
    let (p2, h2) = pop_byte width (index ∷ []) (advanced 1 c) h1 in
    let (p3, h3) = pop_byte index [] (advanced 1 (advanced 1 c)) h2 in
    let e = advanced-advanced 1 1 (advanced 1 c) ∙ advanced-advanced 1 2 c in
    rw (p1, p2, p3) (λ i. (done (register width index), e i))
decode_operand_lem c h (constant_code w v k) =
    let bs = le_bytes (width_bytes w) v in
    let l = length-le_bytes (width_bytes w) v in
    let (p1, h1) = pop_byte 0x02 (prefix w ∷ bs) c h in
    let (p2, h2) = pop_byte (prefix w) bs (advanced 1 c) h1 in
    let p3 = pop_code_lem w bs (advanced 1 (advanced 1 c)) h2 l in
    let x : le_value bs ≡ v = le_value-le_bytes_width w v ∙ mod-eq_of_lt k in
    let e =
      advanced-advanced 1 (length bs) (advanced 1 c) ∙ advanced-advanced 1 (1 + length bs) c in
    let n : 1 + (1 + length bs) ≡ length (0x02 ∷ prefix w ∷ bs) = omega arith in
    rw (p1, p2, width_of-prefix w, or_throw, p3)
      (λ i. (done (constant (x i) (prefix w)), (e ∙ ap (λ k. advanced k c) n) i))
