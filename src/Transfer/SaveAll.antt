-- ===== src/Transfer/SaveAll.antt =====
-- `PUSHALL`, `POPALL`, `ENTER` and `LEAVE`.
use sysdarft.Base.{
  IsBytes, IsBytes-append, List, [], ap, ap₂, arith, le_bytes, le_bytes-le_value, le_value, length,
  length-append, length-slice, overwrite_all, slice, slice-IsBytes, slice-add, some, splice,
  splice-append, splice-nil, subst, suc, sym, take, take-append, take-length, zero, ℕ, ◌%◌, ◌*◌,
  ◌++◌, ◌+◌, ◌-◌, ◌^◌, ◌∙◌, ◌∷◌, ◌≡◌, ◌≤◌,
}
use sysdarft.Registers.{IsRegisters, Registers, load, store}
use sysdarft.Registers.Image.{
  field_at-append, flags_of_word, flags_of_word-flags_word, flags_word, flags_word-lt, word_back,
  words, words-IsBytes,
}
use sysdarft.Machine.{Cpu, add64, and_then, done, modify_regs, push_stack}
use sysdarft.Machine.Stack.{pop_stack_lem, popped, push_stack-IsPushed}
use sysdarft.Memory.Flat.{IsWellFormed}
use native.Mathlib.Nat.{add_comm}
use sysdarft.Memory.{read_memory}
use sysdarft.Memory.Laws.{read-write_self}
use sysdarft.Machine.Stack.{pop_stack_lem, popped, push_stack-IsPushed}
use sysdarft.Transfer.{general_words, popall, pushall, pushall_data, restore_all, restore_general}

-- The words of the general registers are their bytes.
general_words_lem :
    (k i : ℕ) (r : Registers)
    → IsRegisters r
    → i + k ≤ 16
    → general_words k i r ≡ slice (i * 8) (k * 8) r.general
unfolding general_words load
general_words_lem zero i r v h =
    let z : 0 * 8 ≡ 0 = omega arith in sym (ap (λ n. slice (i * 8) n r.general) z)
general_words_lem (suc k) i r v h =
    let s = slice (i * 8) 8 r.general in
    let l : length s ≡ 8 = length-slice (i * 8) 8 r.general (omega (arith, v.size)) in
    let b : le_bytes 8 (le_value s) ≡ s =
      ap (λ n. le_bytes n (le_value s)) (sym l)
      ∙ le_bytes-le_value s (slice-IsBytes (i * 8) 8 r.general v.bytes) in
    let n1 : suc k * 8 ≡ 8 + k * 8 = omega arith in
    let n2 : (i + 1) * 8 ≡ i * 8 + 8 = omega arith in
    ap₂ (λ xs ys. xs ++ ys) b (general_words_lem k (i + 1) r v (omega arith))
    ∙ ap (λ n. s ++ slice n (k * 8) r.general) n2
    ∙ sym (ap (λ n. slice (i * 8) n r.general) n1 ∙ slice-add (i * 8) 8 (k * 8) r.general)

-- The stores of the words of `bytes` put its bytes into the general registers.
restore_general_lem :
    (k i : ℕ) (bytes : List ℕ) (r : Registers)
    → IsBytes bytes
    → (i + k) * 8 ≤ length bytes
    → restore_general k i bytes r
      ≡ record r { general = splice (i * 8) (slice (i * 8) (k * 8) bytes) r.general }
unfolding restore_general store
restore_general_lem zero i bytes r b h =
    let z : 0 * 8 ≡ 0 = omega arith in
    λ j. record r {
      general =
          sym
            (ap (λ n. splice (i * 8) (slice (i * 8) n bytes) r.general) z
              ∙ splice-nil (i * 8) r.general)
            j;
    }
restore_general_lem (suc k) i bytes r b h =
    let s = slice (8 * i) 8 bytes in
    let s' = slice (i * 8) 8 bytes in
    let c : 8 * i ≡ i * 8 = omega arith in
    let l : length s' ≡ 8 = length-slice (i * 8) 8 bytes (omega arith) in
    let w : le_bytes 8 (le_value s) ≡ s' =
      ap (λ n. le_bytes 8 (le_value (slice n 8 bytes))) c
      ∙ ap (λ n. le_bytes n (le_value s')) (sym l)
      ∙ le_bytes-le_value s' (slice-IsBytes (i * 8) 8 bytes b) in
    let r' : Registers = record r { general = splice (i * 8) s' r.general } in
    let n1 : suc k * 8 ≡ 8 + k * 8 = omega arith in
    let n2 : (i + 1) * 8 ≡ i * 8 + 8 = omega arith in
    let n3 : (i + 1) * 8 ≡ i * 8 + length s' = omega (arith, l) in
    ap (λ xs. restore_general k (i + 1) bytes (record r { general = splice (i * 8) xs r.general }))
      w
    ∙ restore_general_lem k (i + 1) bytes r' b (omega arith)
    ∙ (λ j. record r {
      general =
          (ap₂ (λ (n : ℕ) (m : ℕ). splice n (slice m (k * 8) bytes) (splice (i * 8) s' r.general))
                n3 n2
              ∙ sym (splice-append (i * 8) s' (slice (i * 8 + 8) (k * 8) bytes) r.general)
              ∙ sym (
                  ap (λ bs. splice (i * 8) bs r.general)
                    (ap (λ n. slice (i * 8) n bytes) n1 ∙ slice-add (i * 8) 8 (k * 8) bytes)))
            j;
    })

-- The registers after `POPALL`: those of `r`, but for code base, instruction pointer and the
-- registers that are not saved.
abbrev pub restored : Registers → Registers → Registers
restored r r' = record r' {
  general = r.general;
  flags = r.flags;
  stack_base = r.stack_base;
  stack_pointer = r.stack_pointer;
  data_base = r.data_base;
  data_pointer = r.data_pointer;
  extended_base = r.extended_base;
  extended_pointer = r.extended_pointer;
  stack_preservation = r.stack_preservation;
}

-- The fields behind the general registers.
abbrev saved_fields : Registers → List ℕ
saved_fields r =
    flags_word r.flags
    ∷ r.stack_base
    ∷ r.stack_pointer
    ∷ r.data_base
    ∷ r.data_pointer
    ∷ r.extended_base
    ∷ r.extended_pointer
    ∷ r.stack_preservation
    ∷ []

abbrev saved_words : Registers → List ℕ
saved_words r = words (saved_fields r)

pushall_data_lem : (r : Registers) → IsRegisters r → pushall_data r ≡ r.general ++ saved_words r
unfolding pushall_data
pushall_data_lem r v =
    ap (λ xs. xs ++ saved_words r)
      (general_words_lem 16 0 r v (omega arith)
        ∙ ap (λ n. take n r.general) (sym v.size)
        ∙ take-length r.general)

saved-IsBytes : (r : Registers) → IsRegisters r → IsBytes (r.general ++ saved_words r)
saved-IsBytes r v =
    IsBytes-append r.general (saved_words r) v.bytes (words-IsBytes (saved_fields r))

restore_all_lem :
    (r r' : Registers)
    → IsRegisters r
    → length r'.general ≡ 128
    → restore_all (r.general ++ saved_words r) r' ≡ restored r r'
unfolding restore_all
restore_all_lem r r' v h =
    let at = λ (k : ℕ). field_at-append r.general (saved_words r) k v.size in
    let bytes = r.general ++ saved_words r in
    let g0 =
      restore_general_lem 16 0 bytes r' (saved-IsBytes r v)
        (omega (arith, length-append r.general (saved_words r), v.size)) in
    let g1 : slice 0 128 bytes ≡ r.general =
      rw (← v.size) (take-append r.general (saved_words r)) in
    let g2 : splice 0 (slice 0 128 bytes) r'.general ≡ r.general =
      ap (λ xs. splice 0 xs r'.general) g1
      ∙ overwrite_all r.general r'.general (omega (arith, v.size)) in
    let fl =
      ap flags_of_word (at 0 ∙ word_back (flags_word r.flags) (flags_word-lt r.flags v.flags_fit))
      ∙ flags_of_word-flags_word r.flags v.flags_fit in
    λ i. record (g0 i) {
      general = (ap (λ (x : Registers). x.general) g0 ∙ g2) i;
      flags = fl i;
      stack_base = (at 1 ∙ word_back r.stack_base v.stack_base_fits) i;
      stack_pointer = (at 2 ∙ word_back r.stack_pointer v.stack_pointer_fits) i;
      data_base = (at 3 ∙ word_back r.data_base v.data_base_fits) i;
      data_pointer = (at 4 ∙ word_back r.data_pointer v.data_pointer_fits) i;
      extended_base = (at 5 ∙ word_back r.extended_base v.extended_base_fits) i;
      extended_pointer = (at 6 ∙ word_back r.extended_pointer v.extended_pointer_fits) i;
      stack_preservation = (at 7 ∙ word_back r.stack_preservation v.stack_preservation_fits) i;
    }

-- The stack of `c'` is the one that `PUSHALL` left in `last`.
pub record KeepsSaved (last c' : Cpu) : Type 0 where
  pub same_base : c'.regs.stack_base ≡ last.regs.stack_base
  pub same_pointer : c'.regs.stack_pointer ≡ last.regs.stack_pointer
  pub same_bytes :
      read_memory c'.mem (add64 last.regs.stack_base last.regs.stack_pointer) 192
      ≡ read_memory last.mem (add64 last.regs.stack_base last.regs.stack_pointer) 192

pushed_bytes :
    (c : Cpu) {last : Cpu}
    → IsWellFormed c.mem
    → IsRegisters c.regs
    → pushall c ≡ (done tt, last)
    → read_memory last.mem (add64 last.regs.stack_base last.regs.stack_pointer) 192
      ≡ some (c.regs.general ++ saved_words c.regs)
unfolding pushall
pushed_bytes c {last} w v e =
    let bytes = c.regs.general ++ saved_words c.regs in
    let l : length bytes ≡ 192 =
      omega (arith, length-append c.regs.general (saved_words c.regs), v.size) in
    let e' : push_stack bytes c ≡ (done tt, last) =
      ap (λ bs. push_stack bs c) (sym (pushall_data_lem c.regs v)) ∙ e in
    let p = push_stack-IsPushed bytes c e' in
    let r = read-write_self c.mem _ bytes w (omega (arith, l)) p.stored in
    let a : add64 c.regs.stack_base (c.regs.stack_pointer - length bytes)
        ≡ add64 (c.regs.stack_pointer - length bytes) c.regs.stack_base =
      ap (λ n. n % 2 ^ 64) (add_comm c.regs.stack_base (c.regs.stack_pointer - length bytes)) in
    subst
      (λ (s : Cpu).
        read_memory s.mem (add64 s.regs.stack_base s.regs.stack_pointer) 192 ≡ some bytes)
      (sym p.result)
      (subst
        (λ n.
          read_memory p.after (add64 c.regs.stack_base (c.regs.stack_pointer - length bytes)) n
          ≡ some bytes)
        l (rw a r))

-- In a well-formed memory, after a `PUSHALL` that succeeded, a `POPALL` in any machine that has the
-- stack base, the stack pointer and the 192 bytes as the push left them gives back every general
-- register, the flags, the stack base and pointer, the data and extended bases and pointers and the
-- stack preservation. Code base, instruction pointer and the rest of that machine stay.
pub popall-pushall :
    (c last c' : Cpu)
    → IsWellFormed c.mem
    → IsRegisters c.regs
    → length c'.regs.general ≡ 128
    → pushall c ≡ (done tt, last)
    → KeepsSaved last c'
    → popall c' ≡ (done tt, record c' { regs = restored c.regs c'.regs })
unfolding popall
popall-pushall c last c' w v h e k =
    let r =
      ap₂ (λ a b. read_memory c'.mem (add64 a b) 192) k.same_base k.same_pointer
      ∙ k.same_bytes
      ∙ pushed_bytes c w v e in
    ap (λ o. and_then o (λ bytes. modify_regs (restore_all bytes))) (pop_stack_lem 192 c' r)
    ∙ ap (λ g. (done tt, record c' { regs = g })) (restore_all_lem c.regs (popped 192 c').regs v h)
