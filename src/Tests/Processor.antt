-- ===== src/Tests/Processor.antt =====
-- Registers, stack and instructions at concrete inputs.
use sysdarft.Base.{
  List, [], arith, false, if◌then◌else◌, inl, le_bytes, leb, ltb, refl, some, true, ℕ, ◌%◌, ◌*◌,
  ◌+◌, ◌-◌, ◌<◌, ◌==◌, ◌^◌, ◌∷◌, ◌≡◌,
}
use sysdarft.Memory.{Memory, write_memory}
use sysdarft.Memory.Write.{IsWritten, write_in_range}
use sysdarft.Memory.Flat.{IsWellFormed}
use sysdarft.Width.{bit16, bit64, bit8, modulus}
use sysdarft.Registers.{load, store}
use sysdarft.Registers.Aliasing.{load-store_apart, store-IsRegisters}
use sysdarft.Registers.Image.{image, of_image, of_image-image}
use sysdarft.Machine.{Cpu, done, pop_stack, push_stack}
use sysdarft.Machine.Stack.{pop_stack-push_stack, push_stack_lem, push_stack_succeeds, pushed}
use sysdarft.Operand.{Operand, constant, get_val, memory, register, set_val}
use sysdarft.Operand.Access.{cell, get_val-set_val}
use sysdarft.Alu.{add, cmp, div, sub, two_values}
use sysdarft.Alu.Division.{div_law}
use sysdarft.Alu.Sums.{add_carry, add_lem, sub_carry, sub_lem, summed}
use sysdarft.Logic.{rcl_step, rcr_step, rotate_carry, rotate_left, rotate_right}
use sysdarft.Logic.Rotation.{rotate_right-rotate_left}
use sysdarft.Logic.Carry.{rcl_loses, rcr-rcl}
use sysdarft.Control.{call, jb, jbe, je, jl, jle, jmp, jne, ret}
use sysdarft.Control.Subroutine.{IsCalled, KeepsStack, jump_if-cmp, ret-call}
use sysdarft.Tests.{
  small-IsWellFormed, small_machine, small_memory, test_regs, test_regs-IsRegisters,
}

load-store_apart_example : load bit8 1 (store bit16 1 70000 test_regs) ≡ load bit8 1 test_regs
load-store_apart_example = load-store_apart bit16 bit8 1 1 70000 test_regs (inl (omega arith))

of_image-image_example : of_image (image test_regs) ≡ test_regs
of_image-image_example = of_image-image test_regs test_regs-IsRegisters

abbrev word : List ℕ
word = 8 ∷ 7 ∷ 6 ∷ 5 ∷ []

word_pushed : (c' : Cpu) × (push_stack word small_machine ≡ (done tt, c')) × IsWellFormed c'.mem
word_pushed =
    push_stack_succeeds word small_machine small-IsWellFormed (omega arith) (omega arith)
      (omega arith)

pop_stack-push_stack_example :
    pop_stack 4 word_pushed.0 ≡ (done word, record (word_pushed.0) { regs = test_regs })
pop_stack-push_stack_example =
    pop_stack-push_stack word small_machine small-IsWellFormed (omega arith) (omega arith)
      word_pushed.1

get_val-set_val_example :
    (c' : Cpu) × (set_val (memory 4093 0x64) 12345 small_machine ≡ (done tt, c'))
    × (get_val (memory 4093 0x64) c' ≡ (done (12345 % modulus bit64), c'))
get_val-set_val_example =
    get_val-set_val small_machine 12345 test_regs-IsRegisters small-IsWellFormed
      (cell bit64 4093 (omega arith))

add_lem_example : add 0x16 (register 0x16 2) (constant 65535 0x16) small_machine ≡ (
  done tt,
  summed bit16 2
      ((load bit16 2 test_regs + 65535) % modulus bit16)
      (add_carry bit16 (load bit16 2 test_regs) 65535)
      small_machine,
)
unfolding get_val
add_lem_example =
    add_lem bit16 2 (constant 65535 0x16) small_machine test_regs-IsRegisters (omega arith) refl
      (omega arith)

sub_lem_example : sub 0x16 (register 0x16 2) (constant 5 0x16) small_machine ≡ (
  done tt,
  summed bit16 2
      ((load bit16 2 test_regs + (modulus bit16 - 5)) % modulus bit16)
      (sub_carry bit16 (load bit16 2 test_regs) 5)
      small_machine,
)
unfolding get_val
sub_lem_example =
    sub_lem bit16 2 (constant 5 0x16) small_machine test_regs-IsRegisters (omega arith) refl
      (omega arith)

abbrev num : ℕ → Operand
num n = constant n 0x64

two_numbers : two_values (num 3) (num 4) small_machine ≡ (done (3, 4), small_machine)
unfolding two_values get_val
two_numbers = refl

jump_if-cmp_example :
    (c' : Cpu) × (cmp (num 3) (num 4) small_machine ≡ (done tt, c'))
    × (je (num 0) (num 9) c' ≡ (if 3 == 4 then jmp (num 0) (num 9) c' else (done tt, c')))
    × (jne (num 0) (num 9) c' ≡ (if 3 == 4 then (done tt, c') else jmp (num 0) (num 9) c'))
    × (jb (num 0) (num 9) c' ≡ (if ltb 4 3 then jmp (num 0) (num 9) c' else (done tt, c')))
    × (jl (num 0) (num 9) c' ≡ (if ltb 3 4 then jmp (num 0) (num 9) c' else (done tt, c')))
    × (jbe (num 0) (num 9) c' ≡ (if leb 4 3 then jmp (num 0) (num 9) c' else (done tt, c')))
    × (jle (num 0) (num 9) c' ≡ (if leb 3 4 then jmp (num 0) (num 9) c' else (done tt, c')))
jump_if-cmp_example = jump_if-cmp (num 3) (num 4) (num 0) (num 9) small_machine two_numbers

-- The two pushes of a call.
first_write :
    (m : Memory) × (write_memory small_memory 4088 (le_bytes 8 4096) ≡ some m)
    × IsWritten small_memory 4088 (le_bytes 8 4096) m
first_write =
    write_in_range small_memory 4088 (le_bytes 8 4096) small-IsWellFormed (omega arith)
      (omega arith)

second_write :
    (m : Memory) × (write_memory first_write.0 4080 (le_bytes 8 0) ≡ some m)
    × IsWritten (first_write.0) 4080 (le_bytes 8 0) m
second_write =
    write_in_range first_write.0 4080 (le_bytes 8 0) first_write.2.well_formed (omega arith)
      (omega (arith, first_write.2.same_total))

abbrev middle_machine : Cpu
middle_machine = pushed (le_bytes 8 4096) first_write.0 small_machine

abbrev last_machine : Cpu
last_machine = pushed (le_bytes 8 0) second_write.0 middle_machine

called : IsCalled small_machine last_machine
called = record {
  middle = middle_machine;
  first_push = push_stack_lem (le_bytes 8 4096) small_machine (omega arith) first_write.1;
  second_push = push_stack_lem (le_bytes 8 0) middle_machine (omega arith) second_write.1;
}

-- The subroutine has set R0 to 9.
abbrev returning : Cpu
returning = record last_machine { regs = store bit8 0 9 (last_machine.regs) }

kept : KeepsStack last_machine returning
unfolding store
kept = record { same_base = refl; same_pointer = refl; same_bytes = λ a h. refl }

ret-call_example :
    (call (num 5) (num 6) small_machine ≡ jmp (num 5) (num 6) last_machine)
    × (ret returning ≡ (
      done tt,
      record returning {
        regs = record (returning.regs) {
          code_base = 4096;
          instruction_pointer = 0;
          stack_pointer = 4096;
        };
      },
    ))
ret-call_example =
    ret-call (num 5) (num 6) small_machine last_machine returning small-IsWellFormed
      test_regs-IsRegisters called kept

rotate_right-rotate_left_example : rotate_right bit8 (rotate_left bit8 0x8F 11) 11 ≡ 0x8F
rotate_right-rotate_left_example = rotate_right-rotate_left bit8 0x8F 11 (omega arith)

rcr-rcl_example :
    rotate_carry
      (rcr_step bit8)
      5
      (rotate_carry (rcl_step bit8) 5 0x8F true).0
      (rotate_carry (rcl_step bit8) 5 0x8F true).1
    ≡ (0x8F, true)
rcr-rcl_example = rcr-rcl bit8 5 0x8F true (λ e. cc) (omega arith)

rcl_loses_example : (rcl_step bit64 0x123456789 false).0 ≡ 0x123456789 * 2 % 2 ^ 32
rcl_loses_example = rcl_loses 0x123456789

abbrev hundred : Cpu
hundred = record small_machine { regs = store bit16 0 100 test_regs }

div_law_example :
    (c' : Cpu) × (div 0x16 (num 7) hundred ≡ (done tt, c'))
    × (load bit16 0 c'.regs * 7 + load bit16 1 c'.regs ≡ load bit16 0 (hundred.regs))
    × (load bit16 1 c'.regs < 7)
unfolding get_val
div_law_example =
    div_law bit16 (num 7) hundred (store-IsRegisters bit16 0 100 test_regs test_regs-IsRegisters)
      refl (omega arith)
