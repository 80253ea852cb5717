-- ===== src/Control.antt =====
-- src/cpu/Operations/ControlFlow.cpp and src/cpu/Operations/Misc.cpp.
pub mod Subroutine
use sysdarft.Base.{Bool, false, if◌then◌else◌, le_bytes, le_value, not, true, ◌==◌, ◌||◌}
use sysdarft.Registers.{Flags, load, store}
use sysdarft.Width.{bit64}
use sysdarft.Machine.{M, gets, modify, modify_regs, pop_stack, pure, push_stack, sub64, ◌>>=◌, ◌>>◌}
use sysdarft.Operand.{Operand, get_val}
use sysdarft.Interrupt.{do_interruption, with_flags}
use sysdarft.Alu.{two_values}

unfoldable pub jmp : Operand → Operand → M (Unit {0})
unfolding two_values
jmp a b = do
  (base, ip) ← two_values a b
  modify_regs (λ r. record r { code_base = base; instruction_pointer = ip })

-- The operands are read after the return address is on the stack.
unfoldable pub call : Operand → Operand → M (Unit {0})
unfolding push_stack jmp
call a b = do
  r ← gets (λ c. c.regs)
  push_stack (le_bytes 8 r.code_base)
  push_stack (le_bytes 8 r.instruction_pointer)
  jmp a b

unfoldable pub ret : M (Unit {0})
unfolding pop_stack
ret = do
  ip ← pop_stack 8
  cb ← pop_stack 8
  modify_regs (λ r. record r { code_base = le_value cb; instruction_pointer = le_value ip })

-- The conditional jumps, by the test that they make of the flags.
unfoldable pub jump_if : (Flags → Bool) → Operand → Operand → M (Unit {0})
unfolding jmp
jump_if test a b = do fg ← gets (λ c. c.regs.flags); if test fg then jmp a b else pure tt

unfoldable pub je : Operand → Operand → M (Unit {0})
unfolding jump_if
je = jump_if (λ fg. fg.equal)

unfoldable pub jne : Operand → Operand → M (Unit {0})
unfolding jump_if
jne = jump_if (λ fg. not fg.equal)

unfoldable pub jb : Operand → Operand → M (Unit {0})
unfolding jump_if
jb = jump_if (λ fg. fg.larger_than)

unfoldable pub jl : Operand → Operand → M (Unit {0})
unfolding jump_if
jl = jump_if (λ fg. fg.less_than)

unfoldable pub jbe : Operand → Operand → M (Unit {0})
unfolding jump_if
jbe = jump_if (λ fg. fg.equal || fg.larger_than)

unfoldable pub jle : Operand → Operand → M (Unit {0})
unfolding jump_if
jle = jump_if (λ fg. fg.equal || fg.less_than)

unfoldable pub jc : Operand → Operand → M (Unit {0})
unfolding jump_if
jc = jump_if (λ fg. fg.carry)

unfoldable pub jnc : Operand → Operand → M (Unit {0})
unfolding jump_if
jnc = jump_if (λ fg. not fg.carry)

unfoldable pub jo : Operand → Operand → M (Unit {0})
unfolding jump_if
jo = jump_if (λ fg. fg.overflow)

unfoldable pub jno : Operand → Operand → M (Unit {0})
unfolding jump_if
jno = jump_if (λ fg. not fg.overflow)

unfoldable pub int_ : Operand → M (Unit {0})
unfolding get_val do_interruption
int_ a = do code ← get_val a; do_interruption code

unfoldable pub int3 : M (Unit {0})
unfolding do_interruption
int3 = do_interruption 0x03

-- `loop`: jump until FER3, counted down, is zero.
unfoldable pub loop_ : Operand → Operand → M (Unit {0})
unfolding load store two_values
loop_ a b = do
  cx ← gets (λ c. sub64 (load bit64 3 c.regs) 1)
  if cx == 0 then modify_regs (store bit64 3 0) else do
    (base, ip) ← two_values a b
    modify_regs (λ r. store bit64 3 cx (record r { code_base = base; instruction_pointer = ip }))

unfoldable pub hlt : M (Unit {0})
hlt = modify (λ c. record c { halted = true })

-- `igni` masks interruptions and `alwi` allows them.
unfoldable pub igni : M (Unit {0})
igni = modify_regs (with_flags (λ fg. record fg { interruption_mask = true }))

unfoldable pub alwi : M (Unit {0})
alwi = modify_regs (with_flags (λ fg. record fg { interruption_mask = false }))
