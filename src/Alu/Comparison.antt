-- ===== src/Alu/Comparison.antt =====
-- `CMP` and the conditional jumps after it.
use sysdarft.Base.{ℕ, ◌≡◌}
use sysdarft.Machine.{Cpu, done, or_throw}
use sysdarft.Operand.{Operand}
use sysdarft.Interrupt.{with_flags}
use sysdarft.Alu.{check_overflow, cmp, compared, two_values}

-- The machine after a comparison.
abbrev pub after_cmp : ℕ → ℕ → Cpu → Cpu
after_cmp x y c = record c { regs = with_flags (compared x y) c.regs }

-- A comparison sets the three flags of the order and leaves the rest of the machine alone, carry and
-- overflow included.
pub cmp_lem :
    (a b : Operand) (c : Cpu) {x y : ℕ}
    → two_values a b c ≡ (done (x, y), c)
    → cmp a b c ≡ (done tt, after_cmp x y c)
unfolding cmp check_overflow
cmp_lem a b c e = rw (e, or_throw)
