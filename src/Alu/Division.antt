-- ===== src/Alu/Division.antt =====
-- `DIV`: quotient, remainder, and division by zero.
use native.Mathlib.Nat.{mod-eq_of_lt, mod-lt, mod-le}
use sysdarft.Base.{
  ap₂, arith, eq_of_ne, false, inl, leb_of_lt, ℕ, ◌%◌, ◌*◌, ◌+◌, ◌/◌, ◌<◌, ◌∙◌, ◌≡◌, ◌≢◌, ◌≤◌,
}
use sysdarft.Registers.{IsRegisters, load, store}
use sysdarft.Registers.Aliasing.{load-lt, load-store_apart, load-store_self, store-IsRegisters}
use sysdarft.Width.{Width, bit16, bit32, bit64, bit8, modulus, prefix, width_bytes}
use sysdarft.Machine.{Cpu, done, or_throw}
use sysdarft.Operand.{Operand, get_val}
use sysdarft.Operand.Access.{width_of-prefix}
use sysdarft.Interrupt.{with_flags}
use sysdarft.Alu.{accumulator, arithmetic_flags, check_overflow, div, store_accumulator}

-- The machine with quotient and remainder in registers 0 and 1.
abbrev pub divided : Width → ℕ → ℕ → Cpu → Cpu
divided w q r c = record c {
  regs = store w 1 r (store w 0 q (with_flags (arithmetic_flags false false) c.regs));
}

quotient_fits : (w : Width) (x y : ℕ) → x < modulus w → x / y < modulus w
quotient_fits w x y h = grind arith

remainder_fits : (w : Width) (x y : ℕ) → x < modulus w → 0 < y → x % y < modulus w
remainder_fits w x y h p = let d = mod-le x y in omega (arith, d)

div_nonzero :
    (w : Width) (a : Operand) (c : Cpu) {y : ℕ}
    → IsRegisters c.regs
    → get_val a c ≡ (done y, c)
    → y ≢ 0
    → div (prefix w) a c ≡ (done tt, divided w (load w 0 c.regs / y) (load w 0 c.regs % y) c)
unfolding div accumulator check_overflow store_accumulator
div_nonzero w a c {y} v e n =
    let x = load w 0 c.regs in
    let h = load-lt w 0 c.regs v in
    let q = quotient_fits w x y h in
    let r : x % y < modulus w = remainder_fits w x y h (omega arith) in
    rw (
      width_of-prefix w,
      or_throw,
      e,
      eq_of_ne y 0 n,
      mod-eq_of_lt q,
      mod-eq_of_lt r,
      leb_of_lt (modulus w) (x % y) r,
    )

two_fit : (w : Width) → 1 * width_bytes w + width_bytes w ≤ 128
two_fit bit8 = omega arith
two_fit bit16 = omega arith
two_fit bit32 = omega arith
two_fit bit64 = omega arith

-- `DIV` by a value that is not zero succeeds, and afterwards register 0 times the value plus
-- register 1 is what register 0 of the width was before, and register 1 is less than the value.
pub div_law :
    (w : Width) (a : Operand) (c : Cpu) {y : ℕ}
    → IsRegisters c.regs
    → get_val a c ≡ (done y, c)
    → y ≢ 0
    → (c' : Cpu) × (div (prefix w) a c ≡ (done tt, c'))
      × (load w 0 c'.regs * y + load w 1 c'.regs ≡ load w 0 c.regs)
      × (load w 1 c'.regs < y)
unfolding load store
div_law w a c {y} v e n =
    let x = load w 0 c.regs in
    let h = load-lt w 0 c.regs v in
    let q : x / y < modulus w = quotient_fits w x y h in
    let r : x % y < modulus w = remainder_fits w x y h (omega arith) in
    let c' = divided w (x / y) (x % y) c in
    let fit = two_fit w in
    let s0 : load w 0 c'.regs ≡ x / y =
      load-store_apart w w 1 0 (x % y) (store w 0 (x / y) c.regs) (inl (omega arith))
      ∙ load-store_self w 0 (x / y) c.regs v (omega (arith, fit))
      ∙ mod-eq_of_lt q in
    let s1 : load w 1 c'.regs ≡ x % y =
      load-store_self w 1 (x % y) (store w 0 (x / y) c.regs)
        (store-IsRegisters w 0 (x / y) c.regs v) fit
      ∙ mod-eq_of_lt r in
    let law : x / y * y + x % y ≡ x = omega arith in
    (
      c',
      div_nonzero w a c v e n,
      ap₂ (λ (m : ℕ) (k : ℕ). m * y + k) s0 s1 ∙ law,
      omega (arith, s1, mod-lt x {m = y} (omega arith)),
    )
