-- ===== src/Alu/Sums.antt =====
-- `ADD` and `SUB` on a register: result and carry.
use sysdarft.Base.{Bool, arith, false, leb, ltb, ltb_of_lt, ℕ, ◌%◌, ◌+◌, ◌-◌, ◌<◌, ◌≡◌}
use sysdarft.Registers.{IsRegisters, load, store}
use sysdarft.Registers.Aliasing.{load-lt}
use sysdarft.Width.{Width, bit16, bit32, bit64, bit8, modulus, prefix}
use sysdarft.Machine.{Cpu, add64, done, or_throw, sub64}
use sysdarft.Operand.{Operand, access_register, get_val, register, set_val, store_register}
use sysdarft.Operand.Access.{register_count, width_of-prefix}
use sysdarft.Interrupt.{with_flags}
use sysdarft.Alu.{add, arithmetic_flags, check_overflow, store_checked, sub, two_values}

-- `get_val` of a general register.
pub get_register :
    (w : Width) (i : ℕ) (c : Cpu)
    → i < register_count w
    → get_val (register (prefix w) i) c ≡ (done (load w i c.regs), c)
unfolding get_val access_register
get_register bit8 i c k = rw (ltb_of_lt i 8 k, or_throw)
get_register bit16 i c k = rw (ltb_of_lt i 8 k, or_throw)
get_register bit32 i c k = rw (ltb_of_lt i 8 k, or_throw)
get_register bit64 i c k = rw (ltb_of_lt i 16 k, or_throw)

pub set_register :
    (w : Width) (i v : ℕ) (c : Cpu)
    → i < register_count w
    → set_val (register (prefix w) i) v c ≡ (done tt, record c { regs = store w i v c.regs })
unfolding set_val store_register
set_register bit8 i v c k = rw (ltb_of_lt i 8 k, or_throw)
set_register bit16 i v c k = rw (ltb_of_lt i 8 k, or_throw)
set_register bit32 i v c k = rw (ltb_of_lt i 8 k, or_throw)
set_register bit64 i v c k = rw (ltb_of_lt i 16 k, or_throw)

-- The machine with a result in a register and its flags.
abbrev pub summed : Width → ℕ → ℕ → Bool → Cpu → Cpu
summed w i v cf c = record c { regs = store w i v (with_flags (arithmetic_flags cf false) c.regs) }

store_checked_lem :
    (w : Width) (i v : ℕ) (c : Cpu)
    → i < register_count w
    → store_checked (prefix w) (register (prefix w) i) v c
      ≡ (done tt, summed w i (v % modulus w) (leb (modulus w) v) c)
unfolding store_checked check_overflow
store_checked_lem w i v c k = rw (width_of-prefix w, or_throw, set_register w i (v % modulus w) _ k)

-- The carry that a sum should set, at the widths where 64 bits hold the whole sum; at 64 bits the
-- code finds none.
abbrev pub add_carry : Width → ℕ → ℕ → Bool
add_carry bit64 x y = false
add_carry w x y = leb (modulus w) (x + y)

abbrev pub sub_carry : Width → ℕ → ℕ → Bool
sub_carry bit64 x y = false
sub_carry w x y = ltb x y

sum_flags :
    (w : Width) (x y : ℕ)
    → x < modulus w
    → y < modulus w
    → (add64 x y % modulus w ≡ (x + y) % modulus w)
      × (leb (modulus w) (add64 x y) ≡ add_carry w x y)
sum_flags bit8 x y h k = (omega arith, ground arith)
sum_flags bit16 x y h k = (omega arith, ground arith)
sum_flags bit32 x y h k = (omega arith, ground arith)
sum_flags bit64 x y h k = (omega arith, ground arith)

difference_flags :
    (w : Width) (x y : ℕ)
    → x < modulus w
    → y < modulus w
    → (sub64 x y % modulus w ≡ (x + (modulus w - y)) % modulus w)
      × (leb (modulus w) (sub64 x y) ≡ sub_carry w x y)
difference_flags bit8 x y h k = (omega arith, ground arith)
difference_flags bit16 x y h k = (omega arith, ground arith)
difference_flags bit32 x y h k = (omega arith, ground arith)
difference_flags bit64 x y h k = (omega arith, ground arith)

-- `ADD` and `SUB` of a value that fits the width to a general register.
module _ (w : Width) (i : ℕ) (b : Operand) (c : Cpu) {y : ℕ} (r : IsRegisters c.regs)
    (k : i < register_count w) (e : get_val b c ≡ (done y, c)) (h : y < modulus w) where
  -- `ADD` of a value that fits the width to a general register: the register holds the sum modulo
  -- the width; below 64 bits the carry says that the sum does not fit, and at 64 bits it is always
  -- clear; overflow and the flags of a comparison are cleared.
  pub add_lem : add (prefix w) (register (prefix w) i) b c ≡ (
    done tt,
    summed w i ((load w i c.regs + y) % modulus w) (add_carry w (load w i c.regs) y) c,
  )
  unfolding add two_values
  add_lem =
      let (s, f) = sum_flags w (load w i c.regs) y (load-lt w i c.regs r) h in
      rw (get_register w i c k, e, store_checked_lem w i _ c k, s, f)

  -- `SUB` of a value that fits the width from a general register: the register holds the difference
  -- modulo the width; below 64 bits the carry says that the register was less than the value, and
  -- at 64 bits it is always clear; overflow and the flags of a comparison are cleared.
  pub sub_lem : sub (prefix w) (register (prefix w) i) b c ≡ (
    done tt,
    summed w i
        ((load w i c.regs + (modulus w - y)) % modulus w)
        (sub_carry w (load w i c.regs) y)
        c,
  )
  unfolding sub two_values
  sub_lem =
      let (s, f) = difference_flags w (load w i c.regs) y (load-lt w i c.regs r) h in
      rw (get_register w i c k, e, store_checked_lem w i _ c k, s, f)
