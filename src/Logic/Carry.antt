-- ===== src/Logic/Carry.antt =====
-- Rotations through the carry.
use Prim.Native.Nat.{bit_and, bit_or}
use native.Mathlib.Nat.{mod-lt, add_comm}
use sysdarft.Base.{
  Bool, ap, arith, bit_and_even, bit_or-high, bit_or-low, false, if◌then◌else◌, refl, subst, suc,
  sym, true, zero, ℕ, ◌%◌, ◌*◌, ◌+◌, ◌/◌, ◌<◌, ◌==◌, ◌^◌, ◌∙◌, ◌≡◌, ◌≢◌, ◌≤◌,
}
use sysdarft.Width.{Width, bit16, bit32, bit64, bit8, modulus}
use sysdarft.Alu.{bit_of}
use sysdarft.Logic.{rcl_step, rcr_step, rotate_carry}

or_one : (x : ℕ) → x % 2 ≡ 0 → bit_or x 1 ≡ x + 1
or_one x h =
    let e : x ≡ x / 2 * 2 ^ 1 = omega arith in
    ap (λ y. bit_or y 1) e ∙ bit_or-high 1 (x / 2) 1 (omega arith) ∙ omega arith

rcl_true : (w : Width) (v : ℕ) → v * 2 % modulus w % 2 ≡ 0
rcl_true bit8 v = omega arith
rcl_true bit16 v = omega arith
rcl_true bit32 v = omega arith
rcl_true bit64 v = omega arith

narrow_le : (w : Width) → w ≢ bit64 → modulus w ≤ 2 ^ 32
narrow_le bit8 h = omega arith
narrow_le bit16 h = omega arith
narrow_le bit32 h = omega arith
narrow_le bit64 h = absurd (h refl)

pub positive : (w : Width) → 0 < modulus w
positive bit8 = omega arith
positive bit16 = omega arith
positive bit32 = omega arith
positive bit64 = omega arith

rcl_lem :
    (w : Width) (v : ℕ) (cf : Bool)
    → w ≢ bit64
    → rcl_step w v cf ≡ (v * 2 % modulus w + bit_of cf, v / (modulus w / 2) % 2 == 1)
unfolding rcl_step
rcl_lem w v true h = rw (or_one _ (rcl_true w v))
rcl_lem w v false h =
    let k = mod-lt (v * 2) (positive w) in
    let e : bit_and (v * 2 % modulus w) 0xFFFFFFFE ≡ v * 2 % modulus w =
      bit_and_even (v * 2 % modulus w) 31 0xFFFFFFFE refl (rcl_true w v)
      ∙ omega (arith, k, narrow_le w h, rcl_true w v) in
    let z : v * 2 % modulus w + 0 ≡ v * 2 % modulus w = omega arith in rw (e, z)

rcr_lem :
    (w : Width) (x : ℕ) (b : Bool)
    → x < modulus w
    → rcr_step w x b ≡ (x / 2 + (if b then modulus w / 2 else 0), x % 2 == 1)
unfolding rcr_step
rcr_lem bit8 x true h =
    rw (bit_or-low 7 1 (x / 2) (omega arith)) (λ i. (add_comm (2 ^ 7) (x / 2) i, x % 2 == 1))
rcr_lem bit16 x true h =
    rw (bit_or-low 15 1 (x / 2) (omega arith)) (λ i. (add_comm (2 ^ 15) (x / 2) i, x % 2 == 1))
rcr_lem bit32 x true h =
    rw (bit_or-low 31 1 (x / 2) (omega arith)) (λ i. (add_comm (2 ^ 31) (x / 2) i, x % 2 == 1))
rcr_lem bit64 x true h =
    rw (bit_or-low 63 1 (x / 2) (omega arith)) (λ i. (add_comm (2 ^ 63) (x / 2) i, x % 2 == 1))
rcr_lem bit8 x false h = let e : x / 2 % 2 ^ 7 ≡ x / 2 + 0 = omega arith in rw e
rcr_lem bit16 x false h = let e : x / 2 % 2 ^ 15 ≡ x / 2 + 0 = omega arith in rw e
rcr_lem bit32 x false h = let e : x / 2 % 2 ^ 31 ≡ x / 2 + 0 = omega arith in rw e
rcr_lem bit64 x false h = let e : x / 2 % 2 ^ 63 ≡ x / 2 + 0 = omega arith in rw e

-- What the two rounds do to value and carry, as arithmetic.
inverse :
    (w : Width) (v : ℕ) (cf : Bool)
    → v < modulus w
    → ((v * 2 % modulus w + bit_of cf) / 2
          + (if v / (modulus w / 2) % 2 == 1 then modulus w / 2 else 0)
        ≡ v)
      × (((v * 2 % modulus w + bit_of cf) % 2 == 1) ≡ cf)
      × (v * 2 % modulus w + bit_of cf < modulus w)
inverse bit8 v true h = (ground arith, ground arith, omega arith)
inverse bit8 v false h = (ground arith, ground arith, omega arith)
inverse bit16 v true h = (ground arith, ground arith, omega arith)
inverse bit16 v false h = (ground arith, ground arith, omega arith)
inverse bit32 v true h = (ground arith, ground arith, omega arith)
inverse bit32 v false h = (ground arith, ground arith, omega arith)
inverse bit64 v true h = (ground arith, ground arith, omega arith)
inverse bit64 v false h = (ground arith, ground arith, omega arith)

abbrev apply_to : (ℕ → Bool → ℕ × Bool) → ℕ × Bool → ℕ × Bool
apply_to step (v, cf) = step v cf

-- Below 64 bits, one round of `RCR` undoes one of `RCL`.
step_back :
    (w : Width) (v : ℕ) (cf : Bool)
    → w ≢ bit64
    → v < modulus w
    → (apply_to (rcr_step w) (rcl_step w v cf) ≡ (v, cf)) × ((rcl_step w v cf).0 < modulus w)
step_back w v cf ne h =
    let (a, b, k) = inverse w v cf h in
    (
      ap (apply_to (rcr_step w)) (rcl_lem w v cf ne) ∙ rcr_lem w _ _ k ∙ (λ i. (a i, b i)),
      subst (λ (n : ℕ × Bool). n.0 < modulus w) (sym (rcl_lem w v cf ne)) k,
    )

rotate_carry-suc :
    (step : ℕ → Bool → ℕ × Bool) (n v : ℕ) (cf : Bool)
    → rotate_carry step (suc n) v cf ≡ apply_to step (rotate_carry step n v cf)
unfolding rotate_carry
rotate_carry-suc step zero v cf = refl
rotate_carry-suc step (suc n) v cf = rotate_carry-suc step n (step v cf).0 (step v cf).1

-- Below 64 bits, for a value that fits the width, as many rounds of `RCR` as of `RCL` before give
-- back the value and the carry.
pub rcr-rcl :
    (w : Width) (n v : ℕ) (cf : Bool)
    → w ≢ bit64
    → v < modulus w
    → rotate_carry
        (rcr_step w)
        n
        (rotate_carry (rcl_step w) n v cf).0
        (rotate_carry (rcl_step w) n v cf).1
      ≡ (v, cf)
unfolding rotate_carry
rcr-rcl w zero v cf ne h = refl
rcr-rcl w (suc n) v cf ne h =
    let (back, fits) = step_back w v cf ne h in
    let v' = (rcl_step w v cf).0 in
    let cf' = (rcl_step w v cf).1 in
    rotate_carry-suc (rcr_step w) n (rotate_carry (rcl_step w) n v' cf').0
      (rotate_carry (rcl_step w) n v' cf').1
    ∙ ap (apply_to (rcr_step w)) (rcr-rcl w n v' cf' ne fits)
    ∙ back

-- At 64 bits, a round of `RCL` with a clear carry loses the upper half of the value: only the lower
-- 32 bits of the value moved up by one are left.
pub rcl_loses : (v : ℕ) → (rcl_step bit64 v false).0 ≡ v * 2 % 2 ^ 32
unfolding rcl_step
rcl_loses v = bit_and_even (v * 2 % 2 ^ 64) 31 0xFFFFFFFE refl (omega arith) ∙ omega arith
