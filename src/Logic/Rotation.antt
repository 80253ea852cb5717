-- ===== src/Logic/Rotation.antt =====
-- Rotations.
use native.Mathlib.Nat.{
  mul-add-mod_self_right, mul-add-div_right, mod-eq_of_lt, pow-suc, mul_comm, mod-lt, one-le-pow,
}
use sysdarft.Base.{
  Bool-cases, ap, arith, bit_or-high, bit_or-low, false, inl, inr, refl, suc, sym, true, zero, ℕ,
  ◌%◌, ◌*◌, ◌+◌, ◌-◌, ◌/◌, ◌<◌, ◌==◌, ◌^◌, ◌∙◌, ◌≡◌, ◌≤◌,
}
use sysdarft.Width.{Width, bit16, bit32, bit64, bit8, modulus}
use sysdarft.Logic.{bits, rotate_left, rotate_right}

-- A number below `p * q`, as `h * q + l`, turned: the two parts change places.
module _ (p q h l : ℕ) (hp : h < p) (lq : l < q) where
  turned_lt : l * p + h < p * q
  turned_lt = grind arith

  high_part : (h * q + l) / q ≡ h
  high_part = grind (arith, mul-add-div_right {m = q} (omega arith) h l)

  turn : ((h * q + l) * p + h) % (p * q) ≡ l * p + h
  turn =
      let e : (h * q + l) * p + h ≡ h * (p * q) + (l * p + h) = grind arith in
      rw e (mul-add-mod_self_right h (p * q) (l * p + h) ∙ mod-eq_of_lt turned_lt)

two_pow-add : (m n : ℕ) → 2 ^ m * 2 ^ n ≡ 2 ^ (m + n)
two_pow-add m zero = let s : m + 0 ≡ m = omega arith in rw s (omega arith)
two_pow-add m (suc n) =
    let s : m + suc n ≡ suc (m + n) = omega arith in
    let e : 2 ^ (m + suc n) ≡ 2 ^ (m + n) * 2 = ap (λ k. 2 ^ k) s ∙ pow-suc 2 (m + n) in
    grind (arith, two_pow-add m n, pow-suc 2 n, e)

modulus-bits : (w : Width) → modulus w ≡ 2 ^ bits w
modulus-bits bit8 = refl
modulus-bits bit16 = refl
modulus-bits bit32 = refl
modulus-bits bit64 = refl

parts_of-modulus : (w : Width) (k : ℕ) → k ≤ bits w → modulus w ≡ 2 ^ k * 2 ^ (bits w - k)
parts_of-modulus w k h =
    let s : bits w ≡ k + (bits w - k) = omega arith in
    modulus-bits w ∙ ap (λ (n : ℕ). 2 ^ n) s ∙ sym (two_pow-add k (bits w - k))

bits_positive : (w : Width) → 0 < bits w
bits_positive bit8 = omega arith
bits_positive bit16 = omega arith
bits_positive bit32 = omega arith
bits_positive bit64 = omega arith

-- Rotations by a count that is not a multiple of the width, of a value in two parts.
module _ (w : Width) (n h l : ℕ) (z : (n % bits w == 0) ≡ false) (hp : h < 2 ^ (n % bits w))
    (lq : l < 2 ^ (bits w - n % bits w)) where
  left_lem : rotate_left w (h * 2 ^ (bits w - n % bits w) + l) n ≡ l * 2 ^ (n % bits w) + h
  unfolding rotate_left
  left_lem =
      let p = 2 ^ (n % bits w) in
      let q = 2 ^ (bits w - n % bits w) in
      let m = parts_of-modulus w (n % bits w) (omega (arith, bits_positive w)) in
      rw (z, high_part p q h l hp lq, bit_or-high (n % bits w) (h * q + l) h hp, m)
        (turn p q h l hp lq)

  right_lem : rotate_right w (l * 2 ^ (n % bits w) + h) n ≡ h * 2 ^ (bits w - n % bits w) + l
  unfolding rotate_right
  right_lem =
      let p = 2 ^ (n % bits w) in
      let q = 2 ^ (bits w - n % bits w) in
      let m = parts_of-modulus w (n % bits w) (omega (arith, bits_positive w)) in
      rw
        (
          z,
          high_part q p l h lq hp,
          bit_or-low (bits w - n % bits w) (l * p + h) l lq,
          m,
          mul_comm p q,
        )
        (turn q p l h lq hp)

rotate_zero :
    (w : Width) (v n : ℕ) → (n % bits w == 0) ≡ true → rotate_right w (rotate_left w v n) n ≡ v
unfolding rotate_left rotate_right
rotate_zero w v n z = rw z

-- For a value that fits the width, a rotation to the left and then one to the right by the same
-- count, of any size, cancel.
pub rotate_right-rotate_left :
    (w : Width) (v n : ℕ) → v < modulus w → rotate_right w (rotate_left w v n) n ≡ v
rotate_right-rotate_left w v n f = elim (Bool-cases (n % bits w == 0)) [
  | inl z ↦ rotate_zero w v n z
  | inr z ↦
      let p = 2 ^ (n % bits w) in
      let q = 2 ^ (bits w - n % bits w) in
      let m = parts_of-modulus w (n % bits w) (omega (arith, bits_positive w)) in
      let e : v / q * q + v % q ≡ v = omega arith in
      let hp : v / q < p = grind (arith, m) in
      let lq : v % q < q = mod-lt v (one-le-pow (bits w - n % bits w) 2 (omega arith)) in
      let a = left_lem w n (v / q) (v % q) z hp lq in
      let b = right_lem w n (v / q) (v % q) z hp lq in
      ap (λ x. rotate_right w (rotate_left w x n) n) (sym e)
      ∙ ap (λ x. rotate_right w x n) a
      ∙ b
      ∙ e
]
