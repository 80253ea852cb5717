-- ===== src/Base/Bits.antt =====
-- `|` of numbers that share no digit is a sum.
use Prim.Native.Nat.{
  ℕ, zero, suc, ◌+◌, ◌*◌, ◌/◌, ◌^◌, ◌≤◌, ◌<◌, max, digits, bit_or, bit_or-bitwise, bit_xor,
  bit_xor-bitwise, differ, min, bit_and, bit_and-bitwise, ◌%◌,
}
use mathlib.Core.Path.{◌≡◌, refl, ap, sym, ◌∙◌}
use native.Mathlib.Omega.{arith}
use native.Mathlib.Nat.{pow-suc, mod-lt, mod-eq_of_lt, one-le-pow, mul-add-mod_self_right}

abbrev or_digits : ℕ → ℕ → ℕ → ℕ
or_digits = digits (λ y. y) max

-- The higher number first, with enough rounds for it.
high_first : (n a k q r : ℕ) → a ≡ q * 2 ^ k → a ≤ n → r < 2 ^ k → or_digits n a r ≡ a + r
high_first zero a k q r e h p = omega arith
high_first (suc n) zero k q r e h p = omega arith
high_first (suc n) (suc a) zero q r e h p = ground (
  arith,
  high_first n (suc a / 2) 0 (suc a / 2) (r / 2) (omega arith) (omega arith) (omega arith),
)
high_first (suc n) (suc a) (suc k) q r e h p =
    let t = ap (λ (t : ℕ). q * t) (pow-suc 2 k) in
    let d = pow-suc 2 k in
    ground (
      arith,
      d,
      t,
      high_first n (suc a / 2) k q (r / 2) (omega (arith, t)) (omega arith) (omega (arith, d)),
    )

-- The lower number first.
low_first : (n r k q a : ℕ) → a ≡ q * 2 ^ k → r ≤ n → r < 2 ^ k → or_digits n r a ≡ a + r
low_first zero r k q a e h p = omega arith
low_first (suc n) zero k q a e h p = omega arith
low_first (suc n) (suc r) zero q a e h p = absurd (omega arith)
low_first (suc n) (suc r) (suc k) q a e h p =
    let t = ap (λ (t : ℕ). q * t) (pow-suc 2 k) in
    let d = pow-suc 2 k in
    ground (
      arith,
      d,
      t,
      low_first n (suc r / 2) k q (a / 2) (omega (arith, t)) (omega arith) (omega (arith, d)),
    )

-- A multiple of 2 ^ k and a number below 2 ^ k.
pub bit_or-high : (k q r : ℕ) → r < 2 ^ k → bit_or (q * 2 ^ k) r ≡ q * 2 ^ k + r
bit_or-high k q r h = simp bit_or-bitwise (high_first _ (q * 2 ^ k) k q r refl (omega arith) h)

pub bit_or-low : (k q r : ℕ) → r < 2 ^ k → bit_or r (q * 2 ^ k) ≡ q * 2 ^ k + r
bit_or-low k q r h = simp bit_or-bitwise (low_first r r k q (q * 2 ^ k) refl (omega arith) h)

abbrev and_digits : ℕ → ℕ → ℕ → ℕ
and_digits = digits (λ y. 0) min

mod_double : (a m : ℕ) → 0 < m → a % (m * 2) ≡ a / 2 % m * 2 + a % 2
mod_double a m h =
    let lt = mod-lt (a / 2) h in
    let d : a / 2 ≡ a / 2 / m * m + a / 2 % m = omega arith in
    let e : a ≡ a / 2 / m * (m * 2) + (a / 2 % m * 2 + a % 2) = grind (arith, d) in
    ap (λ n. n % (m * 2)) e
    ∙ mul-add-mod_self_right (a / 2 / m) (m * 2) (a / 2 % m * 2 + a % 2)
    ∙ mod-eq_of_lt (omega (arith, lt))

-- A mask of the `k` lowest digits, with enough rounds.
low_mask : (n a k b : ℕ) → b + 1 ≡ 2 ^ k → a ≤ n → and_digits n a b ≡ a % 2 ^ k
low_mask zero a k b e h =
    let z : a ≡ 0 = omega arith in
    let p = one-le-pow k 2 (omega arith) in rw z (omega (arith, mod-eq_of_lt {n = 0} {m = 2 ^ k} p))
low_mask (suc n) zero k b e h =
    let p = one-le-pow k 2 (omega arith) in sym (mod-eq_of_lt {n = 0} {m = 2 ^ k} p)
low_mask (suc n) (suc a) zero b e h =
    ground (arith, low_mask n (suc a / 2) 0 (b / 2) (omega arith) (omega arith))
low_mask (suc n) (suc a) (suc k) b e h =
    let d = pow-suc 2 k in
    let m = mod_double (suc a) (2 ^ k) (one-le-pow k 2 (omega arith)) in
    let m' : suc a % 2 ^ suc k ≡ suc a / 2 % 2 ^ k * 2 + suc a % 2 = ap (λ n. suc a % n) d ∙ m in
    ground (arith, d, m', low_mask n (suc a / 2) k (b / 2) (omega (arith, d)) (omega arith))

even_mask :
    (n a k b : ℕ) → b + 2 ≡ 2 ^ suc k → a % 2 ≡ 0 → a ≤ n → and_digits n a b ≡ a / 2 % 2 ^ k * 2
even_mask zero a k b e z h =
    let o : a ≡ 0 = omega arith in
    let p = one-le-pow k 2 (omega arith) in rw o (omega (arith, mod-eq_of_lt {n = 0} {m = 2 ^ k} p))
even_mask (suc n) zero k b e z h =
    let p = one-le-pow k 2 (omega arith) in omega (arith, mod-eq_of_lt {n = 0} {m = 2 ^ k} p)
even_mask (suc n) (suc a) k b e z h =
    let d = pow-suc 2 k in
    ground (arith, d, low_mask n (suc a / 2) k (b / 2) (omega (arith, d)) (omega arith))

-- A mask of all digits but the lowest, of an even number.
pub bit_and_even : (a k b : ℕ) → b + 2 ≡ 2 ^ suc k → a % 2 ≡ 0 → bit_and a b ≡ a / 2 % 2 ^ k * 2
bit_and_even a k b e z = simp bit_and-bitwise (even_mask a a k b e z (omega arith))

-- An operation on digits does not leave the numbers of `k` digits.
module _ (z : ℕ → ℕ) (f : ℕ → ℕ → ℕ) (hz : (b : ℕ) → z b ≤ b)
    (hf : (a b : ℕ) → a < 2 → b < 2 → f a b < 2) where
  digits-lt : (n k a b : ℕ) → a < 2 ^ k → b < 2 ^ k → digits z f n a b < 2 ^ k
  digits-lt zero k a b p q = omega (arith, hz b)
  digits-lt (suc n) k zero b p q = omega (arith, hz b)
  digits-lt (suc n) zero (suc a) b p q = absurd (omega arith)
  digits-lt (suc n) (suc k) (suc a) b p q =
      let d = pow-suc 2 k in
      omega (
        arith,
        d,
        digits-lt n k (suc a / 2) (b / 2) (omega (arith, d)) (omega (arith, d)),
        hf (suc a % 2) (b % 2) (omega arith) (omega arith),
      )

differ-lt : (a b : ℕ) → a < 2 → b < 2 → differ a b < 2
differ-lt zero b p q = q
differ-lt (suc zero) zero p q = p
differ-lt (suc zero) (suc zero) p q = omega arith
differ-lt (suc zero) (suc (suc b)) p q = absurd (omega arith)
differ-lt (suc (suc a)) b p q = absurd (omega arith)

pub bit_and-lt : (k a b : ℕ) → a < 2 ^ k → b < 2 ^ k → bit_and a b < 2 ^ k
bit_and-lt k a b p q =
    simp bit_and-bitwise
      (digits-lt (λ y. 0) min (λ y. omega arith) (λ x y h g. omega arith) a k a b p q)

pub bit_or-lt : (k a b : ℕ) → a < 2 ^ k → b < 2 ^ k → bit_or a b < 2 ^ k
bit_or-lt k a b p q =
    simp bit_or-bitwise
      (digits-lt (λ y. y) max (λ y. omega arith) (λ x y h g. omega arith) a k a b p q)

pub bit_xor-lt : (k a b : ℕ) → a < 2 ^ k → b < 2 ^ k → bit_xor a b < 2 ^ k
bit_xor-lt k a b p q =
    simp bit_xor-bitwise (digits-lt (λ y. y) differ (λ y. omega arith) differ-lt a k a b p q)
