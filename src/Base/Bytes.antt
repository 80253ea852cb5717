-- ===== src/Base/Bytes.antt =====
-- The bytes of a number, lowest first, as the program's casts between integers and bytes give them.
use Prim.Native.Nat.{ℕ, zero, suc, ◌+◌, ◌*◌, ◌/◌, ◌%◌, ◌^◌, ◌<◌}
use mathlib.Core.Path.{◌≡◌, refl, ap, ap₂}
use mathlib.Core.List.{List, [], ◌∷◌, ◌++◌}
use native.Mathlib.Omega.{arith}
use native.Mathlib.Nat.{pow-suc}
use sysdarft.Base.Lists.{drop, length, overwrite, replicate, slice, splice, take}

abbrev pub le_bytes : ℕ → ℕ → List ℕ
le_bytes zero v = []
le_bytes (suc n) v = v % 256 ∷ le_bytes n (v / 256)

abbrev pub le_value : List ℕ → ℕ
le_value [] = 0
le_value (b ∷ bs) = b + 256 * le_value bs

-- Every element is a byte.
abbrev pub IsBytes : List ℕ → Type 0
IsBytes [] = Unit
IsBytes (b ∷ bs) = (b < 256) × IsBytes bs

pub length-le_bytes : (n v : ℕ) → length (le_bytes n v) ≡ n
length-le_bytes zero v = refl
length-le_bytes (suc n) v = ap suc (length-le_bytes n (v / 256))

pub le_bytes-IsBytes : (n v : ℕ) → IsBytes (le_bytes n v)
le_bytes-IsBytes zero v = tt
le_bytes-IsBytes (suc n) v = (omega arith, le_bytes-IsBytes n (v / 256))

pub IsBytes-append : (xs ys : List ℕ) → IsBytes xs → IsBytes ys → IsBytes (xs ++ ys)
IsBytes-append [] ys h k = k
IsBytes-append (x ∷ xs) ys h k = (h.0, IsBytes-append xs ys h.1 k)

-- A number that fits `n` bytes comes back from them.
pub le_value-le_bytes : (n v : ℕ) → v < 256 ^ n → le_value (le_bytes n v) ≡ v
le_value-le_bytes zero v h = omega arith
le_value-le_bytes (suc n) v h =
    omega (arith, pow-suc 256 n, le_value-le_bytes n (v / 256) (omega (arith, pow-suc 256 n)))

-- Bytes come back from the number that they spell.
pub le_bytes-le_value : (bs : List ℕ) → IsBytes bs → le_bytes (length bs) (le_value bs) ≡ bs
le_bytes-le_value [] h = refl
le_bytes-le_value (b ∷ bs) h = ap₂ ◌∷◌ (omega arith) (
    let e : (b + 256 * le_value bs) / 256 ≡ le_value bs = omega arith in
    rw e (le_bytes-le_value bs h.1))

pub le_value-lt : (bs : List ℕ) → IsBytes bs → le_value bs < 256 ^ length bs
le_value-lt [] h = omega arith
le_value-lt (b ∷ bs) h = omega (arith, pow-suc 256 (length bs), le_value-lt bs h.1)

pub take-IsBytes : (n : ℕ) (xs : List ℕ) → IsBytes xs → IsBytes (take n xs)
take-IsBytes zero xs h = tt
take-IsBytes (suc n) [] h = tt
take-IsBytes (suc n) (x ∷ xs) h = (h.0, take-IsBytes n xs h.1)

pub drop-IsBytes : (n : ℕ) (xs : List ℕ) → IsBytes xs → IsBytes (drop n xs)
drop-IsBytes zero xs h = h
drop-IsBytes (suc n) [] h = tt
drop-IsBytes (suc n) (x ∷ xs) h = drop-IsBytes n xs h.1

pub slice-IsBytes : (a n : ℕ) (xs : List ℕ) → IsBytes xs → IsBytes (slice a n xs)
slice-IsBytes a n xs h = take-IsBytes n (drop a xs) (drop-IsBytes a xs h)

overwrite-IsBytes : (bs xs : List ℕ) → IsBytes bs → IsBytes xs → IsBytes (overwrite bs xs)
overwrite-IsBytes [] xs h k = k
overwrite-IsBytes (b ∷ bs) [] h k = tt
overwrite-IsBytes (b ∷ bs) (x ∷ xs) h k = (h.0, overwrite-IsBytes bs xs h.1 k.1)

pub splice-IsBytes : (a : ℕ) (bs xs : List ℕ) → IsBytes bs → IsBytes xs → IsBytes (splice a bs xs)
splice-IsBytes zero bs xs h k = overwrite-IsBytes bs xs h k
splice-IsBytes (suc a) bs [] h k = tt
splice-IsBytes (suc a) bs (x ∷ xs) h k = (k.0, splice-IsBytes a bs xs h k.1)

pub replicate-IsBytes : (n v : ℕ) → v < 256 → IsBytes (replicate n v)
replicate-IsBytes zero v h = tt
replicate-IsBytes (suc n) v h = (h, replicate-IsBytes n v h)
