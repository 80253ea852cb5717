-- ===== src/Memory/Blocks.antt =====
-- A list of blocks of one size, read as the one list that they make up.
use native.Mathlib.Nat.{suc-mul}
use sysdarft.Base.{
  List, [], ap, arith, get_or, length, length-append, replicate, set, slice, slice-append_left,
  slice-append_right, splice, splice-append_left, splice-append_right, suc, zero, ℕ, ◌*◌, ◌++◌, ◌+◌,
  ◌<◌, ◌∙◌, ◌∷◌, ◌≡◌, ◌≤◌,
}

abbrev pub flat : List (List ℕ) → List ℕ
flat [] = []
flat (b ∷ bs) = b ++ flat bs

-- Every block holds `size` bytes.
abbrev pub IsUniform : ℕ → List (List ℕ) → Type 0
IsUniform size [] = Unit
IsUniform size (b ∷ bs) = (length b ≡ size) × IsUniform size bs

pub length-flat :
    (size : ℕ) (bl : List (List ℕ)) → IsUniform size bl → length (flat bl) ≡ length bl * size
length-flat size [] u = omega arith
length-flat size (b ∷ bs) u = omega (arith, length-append b (flat bs), length-flat size bs u.1, u.0)

pub replicate-IsUniform :
    (size n : ℕ) (b : List ℕ) → length b ≡ size → IsUniform size (replicate n b)
replicate-IsUniform size zero b h = tt
replicate-IsUniform size (suc n) b h = (h, replicate-IsUniform size n b h)

pub set-IsUniform :
    (size : ℕ) (bl : List (List ℕ)) (i : ℕ) (b : List ℕ)
    → length b ≡ size
    → IsUniform size bl
    → IsUniform size (set bl i b)
set-IsUniform size [] i b h u = tt
set-IsUniform size (c ∷ bl) zero b h u = (h, u.1)
set-IsUniform size (c ∷ bl) (suc i) b h u = (u.0, set-IsUniform size bl i b h u.1)

pub length-get_or_block :
    (size : ℕ) (bl : List (List ℕ)) (i : ℕ)
    → i < length bl
    → IsUniform size bl
    → length (get_or bl i []) ≡ size
length-get_or_block size [] i h u = elim h [ ]
length-get_or_block size (b ∷ bl) zero h u = u.0
length-get_or_block size (b ∷ bl) (suc i) h u = length-get_or_block size bl i (omega arith) u.1

-- A range inside one block is that range of the whole.
pub slice-flat :
    (size : ℕ) (bl : List (List ℕ)) (i o n : ℕ)
    → i < length bl
    → o + n ≤ size
    → IsUniform size bl
    → slice (i * size + o) n (flat bl) ≡ slice o n (get_or bl i [])
slice-flat size [] i o n h k u = elim h [ ]
slice-flat size (b ∷ bl) zero o n h k u =
    let e : 0 * size + o ≡ o = omega arith in
    rw e (slice-append_left o n b (flat bl) (omega (arith, u.0)))
slice-flat size (b ∷ bl) (suc i) o n h k u =
    let e : suc i * size + o ≡ length b + (i * size + o) = omega (arith, u.0) in
    rw (e, slice-append_right) (slice-flat size bl i o n (omega arith) k u.1)

-- A write inside one block is that write to the whole.
pub flat-set :
    (size : ℕ) (bl : List (List ℕ)) (i o : ℕ) (src : List ℕ)
    → i < length bl
    → o + length src ≤ size
    → IsUniform size bl
    → flat (set bl i (splice o src (get_or bl i []))) ≡ splice (i * size + o) src (flat bl)
flat-set size [] i o src h k u = elim h [ ]
flat-set size (b ∷ bl) zero o src h k u =
    let e : 0 * size + o ≡ o = omega arith in
    rw (e, splice-append_left o src b (flat bl) (omega (arith, u.0)))
flat-set size (b ∷ bl) (suc i) o src h k u =
    let e : suc i * size + o ≡ length b + (i * size + o) = omega (arith, u.0) in
    rw (e, splice-append_right) (ap (λ l. b ++ l) (flat-set size bl i o src (omega arith) k u.1))

append-replicate : (m n v : ℕ) → replicate m v ++ replicate n v ≡ replicate (m + n) v
append-replicate zero n v = let e : n ≡ 0 + n = omega arith in ap (λ k. replicate k v) e
append-replicate (suc m) n v =
    let e : suc (m + n) ≡ suc m + n = omega arith in
    ap (λ l. v ∷ l) (append-replicate m n v) ∙ ap (λ k. replicate k v) e

pub flat-replicate : (size n v : ℕ) → flat (replicate n (replicate size v)) ≡ replicate (n * size) v
flat-replicate size zero v = let e : 0 ≡ 0 * size = omega arith in ap (λ m. replicate m v) e
flat-replicate size (suc n) v =
    let e : size + n * size ≡ suc n * size = omega (arith, suc-mul n size) in
    ap (λ l. replicate size v ++ l) (flat-replicate size n v)
    ∙ append-replicate size (n * size) v
    ∙ ap (λ m. replicate m v) e
