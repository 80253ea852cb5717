-- ===== src/Base/Splice.antt =====
-- A range read after a range was written.
use Prim.Native.Nat.{ℕ, zero, suc, ◌+◌, ◌≤◌}
use mathlib.Core.Path.{◌≡◌, refl, sym, ap}
use mathlib.Core.List.{List, [], ◌∷◌, ◌++◌}
use native.Mathlib.Omega.{arith}
use sysdarft.Base.Lists.{
  drop, drop-add, drop-append_le, length, length-drop, length-take, overwrite, slice, splice, take,
  take-add, take-append-drop, take-append_le,
}

module _ {ℓ} {A : Type ℓ} where
  take-overwrite :
      (bs xs : List A) → length bs ≤ length xs → take (length bs) (overwrite bs xs) ≡ bs
  take-overwrite [] xs h = refl
  take-overwrite (b ∷ bs) [] h = elim h [ ]
  take-overwrite (b ∷ bs) (x ∷ xs) h = ap (λ l. b ∷ l) (take-overwrite bs xs (omega arith))

  pub slice-splice_self :
      (a : ℕ) (bs xs : List A)
      → a + length bs ≤ length xs
      → slice a (length bs) (splice a bs xs) ≡ bs
  slice-splice_self zero bs xs h = take-overwrite bs xs (omega arith)
  slice-splice_self (suc a) bs [] h = absurd (omega arith)
  slice-splice_self (suc a) bs (x ∷ xs) h = slice-splice_self a bs xs (omega arith)

  -- A range that ends before the written one.
  pub slice-splice_before :
      (b n a : ℕ) (bs xs : List A) → b + n ≤ a → slice b n (splice a bs xs) ≡ slice b n xs
  slice-splice_before zero zero a bs xs h = refl
  slice-splice_before zero (suc n) zero bs xs h = absurd (omega arith)
  slice-splice_before zero (suc n) (suc a) bs [] h = refl
  slice-splice_before zero (suc n) (suc a) bs (x ∷ xs) h =
      ap (λ l. x ∷ l) (slice-splice_before zero n a bs xs (omega arith))
  slice-splice_before (suc b) n zero bs xs h = absurd (omega arith)
  slice-splice_before (suc b) n (suc a) bs [] h = refl
  slice-splice_before (suc b) n (suc a) bs (x ∷ xs) h =
      slice-splice_before b n a bs xs (omega arith)

  drop-overwrite : (b : ℕ) (bs xs : List A) → length bs ≤ b → drop b (overwrite bs xs) ≡ drop b xs
  drop-overwrite b [] xs h = refl
  drop-overwrite zero (c ∷ bs) xs h = elim h [ ]
  drop-overwrite (suc b) (c ∷ bs) [] h = refl
  drop-overwrite (suc b) (c ∷ bs) (x ∷ xs) h = drop-overwrite b bs xs (omega arith)

  drop-splice : (b a : ℕ) (bs xs : List A) → a + length bs ≤ b → drop b (splice a bs xs) ≡ drop b xs
  drop-splice b zero bs xs h = drop-overwrite b bs xs (omega arith)
  drop-splice b (suc a) bs [] h = refl
  drop-splice zero (suc a) bs (x ∷ xs) h = absurd (omega arith)
  drop-splice (suc b) (suc a) bs (x ∷ xs) h = drop-splice b a bs xs (omega arith)

  -- A range that begins after the written one.
  pub slice-splice_after :
      (b n a : ℕ) (bs xs : List A) → a + length bs ≤ b → slice b n (splice a bs xs) ≡ slice b n xs
  slice-splice_after b n a bs xs h = ap (take n) (drop-splice b a bs xs h)

  overwrite-append :
      (bs cs xs : List A) → overwrite (bs ++ cs) xs ≡ splice (length bs) cs (overwrite bs xs)
  overwrite-append [] cs xs = refl
  overwrite-append (b ∷ bs) cs [] = refl
  overwrite-append (b ∷ bs) cs (x ∷ xs) = ap (λ l. b ∷ l) (overwrite-append bs cs xs)

  pub splice-nil : (a : ℕ) (xs : List A) → splice a [] xs ≡ xs
  splice-nil zero xs = refl
  splice-nil (suc a) [] = refl
  splice-nil (suc a) (x ∷ xs) = ap (λ l. x ∷ l) (splice-nil a xs)

  pub overwrite_all : (bs xs : List A) → length bs ≡ length xs → overwrite bs xs ≡ bs
  overwrite_all [] [] h = refl
  overwrite_all [] (x ∷ xs) h = absurd (omega arith)
  overwrite_all (b ∷ bs) [] h = absurd (omega arith)
  overwrite_all (b ∷ bs) (x ∷ xs) h = ap (λ l. b ∷ l) (overwrite_all bs xs (omega arith))

  -- A write in two parts.
  pub splice-append :
      (a : ℕ) (bs cs xs : List A)
      → splice a (bs ++ cs) xs ≡ splice (a + length bs) cs (splice a bs xs)
  splice-append zero bs cs xs =
      let e : 0 + length bs ≡ length bs = omega arith in rw e (overwrite-append bs cs xs)
  splice-append (suc a) bs cs [] =
      let e : suc a + length bs ≡ suc (a + length bs) = omega arith in rw e refl
  splice-append (suc a) bs cs (x ∷ xs) =
      let e : suc a + length bs ≡ suc (a + length bs) = omega arith in
      rw e (ap (λ l. x ∷ l) (splice-append a bs cs xs))

  overwrite-append_left :
      (bs xs ys : List A) → length bs ≤ length xs → overwrite bs (xs ++ ys) ≡ overwrite bs xs ++ ys
  overwrite-append_left [] xs ys h = refl
  overwrite-append_left (b ∷ bs) [] ys h = elim h [ ]
  overwrite-append_left (b ∷ bs) (x ∷ xs) ys h =
      ap (λ l. b ∷ l) (overwrite-append_left bs xs ys (omega arith))

  -- A write into the left part of an append.
  pub splice-append_left :
      (a : ℕ) (bs xs ys : List A)
      → a + length bs ≤ length xs
      → splice a bs (xs ++ ys) ≡ splice a bs xs ++ ys
  splice-append_left zero bs xs ys h = overwrite-append_left bs xs ys (omega arith)
  splice-append_left (suc a) bs [] ys h = absurd (omega arith)
  splice-append_left (suc a) bs (x ∷ xs) ys h =
      ap (λ l. x ∷ l) (splice-append_left a bs xs ys (omega arith))

  -- A write into the right part of an append.
  pub splice-append_right :
      (a : ℕ) (bs xs ys : List A) → splice (length xs + a) bs (xs ++ ys) ≡ xs ++ splice a bs ys
  splice-append_right a bs [] ys = ap (λ k. splice k bs ys) (omega arith)
  splice-append_right a bs (x ∷ xs) ys =
      let e : suc (length xs) + a ≡ suc (length xs + a) = omega arith in
      rw e (ap (λ l. x ∷ l) (splice-append_right a bs xs ys))

  -- A range read in two parts.
  pub slice-add :
      (a m n : ℕ) (xs : List A) → slice a (m + n) xs ≡ slice a m xs ++ slice (a + m) n xs
  slice-add a m n xs = rw (take-add, drop-add)

  -- A range of a range's left part of an append.
  pub slice-append_left :
      (a n : ℕ) (xs ys : List A) → a + n ≤ length xs → slice a n (xs ++ ys) ≡ slice a n xs
  slice-append_left a n xs ys h =
      rw (drop-append_le a xs ys (omega arith))
        (take-append_le n (drop a xs) ys (omega (arith, length-drop a xs)))

  pub slice-append_right :
      (a n : ℕ) (xs ys : List A) → slice (length xs + a) n (xs ++ ys) ≡ slice a n ys
  slice-append_right a n [] ys = ap (λ k. slice k n ys) (omega arith)
  slice-append_right a n (x ∷ xs) ys =
      let e : suc (length xs) + a ≡ suc (length xs + a) = omega arith in
      rw e (slice-append_right a n xs ys)

  -- The halves of a written list, one after the other.
  pub splice-take-drop :
      (a n : ℕ) (bs xs : List A)
      → n ≤ length bs
      → splice (a + n) (drop n bs) (splice a (take n bs) xs) ≡ splice a bs xs
  splice-take-drop a n bs xs h =
      let e : length (take n bs) ≡ n = length-take n bs h in
      let s : splice a (take n bs ++ drop n bs) xs
          ≡ splice (a + length (take n bs)) (drop n bs) (splice a (take n bs) xs) =
        splice-append a (take n bs) (drop n bs) xs in
      let t : take n bs ++ drop n bs ≡ bs = take-append-drop n bs in sym (rw (t, e) at s)
