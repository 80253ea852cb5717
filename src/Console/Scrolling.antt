-- ===== src/Console/Scrolling.antt =====
-- Scrolling: the loop over the rows against the whole screen moved at once.
use sysdarft.Base.{
  List, ap, ap₂, arith, length, length-slice, length-splice, replicate, slice, slice-add,
  slice-splice_after, splice, splice-append, splice-nil, suc, sym, zero, ℕ, ◌*◌, ◌++◌, ◌+◌, ◌∙◌,
  ◌≡◌, ◌≤◌,
}
use sysdarft.Console.{scroll, scroll_rows}

-- After `k` rounds from row `i` on, the rows from `i` to `i + k` are those one below them.
scroll_rows_lem :
    (k i : ℕ) (video : List ℕ)
    → (i + k + 1) * 80 ≤ length video
    → scroll_rows k i video ≡ splice (i * 80) (slice ((i + 1) * 80) (k * 80) video) video
unfolding scroll_rows
scroll_rows_lem zero i video h =
    sym
      (ap (λ n. splice (i * 80) (slice ((i + 1) * 80) n video) video) z ∙ splice-nil (i * 80) video)
  where
    z : 0 * 80 ≡ 0
    z = omega arith
scroll_rows_lem (suc k) i video h =
    let s1 = slice ((i + 1) * 80) 80 video in
    let k1 : length s1 ≡ 80 = length-slice ((i + 1) * 80) 80 video (omega arith) in
    let v1 = splice (i * 80) s1 video in
    let ih = scroll_rows_lem k (i + 1) v1 (omega (arith, length-splice (i * 80) s1 video)) in
    let same : slice ((i + 1 + 1) * 80) (k * 80) v1 ≡ slice ((i + 1 + 1) * 80) (k * 80) video =
      slice-splice_after ((i + 1 + 1) * 80) (k * 80) (i * 80) s1 video (omega (arith, k1)) in
    let n1 : suc k * 80 ≡ 80 + k * 80 = omega arith in
    let n2 : (i + 1) * 80 + 80 ≡ (i + 1 + 1) * 80 = omega arith in
    let n3 : (i + 1) * 80 ≡ i * 80 + length s1 = omega (arith, k1) in
    ih
    ∙ ap₂ (λ (a : ℕ) bs. splice a bs v1) n3 same
    ∙ sym (splice-append (i * 80) s1 (slice ((i + 1 + 1) * 80) (k * 80) video) video)
    ∙ ap (λ bs. splice (i * 80) bs video)
        (sym (
          ap (λ n. slice ((i + 1) * 80) n video) n1
          ∙ slice-add ((i + 1) * 80) 80 (k * 80) video
          ∙ ap (λ (n : ℕ). s1 ++ slice n (k * 80) video) n2))

-- On a screen of 25 rows of 80 characters, the loop over the rows and the clearing of the last row
-- move the whole screen up by one row: rows 1 to 24 are now rows 0 to 23, the last row is blank,
-- and the bytes of the block behind the screen stay.
pub scroll_lem :
    (video : List ℕ)
    → 2000 ≤ length video
    → scroll video ≡ splice 0 (slice 80 1920 video ++ replicate 80 b' ') video
unfolding scroll
scroll_lem video h =
    let k : length (slice 80 1920 video) ≡ 1920 = length-slice 80 1920 video (omega arith) in
    let n1920 : 1920 ≡ 0 + length (slice 80 1920 video) = omega (arith, k) in
    ap (splice 1920 (replicate 80 b' ')) (scroll_rows_lem 24 0 video (omega arith))
    ∙ ap (λ n. splice n (replicate 80 b' ') (splice 0 (slice 80 1920 video) video)) n1920
    ∙ sym (splice-append 0 (slice 80 1920 video) (replicate 80 b' ') video)
