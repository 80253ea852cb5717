-- ===== src/Boot/Ticks.antt =====
-- The worker of the real time clock, `update_time` of src/ext_dev/RealTimeClock.cpp, without its
-- sleeps: when it asks for an interruption.
use native.Mathlib.Nat.{suc-mul}
use sysdarft.Interrupt.{max_entry}
use sysdarft.Devices.{Clock}
use sysdarft.Base.{
  List, Option, [], ap, arith, if◌then◌else◌, ltb, none, replicate, some, suc, zero, ℕ, ◌&&◌, ◌*◌,
  ◌++◌, ◌+◌, ◌<◌, ◌∙◌, ◌∷◌, ◌≡◌,
}

-- One round of its loop: the count that is left, and the interruption that it asks for.
unfoldable pub tick : Clock → ℕ → ℕ × Option ℕ
tick k zero = (
  k.interruption_scale,
  if ltb 0x1F k.interruption_number && ltb k.interruption_number max_entry
      then some k.interruption_number
      else none,
)
tick k (suc count) = (count, none)

-- The requests of `n` rounds, of a clock that stays as it is.
unfoldable pub ticks : ℕ → Clock → ℕ → List (Option ℕ)
unfolding tick
ticks zero k count = []
ticks (suc n) k count = let (count', asked) = tick k count in asked ∷ ticks n k count'

-- The rounds before a request.
abbrev pub quiet_rounds : ℕ → List (Option ℕ)
quiet_rounds n = replicate n none

wait_lem :
    (n count : ℕ) (k : Clock) → ticks (count + n) k count ≡ quiet_rounds count ++ ticks n k zero
unfolding ticks tick
wait_lem n zero k = let e : 0 + n ≡ n = omega arith in ap (λ m. ticks m k zero) e
wait_lem n (suc count) k =
    let e : suc count + n ≡ suc (count + n) = omega arith in
    ap (λ m. ticks m k (suc count)) e ∙ ap (λ rest. none ∷ rest) (wait_lem n count k)

-- `n` times a request and the rounds before the next one.
abbrev pub periods : ℕ → Clock → List (Option ℕ)
periods zero k = []
periods (suc n) k = (some k.interruption_number ∷ quiet_rounds k.interruption_scale) ++ periods n k

asks :
    (k : Clock)
    → 0x1F < k.interruption_number
    → k.interruption_number < max_entry
    → (tick k zero).1 ≡ some k.interruption_number
unfolding tick
asks k lo hi = ground arith

-- If the clock's number is above 0x1F and below the number of table entries, the worker of the real
-- time clock, with a count left, asks for that interruption in the round after the count has run
-- out, and from then on once in every scale and one rounds.
pub ticks-periodic :
    (n count : ℕ) (k : Clock)
    → 0x1F < k.interruption_number
    → k.interruption_number < max_entry
    → ticks (count + n * (1 + k.interruption_scale)) k count ≡ quiet_rounds count ++ periods n k
unfolding ticks
ticks-periodic n count k lo hi =
    wait_lem (n * (1 + k.interruption_scale)) count k
    ∙ ap (λ rest. quiet_rounds count ++ rest) (go n)
  where
    go : (n : ℕ) → ticks (n * (1 + k.interruption_scale)) k zero ≡ periods n k
    go zero = let e : 0 * (1 + k.interruption_scale) ≡ 0 = omega arith in ap (λ m. ticks m k zero) e
    go (suc n) =
        let s = k.interruption_scale in
        let e : suc n * (1 + s) ≡ suc (s + n * (1 + s)) = omega (arith, suc-mul n (1 + s)) in
        ap (λ m. ticks m k zero) e
        ∙ ap (λ rest. (tick k zero).1 ∷ rest)
            (wait_lem (n * (1 + s)) s k ∙ ap (λ rest. quiet_rounds s ++ rest) (go n))
        ∙ ap (λ asked. asked ∷ (quiet_rounds s ++ periods n k)) (asks k lo hi)
