-- ===== src/Memory/Laws.antt =====
-- Reads after writes, and the memory that the constructor makes.
use sysdarft.Memory.Invariant.{AreBytes, replicate-AreBytes}
use sysdarft.Base.{
  Bool-cases, List, ap, arith, false, inl, inr, length, length-replicate, none_ne_some, refl,
  replicate, replicate-IsBytes, slice-splice_after, slice-splice_before, slice-splice_self, some,
  some_inj, subst, sym, ℕ, ◌%◌, ◌*◌, ◌+◌, ◌-◌, ◌/◌, ◌<◌, ◌==◌, ◌^◌, ◌∙◌, ◌≡◌, ◌≢◌, ◌≤◌, ◌⊎◌,
}
use sysdarft.Memory.{Memory, block_size, init, out_of_bounds, read_memory, write_memory, zero_block}
use sysdarft.Memory.Blocks.{flat-replicate, replicate-IsUniform}
use sysdarft.Memory.Flat.{
  IsWellFormed, contents, length-contents, read_in_range, read_memory-eq-slice,
}
use sysdarft.Memory.Write.{write_memory-IsWritten}

module _ (m : Memory) (a : ℕ) (src : List ℕ) {m' : Memory} (w : IsWellFormed m)
    (s : length src < 2 ^ 63) (e : write_memory m a src ≡ some m') where
  -- After a write of fewer than 2 ^ 63 bytes that succeeded in a well-formed memory, the same range
  -- reads back as what was written.
  pub read-write_self : read_memory m' a (length src) ≡ some src
  read-write_self =
      let (h, p) = write_memory-IsWritten m a src w s e in
      rw (
        read_in_range m' a (length src) p.well_formed s (omega (arith, p.same_total)),
        p.bytes,
        slice-splice_self a src (contents m) (omega (arith, length-contents m w)),
      )

  -- After a write of fewer than 2 ^ 63 bytes that succeeded in a well-formed memory, a range of
  -- fewer than 2 ^ 63 bytes apart from the one written reads as before, and fails as before.
  pub read-write_apart :
      (b n : ℕ)
      → n < 2 ^ 63
      → (b + n ≤ a) ⊎ (a + length src ≤ b)
      → read_memory m' b n ≡ read_memory m b n
  read-write_apart b n k apart =
      let (h, p) = write_memory-IsWritten m a src w s e in
      rw
        (
          read_memory-eq-slice m' b n p.well_formed k,
          read_memory-eq-slice m b n w k,
          p.same_total,
          p.bytes,
        )
        (elim apart [
          | inl before ↦ rw (slice-splice_before b n a src (contents m) before)
          | inr after ↦ rw (slice-splice_after b n a src (contents m) after)
        ])

abbrev fresh : ℕ → Memory
fresh total = record { total = total; blocks = replicate (total / block_size) zero_block }

init-eq-fresh : (total : ℕ) {m : Memory} → init total ≡ some m → m ≡ fresh total
unfolding init
init-eq-fresh total e = elim (Bool-cases (total == 0)) [
  | inl z ↦ absurd (none_ne_some (rw z at e))
  | inr p ↦ sym (some_inj (rw p at e))
]

-- The memory that the constructor makes is well formed and of the size asked for, if the total is
-- whole blocks and at most 2 ^ 63.
pub init-IsWellFormed :
    (total : ℕ) {m : Memory}
    → total % block_size ≡ 0
    → total ≤ 2 ^ 63
    → init total ≡ some m
    → IsWellFormed m × (m.total ≡ total)
init-IsWellFormed total {m} h k e =
    subst (λ n. IsWellFormed n × (n.total ≡ total)) (sym (init-eq-fresh total e))
      (
        record {
          aligned = omega (arith, length-replicate (total / block_size) zero_block);
          uniform =
              replicate-IsUniform block_size (total / block_size) zero_block
                (length-replicate {A = ℕ} block_size 0);
          small = k;
        },
        refl,
      )

-- It holds zeros.
pub contents-init :
    (total : ℕ) {m : Memory}
    → total % block_size ≡ 0
    → init total ≡ some m
    → contents m ≡ replicate total 0
contents-init total h e =
    let k : total / block_size * block_size ≡ total = omega arith in
    ap contents (init-eq-fresh total e)
    ∙ flat-replicate block_size (total / block_size) 0
    ∙ ap (λ n. replicate n 0) k

pub init-AreBytes : (total : ℕ) {m : Memory} → init total ≡ some m → AreBytes m.blocks
init-AreBytes total {m} e =
    subst (λ n. AreBytes n.blocks) (sym (init-eq-fresh total e))
      (replicate-AreBytes (total / block_size) zero_block
        (replicate-IsBytes block_size 0 (omega arith)))

-- With a total that is not whole blocks and at most 2 ^ 63, the address of the last byte passes the
-- range check, and no block holds that byte.
pub init_ragged :
    (total : ℕ) {m : Memory}
    → total % block_size ≢ 0
    → total ≤ 2 ^ 63
    → init total ≡ some m
    → (out_of_bounds m (total - 1) 1 ≡ false) × (length m.blocks ≤ (total - 1) / block_size)
unfolding out_of_bounds
init_ragged total {m} h k e =
    subst
      (λ n. (out_of_bounds n (total - 1) 1 ≡ false) × (length n.blocks ≤ (total - 1) / block_size))
      (sym (init-eq-fresh total e))
      (ground arith, omega (arith, length-replicate (total / block_size) zero_block))
