-- ===== src/Memory/Flat.antt =====
-- The memory as one array of `TotalMemory` bytes: what `read_memory` and `write_memory` promise.
use sysdarft.Base.{
  ℕ, zero, suc, ◌+◌, ◌-◌, ◌*◌, ◌/◌, ◌%◌, ◌^◌, ◌≤◌, ◌<◌, ◌≡◌, refl, sym, ap, none, some, List, [],
  ◌++◌, arith, length, ltb, leb, if◌then◌else◌, slice, get_or, slice-add, ltb_of_lt, ltb_of_le, inl,
  inr, Bool-cases,
}
use sysdarft.Memory.{Memory, block_size, block_at, out_of_bounds, read_pages, read_memory}
use sysdarft.Memory.Blocks.{flat, IsUniform, length-flat, slice-flat}

-- All bytes in order.
abbrev pub contents : Memory → List ℕ
contents m = flat m.blocks

-- The blocks make up exactly the total, which leaves room for an address and a size to be added.
pub record IsWellFormed (m : Memory) : Type 0 where
  pub aligned : m.total ≡ length m.blocks * block_size
  pub uniform : IsUniform block_size m.blocks
  pub small : m.total ≤ 2 ^ 63

pub length-contents : (m : Memory) → IsWellFormed m → length (contents m) ≡ m.total
length-contents m w = omega (arith, length-flat block_size m.blocks w.uniform, w.aligned)

-- The range check is the comparison with the total, with no wrap.
pub out_of_bounds_lem :
    (m : Memory) (a n : ℕ) → IsWellFormed m → n < 2 ^ 63 → out_of_bounds m a n ≡ ltb m.total (a + n)
unfolding out_of_bounds
out_of_bounds_lem m a n w h = ground (arith, w.small)

read_pages-eq-slice :
    (bl : List (List ℕ)) (page i k : ℕ)
    → IsUniform block_size bl
    → page + i + k ≤ length bl
    → read_pages bl page i k ≡ slice ((page + i) * block_size) (k * block_size) (flat bl)
unfolding read_pages
read_pages-eq-slice bl page i zero u h = refl
read_pages-eq-slice bl page i (suc k) u h =
    let e : suc k * block_size ≡ block_size + k * block_size = omega arith in
    let p : (page + i) * block_size + block_size ≡ (page + (i + 1)) * block_size = omega arith in
    let z : (page + i) * block_size + 0 ≡ (page + i) * block_size = omega arith in
    let s : slice ((page + i) * block_size + 0) block_size (flat bl)
        ≡ slice 0 block_size (get_or bl (page + i) []) =
      slice-flat block_size bl (page + i) 0 block_size (omega arith) (omega arith) u in
    rw (e, slice-add, p, read_pages-eq-slice bl page (i + 1) k u (omega arith), ← s, z) refl

-- The last, partial block.
read_last :
    (bl : List (List ℕ)) (q last : ℕ)
    → IsUniform block_size bl
    → last < block_size
    → q * block_size + last ≤ length bl * block_size
    → (if ltb 0 last then slice 0 last (block_at bl q) else [])
      ≡ slice (q * block_size) last (flat bl)
read_last bl q zero u l h = refl
read_last bl q (suc last) u l h =
    let z : q * block_size + 0 ≡ q * block_size = omega arith in
    let s : slice (q * block_size + 0) (suc last) (flat bl) ≡ slice 0 (suc last) (get_or bl q []) =
      slice-flat block_size bl q 0 (suc last) (omega arith) (omega arith) u in
    rw (ltb_of_lt 0 (suc last) (omega arith)) (sym (rw z at s))

-- The three parts of a read that crosses a block's end.
read_crossing :
    (bl : List (List ℕ)) (page o full last : ℕ)
    → IsUniform block_size bl
    → o < block_size
    → last < block_size
    → (page + 1 + full) * block_size + last ≤ length bl * block_size
    → slice o (block_size - o) (block_at bl page)
        ++ (read_pages bl page 1 full
            ++ (if ltb 0 last then slice 0 last (block_at bl (page + full + 1)) else []))
      ≡ slice (page * block_size + o) (block_size - o + (full * block_size + last)) (flat bl)
read_crossing bl page o full last u ho hl h =
    let s : slice (page * block_size + o) (block_size - o) (flat bl)
        ≡ slice o (block_size - o) (get_or bl page []) =
      slice-flat block_size bl page o (block_size - o) (omega arith) (omega arith) u in
    let p : page * block_size + o + (block_size - o) ≡ (page + 1) * block_size = omega arith in
    let q : (page + 1) * block_size + full * block_size ≡ (page + full + 1) * block_size =
      omega arith in
    rw (
      read_pages-eq-slice bl page 1 full u (omega arith),
      read_last bl (page + full + 1) last u hl (omega arith),
      ← s,
      slice-add (page * block_size + o) (block_size - o) (full * block_size + last) (flat bl),
      p,
      slice-add ((page + 1) * block_size) (full * block_size) last (flat bl),
      q,
    )

-- A read inside one block.
read_block :
    (bl : List (List ℕ)) (a n : ℕ)
    → IsUniform block_size bl
    → a + n ≤ length bl * block_size
    → a % block_size + n ≤ block_size
    → slice (a % block_size) n (block_at bl (a / block_size)) ≡ slice a n (flat bl)
read_block bl a zero u h k = refl
read_block bl a (suc n) u h k =
    let e : a / block_size * block_size + a % block_size ≡ a = omega arith in
    let s : slice (a / block_size * block_size + a % block_size) (suc n) (flat bl)
        ≡ slice (a % block_size) (suc n) (get_or bl (a / block_size) []) =
      slice-flat block_size bl (a / block_size) (a % block_size) (suc n) (omega arith) k u in
    sym (rw e at s)

pub read_in_range :
    (m : Memory) (a n : ℕ)
    → IsWellFormed m
    → n < 2 ^ 63
    → a + n ≤ m.total
    → read_memory m a n ≡ some (slice a n (contents m))
unfolding read_memory
read_in_range m a n w h r = elim (Bool-cases (leb n (block_size - a % block_size))) [
  | inl fits ↦ rw (
    out_of_bounds_lem m a n w h,
    ltb_of_le m.total (a + n) r,
    fits,
    read_block m.blocks a n w.uniform (omega (arith, w.aligned)) (ground arith),
  )
  | inr crosses ↦
      let first = block_size - a % block_size in
      let full = (n - first) / block_size in
      let last = (n - first) % block_size in
      let c : first < n = ground arith in
      let e : a / block_size * block_size + a % block_size ≡ a = omega arith in
      let f : first + (full * block_size + last) ≡ n = omega arith in
      let p =
        read_crossing m.blocks (a / block_size) (a % block_size) full last w.uniform (omega arith)
          (omega arith) (omega (arith, w.aligned)) in
      rw (out_of_bounds_lem m a n w h, ltb_of_le m.total (a + n) r, crosses)
        (ap some (rw (e, f) at p))
]

-- In a well-formed memory, and for a size below 2 ^ 63, a read over the paged blocks is the slice
-- of the flat contents, and it fails exactly if the range ends past the total.
pub read_memory-eq-slice :
    (m : Memory) (a n : ℕ)
    → IsWellFormed m
    → n < 2 ^ 63
    → read_memory m a n ≡ (if ltb m.total (a + n) then none else some (slice a n (contents m)))
read_memory-eq-slice m a n w h = elim (Bool-cases (ltb m.total (a + n))) [
  | inl out ↦ rw out (unfold read_memory in rw (out_of_bounds_lem m a n w h, out))
  | inr within ↦ rw within (read_in_range m a n w h (ground arith))
]
