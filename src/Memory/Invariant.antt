-- ===== src/Memory/Invariant.antt =====
-- What reads and writes of any range keep, in range or not.
use sysdarft.Base.{
  Bool, Bool-cases, IsBytes, IsBytes-append, List, Option, Option-cases, [], arith, drop,
  drop-IsBytes, false, if◌then◌else◌, inl, inr, leb, length, length-set, length-slice,
  length-splice, ltb, none, none_ne_some, refl, replicate, set, slice, slice-IsBytes, some,
  some_inj, splice, splice-IsBytes, subst, suc, sym, take, take-IsBytes, true, zero, ℕ, ◌%◌, ◌*◌,
  ◌+◌, ◌-◌, ◌/◌, ◌<◌, ◌>>=◌, ◌^◌, ◌∙◌, ◌∷◌, ◌≡◌,
}
use sysdarft.Memory.{
  Memory, block_at, block_size, copy_n, out_of_bounds, read_memory, write_blocks, write_memory,
  write_pages,
}
use sysdarft.Memory.Blocks.{IsUniform, flat}
use sysdarft.Memory.Flat.{IsWellFormed, contents, length-contents, read_memory-eq-slice}

-- Every block holds bytes.
abbrev pub AreBytes : List (List ℕ) → Type 0
AreBytes [] = Unit
AreBytes (b ∷ bl) = IsBytes b × AreBytes bl

pub flat-IsBytes : (bl : List (List ℕ)) → AreBytes bl → IsBytes (flat bl)
flat-IsBytes [] h = tt
flat-IsBytes (b ∷ bl) h = IsBytes-append b (flat bl) h.0 (flat-IsBytes bl h.1)

pub replicate-AreBytes : (n : ℕ) (b : List ℕ) → IsBytes b → AreBytes (replicate n b)
replicate-AreBytes zero b h = tt
replicate-AreBytes (suc n) b h = (h, replicate-AreBytes n b h)

-- The blocks afterwards are of the same number and size, and hold bytes.
pub record IsKept (bl bl' : List (List ℕ)) : Type 0 where
  pub same_count : length bl' ≡ length bl
  pub uniform : IsUniform block_size bl'
  pub bytes : AreBytes bl'

-- A change of one block that keeps its length.
module _ (f : List ℕ → List ℕ) (l : (b : List ℕ) → length (f b) ≡ length b)
    (p : (b : List ℕ) → IsBytes b → IsBytes (f b)) where
  pub update-IsUniform :
      (bl : List (List ℕ)) (i : ℕ)
      → IsUniform block_size bl
      → IsUniform block_size (set bl i (f (block_at bl i)))
  update-IsUniform [] i u = tt
  update-IsUniform (b ∷ bl) zero u = (l b ∙ u.0, u.1)
  update-IsUniform (b ∷ bl) (suc i) u = (u.0, update-IsUniform bl i u.1)

  pub update-AreBytes :
      (bl : List (List ℕ)) (i : ℕ) → AreBytes bl → AreBytes (set bl i (f (block_at bl i)))
  update-AreBytes [] i h = tt
  update-AreBytes (b ∷ bl) zero h = (p b h.0, h.1)
  update-AreBytes (b ∷ bl) (suc i) h = (h.0, update-AreBytes bl i h.1)

  pub update-IsKept :
      (bl : List (List ℕ)) (i : ℕ)
      → IsUniform block_size bl
      → AreBytes bl
      → IsKept bl (set bl i (f (block_at bl i)))
  update-IsKept bl i u h = record {
    same_count = length-set bl i (f (block_at bl i));
    uniform = update-IsUniform bl i u;
    bytes = update-AreBytes bl i h;
  }

-- The result of a write, if there is one.
data KeepsBlocks (bl : List (List ℕ)) : Option (List (List ℕ)) → Type 0 where
  failed : KeepsBlocks bl none
  kept : {bl' : List (List ℕ)} → IsKept bl bl' → KeepsBlocks bl (some bl')

IsKept-trans : {bl bl' bl'' : List (List ℕ)} → IsKept bl bl' → IsKept bl' bl'' → IsKept bl bl''
IsKept-trans h k = record {
  same_count = k.same_count ∙ h.same_count;
  uniform = k.uniform;
  bytes = k.bytes;
}

after_keep :
    {bl bl' : List (List ℕ)} {o : Option (List (List ℕ))}
    → IsKept bl bl'
    → KeepsBlocks bl' o
    → KeepsBlocks bl o
after_keep h failed = failed
after_keep h (kept k) = kept (IsKept-trans h k)

KeepsBlocks-bind :
    {bl : List (List ℕ)} {o : Option (List (List ℕ))} {f : List (List ℕ) → Option (List (List ℕ))}
    → KeepsBlocks bl o
    → ((bl' : List (List ℕ)) → IsKept bl bl' → KeepsBlocks bl' (f bl'))
    → KeepsBlocks bl (o >>= f)
KeepsBlocks-bind failed g = failed
KeepsBlocks-bind (kept {bl'} h) g = after_keep h (g bl' h)

KeepsBlocks-elim :
    {bl : List (List ℕ)} {o : Option (List (List ℕ))} {f : List (List ℕ) → Option (List (List ℕ))}
    → KeepsBlocks bl o
    → ((bl' : List (List ℕ)) → IsKept bl bl' → KeepsBlocks bl' (f bl'))
    → KeepsBlocks bl (elim o [ none ↦ none | some bl' ↦ f bl' ])
KeepsBlocks-elim failed g = failed
KeepsBlocks-elim (kept {bl'} h) g = after_keep h (g bl' h)

KeepsBlocks-if :
    {bl : List (List ℕ)} (b : Bool) {o o' : Option (List (List ℕ))}
    → KeepsBlocks bl o
    → KeepsBlocks bl o'
    → KeepsBlocks bl (if b then o else o')
KeepsBlocks-if true h k = h
KeepsBlocks-if false h k = k

copy_n-KeepsBlocks :
    (bl : List (List ℕ)) (i o : ℕ) (src : List ℕ)
    → IsUniform block_size bl
    → AreBytes bl
    → IsBytes src
    → KeepsBlocks bl (copy_n bl i o src)
unfolding copy_n
copy_n-KeepsBlocks bl i o src u h b = elim (Bool-cases (ltb block_size (o + length src))) [
  | inl past ↦ rw past failed
  | inr fits ↦ rw fits (
      kept (
        update-IsKept (splice o src) (length-splice o src) (λ x. splice-IsBytes o src x b) bl i u
          h))
]

write_pages-KeepsBlocks :
    (bl : List (List ℕ)) (page i k : ℕ) (src : List ℕ)
    → IsUniform block_size bl
    → AreBytes bl
    → IsBytes src
    → KeepsBlocks bl (write_pages bl page i k src)
unfolding write_pages
write_pages-KeepsBlocks bl page i zero src u h b =
    kept (record { same_count = refl; uniform = u; bytes = h })
write_pages-KeepsBlocks bl page i (suc k) src u h b =
    let first =
      copy_n-KeepsBlocks bl (page + i) 0 (take block_size src) u h
        (take-IsBytes block_size src b) in
    KeepsBlocks-elim first λ bl' q.
      write_pages-KeepsBlocks bl' page (i + 1) k (drop block_size src) q.uniform q.bytes
        (drop-IsBytes block_size src b)

write_blocks-KeepsBlocks :
    (bl : List (List ℕ)) (a : ℕ) (src : List ℕ)
    → IsUniform block_size bl
    → AreBytes bl
    → IsBytes src
    → KeepsBlocks bl (write_blocks bl a src)
unfolding write_blocks
write_blocks-KeepsBlocks bl a src u h b =
    let page = a / block_size in
    let first = block_size - a % block_size in
    let full = (length src - first) / block_size in
    let last = (length src - first) % block_size in
    KeepsBlocks-if (leb (length src) first) (copy_n-KeepsBlocks bl page (a % block_size) src u h b)
      (KeepsBlocks-bind
        (copy_n-KeepsBlocks bl page (a % block_size) (take first src) u h
          (take-IsBytes first src b))
        λ bl1 q1.
          KeepsBlocks-bind
            (write_pages-KeepsBlocks bl1 page 1 full (drop first src) q1.uniform q1.bytes
              (drop-IsBytes first src b))
            λ bl2 q2.
              KeepsBlocks-if (ltb 0 last)
                (copy_n-KeepsBlocks bl2 (page + full + 1) 0 (drop (first + full * block_size) src)
                  q2.uniform q2.bytes (drop-IsBytes (first + full * block_size) src b))
                (kept (record { same_count = refl; uniform = q2.uniform; bytes = q2.bytes })))

-- What a memory is after a write.
pub record KeepsMemory (m m' : Memory) : Type 0 where
  pub well_formed : IsWellFormed m'
  pub bytes : AreBytes m'.blocks
  pub same_total : m'.total ≡ m.total

write_memory_cases :
    (m : Memory) (a : ℕ) (src : List ℕ) {m' : Memory}
    → write_memory m a src ≡ some m'
    → (bl : List (List ℕ)) × (write_blocks m.blocks a src ≡ some bl)
      × (record m { blocks = bl } ≡ m')
unfolding write_memory
write_memory_cases m a src e = elim (Bool-cases (out_of_bounds m a (length src))) [
  | inl out ↦ absurd (none_ne_some (rw out at e))
  | inr within ↦ elim (Option-cases (write_blocks m.blocks a src)) [
    | inl lost ↦ absurd (none_ne_some (rw (within, lost) at e))
    | inr (bl, k) ↦ (bl, k, some_inj (rw (within, k) at e))
  ]
]

IsKept-result :
    {bl bl' : List (List ℕ)} {o : Option (List (List ℕ))}
    → KeepsBlocks bl o
    → o ≡ some bl'
    → IsKept bl bl'
IsKept-result failed e = absurd (none_ne_some e)
IsKept-result (kept {bl'} k) e = subst (IsKept _) (some_inj e) k

-- A write of bytes, of whatever length, that succeeds.
pub write_memory-KeepsMemory :
    (m : Memory) (a : ℕ) (src : List ℕ) {m' : Memory}
    → IsWellFormed m
    → AreBytes m.blocks
    → IsBytes src
    → write_memory m a src ≡ some m'
    → KeepsMemory m m'
write_memory-KeepsMemory m a src w h b e =
    let (bl, k, q) = write_memory_cases m a src e in
    let r = IsKept-result (write_blocks-KeepsBlocks m.blocks a src w.uniform h b) k in
    subst (KeepsMemory m) q (record {
      well_formed = record {
        aligned = omega (arith, w.aligned, r.same_count);
        uniform = r.uniform;
        small = w.small;
      };
      bytes = r.bytes;
      same_total = refl;
    })

-- A read of fewer than 2 ^ 63 bytes that succeeds.
pub read_memory-IsBytes :
    (m : Memory) (a n : ℕ) {bytes : List ℕ}
    → IsWellFormed m
    → AreBytes m.blocks
    → n < 2 ^ 63
    → read_memory m a n ≡ some bytes
    → IsBytes bytes × (length bytes ≡ n)
read_memory-IsBytes m a n w h s e = elim (Bool-cases (ltb m.total (a + n))) [
  | inl past ↦ absurd (none_ne_some (sym (rw past at (read_memory-eq-slice m a n w s)) ∙ e))
  | inr fits ↦
      let q : slice a n (contents m) ≡ _ =
        some_inj (sym (rw fits at (read_memory-eq-slice m a n w s)) ∙ e) in
      subst (λ bs. IsBytes bs × (length bs ≡ n)) q
        (
          slice-IsBytes a n (contents m) (flat-IsBytes m.blocks h),
          length-slice a n (contents m) (ground (arith, length-contents m w)),
        )
]
