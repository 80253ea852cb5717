-- ===== src/Memory/Write.antt =====
-- `write_memory` against the flat view of the memory.
use sysdarft.Base.{
  ℕ, zero, suc, ◌+◌, ◌-◌, ◌*◌, ◌/◌, ◌%◌, ◌^◌, ◌≤◌, ◌<◌, ◌≡◌, refl, sym, subst, ◌∙◌, none_ne_some,
  some_inj, ap, Option, none, some, List, [], ◌∷◌, ◌++◌, arith, length, ltb, leb, if◌then◌else◌,
  splice, take, drop, get_or, set, length-take, length-drop, length-splice, length-set, take-add,
  drop-add, splice-append, ltb_of_lt, ltb_of_le, inl, inr, Bool-cases, ◌>>=◌, take-append-drop,
}
use native.Mathlib.Decide.{dec_le}
use sysdarft.Memory.{Memory, block_size, copy_n, write_pages, write_blocks, write_memory}
use sysdarft.Memory.Blocks.{flat, IsUniform, set-IsUniform, length-get_or_block, flat-set}
use sysdarft.Memory.Flat.{contents, IsWellFormed, out_of_bounds_lem}

-- `after` holds `src` from `a` on and is otherwise `before`.
record Wrote (before : List (List ℕ)) (a : ℕ) (src : List ℕ) (result : Option (List (List ℕ)))
    : Type 0 where
  after : List (List ℕ)
  returns : result ≡ some after
  bytes : flat after ≡ splice a src (flat before)
  uniform : IsUniform block_size after
  same_count : length after ≡ length before

splice-nil : (a : ℕ) (xs : List ℕ) → splice a [] xs ≡ xs
splice-nil zero xs = refl
splice-nil (suc a) [] = refl
splice-nil (suc a) (x ∷ xs) = ap (λ l. x ∷ l) (splice-nil a xs)

set-get_or_self : (bl : List (List ℕ)) (i : ℕ) → set bl i (get_or bl i []) ≡ bl
set-get_or_self [] i = refl
set-get_or_self (b ∷ bl) zero = refl
set-get_or_self (b ∷ bl) (suc i) = ap (λ l. b ∷ l) (set-get_or_self bl i)

copy_n-Wrote :
    (bl : List (List ℕ)) (i o : ℕ) (src : List ℕ)
    → IsUniform block_size bl
    → o + length src ≤ block_size
    → i * block_size + o + length src ≤ length bl * block_size
    → Wrote bl (i * block_size + o) src (copy_n bl i o src)
unfolding copy_n
copy_n-Wrote bl i o [] u h k = record {
  after = bl;
  returns = rw (ltb_of_le block_size (o + 0) h, splice-nil, set-get_or_self);
  bytes = rw splice-nil;
  uniform = u;
  same_count = refl;
}
copy_n-Wrote bl i o (b ∷ src) u h k = record {
  after = set bl i (splice o (b ∷ src) (get_or bl i []));
  returns = rw (ltb_of_le block_size (o + suc (length src)) h);
  bytes = flat-set block_size bl i o (b ∷ src) (omega arith) h u;
  uniform =
      set-IsUniform block_size bl i _
        (omega (
          arith,
          length-splice o (b ∷ src) (get_or bl i []),
          length-get_or_block block_size bl i (omega arith) u,
        ))
        u;
  same_count = length-set bl i _;
}

-- One write after another.
Wrote-append :
    {bl : List (List ℕ)} (a : ℕ) (src src' : List ℕ) {r : Option (List (List ℕ))}
    (w : Wrote bl a src r) {r' : Option (List (List ℕ))}
    → Wrote w.after (a + length src) src' r'
    → Wrote bl a (src ++ src') r'
Wrote-append {bl} a src src' w w' = record {
  after = w'.after;
  returns = w'.returns;
  bytes = rw (splice-append, ← w.bytes) w'.bytes;
  uniform = w'.uniform;
  same_count = omega (arith, w.same_count, w'.same_count);
}

write_pages-Wrote :
    (bl : List (List ℕ)) (page i k : ℕ) (src : List ℕ)
    → IsUniform block_size bl
    → k * block_size ≤ length src
    → page + i + k ≤ length bl
    → Wrote bl ((page + i) * block_size) (take (k * block_size) src) (write_pages bl page i k src)
unfolding write_pages
write_pages-Wrote bl page i zero src u h k = record {
  after = bl;
  returns = refl;
  bytes = rw splice-nil;
  uniform = u;
  same_count = refl;
}
write_pages-Wrote bl page i (suc k) src u h le =
    let len : length (take block_size src) ≡ block_size =
      length-take block_size src (omega arith) in
    let z : (page + i) * block_size + 0 ≡ (page + i) * block_size = omega arith in
    let w : Wrote bl ((page + i) * block_size) (take block_size src)
        (copy_n bl (page + i) 0 (take block_size src)) =
      rw z at (copy_n-Wrote bl (page + i) 0 (take block_size src) u (omega arith) (omega arith)) in
    let w' =
      write_pages-Wrote w.after page (i + 1) k (drop block_size src) w.uniform
        (omega (arith, length-drop block_size src)) (omega (arith, w.same_count)) in
    let e : (page + (i + 1)) * block_size ≡ (page + i) * block_size + length (take block_size src) =
      omega arith in
    let f : suc k * block_size ≡ block_size + k * block_size = omega arith in
    rw (f, take-add, w.returns, write_pages)
      (Wrote-append ((page + i) * block_size) (take block_size src) _ w (rw e at w'))

-- The last, partial block of a write.
write_last-Wrote :
    (bl : List (List ℕ)) (q last : ℕ) (src : List ℕ)
    → IsUniform block_size bl
    → length src ≡ last
    → last ≤ block_size
    → q * block_size + last ≤ length bl * block_size
    → Wrote bl (q * block_size) src (if ltb 0 last then copy_n bl q 0 src else some bl)
write_last-Wrote bl q last [] u e l h = record {
  after = bl;
  returns = rw (ltb_of_le 0 last (omega arith));
  bytes = rw splice-nil;
  uniform = u;
  same_count = refl;
}
write_last-Wrote bl q last (b ∷ src) u e l h =
    let z : q * block_size + 0 ≡ q * block_size = omega arith in
    rw (ltb_of_lt 0 last (omega arith))
      (rw z at (copy_n-Wrote bl q 0 (b ∷ src) u (omega arith) (omega arith)))

write_blocks-Wrote :
    (bl : List (List ℕ)) (a : ℕ) (src : List ℕ)
    → IsUniform block_size bl
    → a + length src ≤ length bl * block_size
    → Wrote bl a src (write_blocks bl a src)
unfolding write_blocks
write_blocks-Wrote bl a src u h = elim (Bool-cases (leb (length src) first)) [
  | inl fits ↦
      rw fits (rw e at (copy_n-Wrote bl page (a % block_size) src u (ground arith) (omega arith)))
  | inr crosses ↦
      let c : first < length src = ground arith in
      let t1 : length (take first src) ≡ first = length-take first src (omega arith) in
      let d1 : length (drop first src) ≡ length src - first = length-drop first src in
      let t2 : length (take (full * block_size) (drop first src)) ≡ full * block_size =
        length-take (full * block_size) (drop first src) (omega arith) in
      let w1 =
        copy_n-Wrote bl page (a % block_size) (take first src) u (omega arith) (omega arith) in
      let w2 =
        write_pages-Wrote w1.after page 1 full (drop first src) w1.uniform (omega arith)
          (omega (arith, w1.same_count)) in
      let w3 =
        write_last-Wrote w2.after (page + full + 1) last (drop (full * block_size) (drop first src))
          w2.uniform (omega (arith, length-drop (full * block_size) (drop first src))) (omega arith)
          (omega (arith, w1.same_count, w2.same_count)) in
      let p : (page + 1) * block_size
          ≡ page * block_size + a % block_size + length (take first src) =
        omega arith in
      let q : (page + full + 1) * block_size
          ≡ (page + 1) * block_size + length (take (full * block_size) (drop first src)) =
        omega arith in
      let w23 = Wrote-append ((page + 1) * block_size) _ _ w2 (rw q at w3) in
      let w123 = Wrote-append (page * block_size + a % block_size) _ _ w1 (rw p at w23) in
      rw (crosses, w1.returns, ◌>>=◌, w2.returns, ◌>>=◌, drop-add)
        (rw (take-append-drop, take-append-drop, e) at w123)
]
  where
    page : ℕ
    page = a / block_size

    first : ℕ
    first = block_size - a % block_size

    full : ℕ
    full = (length src - first) / block_size

    last : ℕ
    last = (length src - first) % block_size

    e : page * block_size + a % block_size ≡ a
    e = omega arith

-- `m'` is `m` with `src` from address `a` on.
pub record IsWritten (m : Memory) (a : ℕ) (src : List ℕ) (m' : Memory) : Type 0 where
  pub bytes : contents m' ≡ splice a src (contents m)
  pub same_total : m'.total ≡ m.total
  pub well_formed : IsWellFormed m'

-- In a well-formed memory, a write of fewer than 2 ^ 63 bytes that ends within the total succeeds:
-- the flat contents are those from before with the bytes spliced in at the address, the total is
-- the same, and the memory is well formed again.
pub write_in_range :
    (m : Memory) (a : ℕ) (src : List ℕ)
    → IsWellFormed m
    → length src < 2 ^ 63
    → a + length src ≤ m.total
    → (m' : Memory) × (write_memory m a src ≡ some m') × IsWritten m a src m'
unfolding write_memory
write_in_range m a src w s h =
    let w' = write_blocks-Wrote m.blocks a src w.uniform (omega (arith, w.aligned)) in
    (
      record m { blocks = w'.after },
      rw (
        out_of_bounds_lem m a (length src) w s,
        ltb_of_le m.total (a + length src) h,
        w'.returns,
        ◌>>=◌,
      ),
      record {
        bytes = w'.bytes;
        same_total = refl;
        well_formed = record {
          aligned = omega (arith, w.aligned, w'.same_count);
          uniform = w'.uniform;
          small = w.small;
        };
      },
    )

-- In a well-formed memory, a write of fewer than 2 ^ 63 bytes that ends past the total fails.
pub write_out_of_range :
    (m : Memory) (a : ℕ) (src : List ℕ)
    → IsWellFormed m
    → length src < 2 ^ 63
    → m.total < a + length src
    → write_memory m a src ≡ none
unfolding write_memory
write_out_of_range m a src w s h =
    rw (out_of_bounds_lem m a (length src) w s, ltb_of_lt m.total (a + length src) h)

-- What a successful write says of its arguments and its result.
pub write_memory-IsWritten :
    (m : Memory) (a : ℕ) (src : List ℕ) {m' : Memory}
    → IsWellFormed m
    → length src < 2 ^ 63
    → write_memory m a src ≡ some m'
    → (a + length src ≤ m.total) × IsWritten m a src m'
write_memory-IsWritten m a src {m'} w s e = elim (dec_le (a + length src) m.total) [
  | yes h ↦
      let (n, r, p) = write_in_range m a src w s h in
      (h, subst (λ k. IsWritten m a src k) (some_inj (sym r ∙ e)) p)
  | no h ↦ absurd (none_ne_some (sym (write_out_of_range m a src w s (omega arith)) ∙ e))
]
