-- ===== src/Memory.antt =====
-- src/include/SysdarftMemory.h and src/cpu/SysdarftMemory.cpp.
pub mod Blocks
pub mod Flat
pub mod Invariant
pub mod Laws
pub mod Write
use sysdarft.Base.{
  ℕ, zero, suc, ◌+◌, ◌-◌, ◌*◌, ◌/◌, ◌%◌, ◌^◌, Bool, ◌||◌, Option, none, some, List, [], ◌++◌, ltb,
  leb, ◌==◌, if◌then◌else◌, length, get_or, set, take, drop, replicate, slice, splice, ◌>>=◌,
}

abbrev pub block_size : ℕ
block_size = 4096

-- `Memory` and `TotalMemory`. A block past the end of the vector is read as one with no bytes.
pub record Memory : Type 0 where
  pub total : ℕ
  pub blocks : List (List ℕ)

abbrev pub block_at : List (List ℕ) → ℕ → List ℕ
block_at blocks i = get_or blocks i []

abbrev pub zero_block : List ℕ
zero_block = replicate block_size 0

-- The constructor; `none` is its exception.
unfoldable pub init : ℕ → Option Memory
init total =
    if total == 0
    then none
    else some (record { total = total; blocks = replicate (total / block_size) zero_block })

-- The range check of both accesses, in `uint64_t`.
unfoldable pub out_of_bounds : Memory → ℕ → ℕ → Bool
out_of_bounds m address size = ltb m.total address || ltb m.total ((address + size) % 2 ^ 64)

-- `for (i = 1; i <= full_pages; i++)`, with the rounds left.
unfoldable pub read_pages : List (List ℕ) → ℕ → ℕ → ℕ → List ℕ
read_pages blocks page i zero = []
read_pages blocks page i (suc k) =
    slice 0 block_size (block_at blocks (page + i)) ++ read_pages blocks page (i + 1) k

-- `none` is IllegalMemoryAccessException.
unfoldable pub read_memory : Memory → ℕ → ℕ → Option (List ℕ)
unfolding out_of_bounds read_pages
read_memory m address size =
    let page = address / block_size in
    let offset = address % block_size in
    let first = block_size - offset in
    let rest = size - first in
    let full = rest / block_size in
    let last = rest % block_size in
    if out_of_bounds m address size
    then none
    else if leb size first
    then some (slice offset size (block_at m.blocks page))
    else some (
        slice offset first (block_at m.blocks page)
        ++ (read_pages m.blocks page 1 full
            ++ (if ltb 0 last then slice 0 last (block_at m.blocks (page + full + 1)) else [])))

-- The lambda `copy_n` of `write_memory`, over the block with that index.
unfoldable pub copy_n : List (List ℕ) → ℕ → ℕ → List ℕ → Option (List (List ℕ))
copy_n blocks i offset src =
    if ltb block_size (offset + length src)
    then none
    else some (set blocks i (splice offset src (block_at blocks i)))

-- The loop over the full pages. `src` is what is left of `_source`.
unfoldable pub write_pages : List (List ℕ) → ℕ → ℕ → ℕ → List ℕ → Option (List (List ℕ))
unfolding copy_n
write_pages blocks page i zero src = some blocks
write_pages blocks page i (suc k) src = elim (copy_n blocks (page + i) 0 (take block_size src)) [
  | none ↦ none
  | some blocks' ↦ write_pages blocks' page (i + 1) k (drop block_size src)
]

-- The bytes of `_source` are `source`, and its length is `size`.
unfoldable pub write_blocks : List (List ℕ) → ℕ → List ℕ → Option (List (List ℕ))
unfolding copy_n write_pages
write_blocks blocks address source =
    let page = address / block_size in
    let offset = address % block_size in
    let first = block_size - offset in
    let rest = length source - first in
    let full = rest / block_size in
    let last = rest % block_size in
    if leb (length source) first then copy_n blocks page offset source else do
      blocks' ← copy_n blocks page offset (take first source)
      blocks'' ← write_pages blocks' page 1 full (drop first source)
      if ltb 0 last
          then copy_n blocks'' (page + full + 1) 0 (drop (first + full * block_size) source)
          else some blocks''

unfoldable pub write_memory : Memory → ℕ → List ℕ → Option Memory
unfolding out_of_bounds write_blocks
write_memory m address source =
    if out_of_bounds m address (length source)
    then none
    else (do blocks ← write_blocks m.blocks address source; some (record m { blocks = blocks }))
