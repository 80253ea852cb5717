-- ===== src/Invariant/Screen.antt =====
-- The screen: the cursor stays on it, and writing characters keeps the memory.
use sysdarft.Invariant.{IsMachine, with_memory-IsMachine}
use sysdarft.Console.{
  newline, on_video, scroll, scroll_rows, set_cursor, teletype, v_height, v_width, video_block,
}
use sysdarft.Memory.Invariant.{update-IsKept}
use sysdarft.Machine.{Cpu}
use sysdarft.Base.{
  Bool-cases, IsBytes, List, [], arith, inl, inr, leb, length, length-splice, refl, replicate,
  replicate-IsBytes, slice-IsBytes, splice, splice-IsBytes, suc, zero, ℕ, ◌*◌, ◌+◌, ◌-◌, ◌<◌, ◌==◌,
  ◌∙◌, ◌∷◌, ◌≡◌,
}

module _ {total : ℕ} {c : Cpu} (h : IsMachine total c) where
  pub on_video-IsMachine :
      (f : List ℕ → List ℕ)
      → ((b : List ℕ) → length (f b) ≡ length b)
      → ((b : List ℕ) → IsBytes b → IsBytes (f b))
      → IsMachine total (on_video f c)
  on_video-IsMachine f l p =
      let k = update-IsKept f l p c.mem.blocks video_block h.memory.uniform h.memory_bytes in
      with_memory-IsMachine h (record {
        well_formed = record {
          aligned = omega (arith, h.memory.aligned, k.same_count);
          uniform = k.uniform;
          small = h.memory.small;
        };
        bytes = k.bytes;
        same_total = refl;
      })

  pub set_cursor-IsMachine : (x y : ℕ) → IsMachine total (set_cursor x y c)
  unfolding set_cursor
  set_cursor-IsMachine x y = record {
    memory = h.memory;
    memory_bytes = h.memory_bytes;
    memory_total = h.memory_total;
    registers = h.registers;
    streams = h.streams;
    on_row = omega arith;
    on_screen = omega arith;
    old_pointer = h.old_pointer;
    length_word = h.length_word;
  }

length-scroll_rows : (k i : ℕ) (v : List ℕ) → length (scroll_rows k i v) ≡ length v
unfolding scroll_rows
length-scroll_rows zero i v = refl
length-scroll_rows (suc k) i v = length-scroll_rows k (i + 1) _ ∙ length-splice (i * v_width) _ v

scroll_rows-IsBytes : (k i : ℕ) (v : List ℕ) → IsBytes v → IsBytes (scroll_rows k i v)
unfolding scroll_rows
scroll_rows-IsBytes zero i v b = b
scroll_rows-IsBytes (suc k) i v b =
    scroll_rows-IsBytes k (i + 1) _
      (splice-IsBytes (i * v_width) _ v (slice-IsBytes ((i + 1) * v_width) v_width v b) b)

length-scroll : (v : List ℕ) → length (scroll v) ≡ length v
unfolding scroll
length-scroll v =
    length-splice 1920 (replicate 80 b' ') (scroll_rows 24 0 v) ∙ length-scroll_rows 24 0 v

scroll-IsBytes : (v : List ℕ) → IsBytes v → IsBytes (scroll v)
unfolding scroll
scroll-IsBytes v b =
    splice-IsBytes 1920 (replicate 80 b' ') (scroll_rows 24 0 v)
      (replicate-IsBytes 80 b' ' (omega arith)) (scroll_rows-IsBytes 24 0 v b)

module _ {total : ℕ} {c : Cpu} (h : IsMachine total c) where
  pub newline-IsMachine : IsMachine total (newline c)
  unfolding newline
  newline-IsMachine = elim (Bool-cases (c.cursor_y == v_height - 1)) [
    | inl last ↦ rw last (
        let h0 : IsMachine total (record c { cursor_x = 0 }) = move_left in
        set_cursor-IsMachine (on_video-IsMachine h0 scroll length-scroll scroll-IsBytes) 0
          c.cursor_y)
    | inr other ↦
        rw other (set_cursor-IsMachine (next_row (ground (arith, h.on_screen))) 0 (c.cursor_y + 1))
  ]
    where
      move_left : IsMachine total (record c { cursor_x = 0 })
      move_left = search arith

      next_row :
          c.cursor_y + 1 < 25
          → IsMachine total (record c { cursor_x = 0; cursor_y = c.cursor_y + 1 })
      next_row k = search arith

module _ {total : ℕ} {c : Cpu} (h : IsMachine total c) where
  pub teletype-IsMachine : (text : ℕ) → text < 256 → IsMachine total (teletype text c)
  unfolding teletype
  teletype-IsMachine text b =
      let at = c.cursor_y * v_width + c.cursor_x in
      let h' =
        on_video-IsMachine h (splice at (text ∷ [])) (λ v. length-splice at (text ∷ []) v)
          (λ v k. splice-IsBytes at (text ∷ []) v (b, tt) k) in
      elim (Bool-cases (leb v_width (c.cursor_x + 1))) [
        | inl over ↦ rw over (newline-IsMachine h')
        | inr within ↦ rw within (set_cursor-IsMachine h' (c.cursor_x + 1) c.cursor_y)
      ]
