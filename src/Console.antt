-- ===== src/Console.antt =====
-- The text screen: the parts of src/SysdarftCursesUI.cpp that change the machine's state. Drawing
-- on the terminal and the window is left out.
pub mod Scrolling
use sysdarft.Base.{
  Bool, List, [], if◌then◌else◌, leb, min, replicate, set, slice, splice, suc, zero, ℕ, ◌*◌, ◌+◌,
  ◌-◌, ◌/◌, ◌==◌, ◌∷◌,
}
use sysdarft.Memory.{block_at, block_size}
use sysdarft.Machine.{Cpu}

-- `V_WIDTH` and `V_HEIGHT`.
abbrev pub v_width : ℕ
v_width = 80

abbrev pub v_height : ℕ
v_height = 25

-- The block that `video_memory` points to, at `VIDEO_MEMORY_START`.
abbrev pub video_block : ℕ
video_block = 0xB8000 / block_size

abbrev pub on_video : (List ℕ → List ℕ) → Cpu → Cpu
on_video f c = record c {
  mem = record (c.mem) {
    blocks = set c.mem.blocks video_block (f (block_at c.mem.blocks video_block));
  };
}

-- `std::clamp` at coordinates that are not negative.
unfoldable pub set_cursor : ℕ → ℕ → Cpu → Cpu
set_cursor x y c = record c { cursor_x = min x (v_width - 1); cursor_y = min y (v_height - 1) }

unfoldable pub set_cursor_visibility : Bool → Cpu → Cpu
set_cursor_visibility visible c = record c { cursor_visible = visible }

-- The loop of `newline` over the rows, with the rounds left: row `i` becomes row `i + 1`.
unfoldable pub scroll_rows : ℕ → ℕ → List ℕ → List ℕ
scroll_rows zero i video = video
scroll_rows (suc k) i video =
    scroll_rows k (i + 1) (splice (i * v_width) (slice ((i + 1) * v_width) v_width video) video)

-- The loop, and the `memset` of the last row.
unfoldable pub scroll : List ℕ → List ℕ
unfolding scroll_rows
scroll video =
    splice ((v_height - 1) * v_width) (replicate v_width b' ') (scroll_rows (v_height - 1) 0 video)

unfoldable pub newline : Cpu → Cpu
unfolding scroll set_cursor
newline c =
    if c.cursor_y == v_height - 1
    then (let c' = on_video scroll (record c { cursor_x = 0 }) in
        set_cursor c'.cursor_x c'.cursor_y c')
    else (let c' = record c { cursor_x = 0; cursor_y = c.cursor_y + 1 } in
        set_cursor c'.cursor_x c'.cursor_y c')

unfoldable pub teletype : ℕ → Cpu → Cpu
unfolding newline set_cursor
teletype text c =
    let c' = on_video (splice (c.cursor_y * v_width + c.cursor_x) (text ∷ [])) c in
    if leb v_width (c.cursor_x + 1) then newline c' else set_cursor (c.cursor_x + 1) c.cursor_y c'
