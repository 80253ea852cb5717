-- ===== src/Interrupt/Services.antt =====
-- The services of the screen's cursor.
use sysdarft.Base.{arith, ltb_of_le, min, refl, ℕ, ◌%◌, ◌*◌, ◌+◌, ◌/◌, ◌<◌, ◌∙◌, ◌≡◌}
use sysdarft.Registers.{IsRegisters, load, store}
use sysdarft.Registers.Aliasing.{load-store_self}
use sysdarft.Width.{bit16}
use sysdarft.Machine.{Cpu, done}
use sysdarft.Console.{set_cursor}
use sysdarft.Interrupt.{cur_pos_0x15, do_interruption, hardware, set_cur_pos_0x11}

-- The machine with the cursor at that linear position.
abbrev pub cursor_at : ℕ → Cpu → Cpu
cursor_at n c = record c { cursor_x = n % 80; cursor_y = n / 80 }

set_position :
    (c : Cpu)
    → load bit16 0 c.regs < 2000
    → do_interruption 0x11 c ≡ (done tt, cursor_at (load bit16 0 c.regs) c)
unfolding do_interruption hardware set_cur_pos_0x11 set_cursor
set_position c h =
    let n = load bit16 0 c.regs in
    let x : min (n % 80) 79 ≡ n % 80 = omega arith in
    let y : min (n / 80) 24 ≡ n / 80 = omega arith in rw (ltb_of_le 1999 n (omega arith), x, y)

get_position :
    (c : Cpu)
    → do_interruption 0x15 c
      ≡ (done tt, record c { regs = store bit16 0 (c.cursor_y * 80 + c.cursor_x) c.regs })
unfolding do_interruption hardware cur_pos_0x15
get_position c = refl

-- Service 0x11 puts the cursor at the linear position in EXR0, if it is below 2000, column first,
-- and changes nothing else; service 0x15, in any later machine with the cursor still there, gives
-- that position back in EXR0.
pub cursor_position :
    (c c' : Cpu)
    → IsRegisters c'.regs
    → load bit16 0 c.regs < 2000
    → c'.cursor_x ≡ (cursor_at (load bit16 0 c.regs) c).cursor_x
    → c'.cursor_y ≡ (cursor_at (load bit16 0 c.regs) c).cursor_y
    → (do_interruption 0x11 c ≡ (done tt, cursor_at (load bit16 0 c.regs) c))
      × ((c'' : Cpu) × (do_interruption 0x15 c' ≡ (done tt, c''))
          × (load bit16 0 c''.regs ≡ load bit16 0 c.regs))
cursor_position c c' v h ex ey =
    let n = load bit16 0 c.regs in
    (
      set_position c h,
      (
        record c' { regs = store bit16 0 (c'.cursor_y * 80 + c'.cursor_x) c'.regs },
        get_position c',
        load-store_self bit16 0 (c'.cursor_y * 80 + c'.cursor_x) c'.regs v (omega arith)
            ∙ omega arith,
      ),
    )
