-- ===== src/Interrupt.antt =====
-- src/cpu/SysdarftCPUInterruption.cpp: delivering interruptions, and the services 0x10 to 0x19.
-- Logging and the pauses of the screen are left out.
pub mod Services
pub mod Delivery
use sysdarft.Base.{
  Bool, [], false, if◌then◌else◌, le_value, leb, ltb, slice, true, ℕ, ◌%◌, ◌&&◌, ◌*◌, ◌++◌, ◌+◌,
  ◌-◌, ◌/◌, ◌==◌, ◌^◌, ◌||◌, ◌∷◌,
}
use sysdarft.Registers.{Flags, Registers, load, store}
use sysdarft.Registers.Image.{image, of_image}
use sysdarft.Width.{bit16, bit64}
use sysdarft.Machine.{
  Cpu, M, Outcome, aborted, bad_interruption, done, gets, interruption_out_of_range, modify,
  modify_regs, or_throw, pop_memory_from, pure, push_memory_to, read_bytes, stack_overflow, sub64,
  throw, thrown, waiting, ◌>>=◌, ◌>>◌,
}
use sysdarft.Console.{newline, set_cursor, set_cursor_visibility, teletype, v_height, v_width}

-- `INTERRUPTION_VECTOR` and `INTERRUPTION_VEC_ED`.
abbrev pub vector_start : ℕ
vector_start = 0xA0000

abbrev pub vector_end : ℕ
vector_end = 0xA0FFF

-- `MAX_INTERRUPTION_ENTRY`.
abbrev pub max_entry : ℕ
max_entry = (vector_end - vector_start + 1) / 16

abbrev pub with_flags : (Flags → Flags) → Registers → Registers
with_flags f r = record r { flags = f r.flags }

abbrev pub masked : Flags → Flags
masked f = record f { interruption_mask = true }

-- `set_mask`.
unfoldable pub set_mask : M (Unit {0})
set_mask = modify_regs (with_flags masked)

-- `do_interruption_lookup`: code base and instruction pointer of the handler.
unfoldable pub interruption_lookup : ℕ → M (ℕ × ℕ)
unfolding read_bytes
interruption_lookup code =
    if leb vector_end (vector_start + code * 16) then throw interruption_out_of_range else do
      bytes ← read_bytes (vector_start + code * 16) 16
      pure (le_value (slice 0 8 bytes), le_value (slice 8 8 bytes))

-- `do_preserve_cpu_state`: the whole register file goes on the stack.
unfoldable pub preserve_cpu_state : M (Unit {0})
unfolding push_memory_to image
preserve_cpu_state = do
  regs ← gets (λ c. c.regs)
  mem ← gets (λ c. c.mem)
  (mem', sp) ←
      or_throw stack_overflow (push_memory_to mem regs.stack_base regs.stack_pointer (image regs))
  modify (λ c. record c { mem = mem'; regs = record regs { stack_pointer = sp } })

-- `do_jump_table`.
unfoldable pub jump_table : ℕ × ℕ → M (Unit {0})
jump_table (base, ip) = modify_regs (λ r. record r { code_base = base; instruction_pointer = ip })

-- `do_iret`.
unfoldable pub iret : M (Unit {0})
unfolding pop_memory_from of_image
iret = do
  regs ← gets (λ c. c.regs)
  mem ← gets (λ c. c.mem)
  (bytes, sp) ← or_throw stack_overflow (pop_memory_from mem regs.stack_base regs.stack_pointer 256)
  modify (λ c. record c { regs = of_image bytes })

-- `do_interruption_fatal_0x00`: the state is not preserved.
unfoldable pub fatal_0x00 : M (Unit {0})
unfolding interruption_lookup set_mask jump_table
fatal_0x00 = do location ← interruption_lookup 0x00; set_mask; jump_table location

-- `do_interruption_debug_0x03`.
unfoldable pub debug_0x03 : M (Unit {0})
unfolding interruption_lookup preserve_cpu_state set_mask jump_table
debug_0x03 = do
  modify (λ c. record c { int3_debug = true })
  location ← interruption_lookup 0x03
  preserve_cpu_state
  set_mask
  jump_table location

-- `do_stackoverflow_0x07`: the state cannot be preserved.
unfoldable pub stackoverflow_0x07 : M (Unit {0})
unfolding interruption_lookup set_mask jump_table
stackoverflow_0x07 = do location ← interruption_lookup 0x07; set_mask; jump_table location

-- `do_interruption_set_cur_pos_0x11`.
unfoldable pub set_cur_pos_0x11 : M (Unit {0})
unfolding set_cursor load
set_cur_pos_0x11 = do
  linear ← gets (λ c. load bit16 0 c.regs)
  if ltb (v_width * v_height - 1) linear
      then throw bad_interruption
      else modify (set_cursor (linear % v_width) (linear / v_width))

-- One round of the loop of `do_interruption_getInput_0x14`; its sleep is `waiting`.
unfoldable pub get_input_0x14 : M (Unit {0})
unfolding store
get_input_0x14 c =
    if c.halted
    then (done tt, c)
    else if c.keyboard_abort || c.debugger_pause || c.shutdown_requested
    then (
      done tt,
      record c {
        debugger_pause = false;
        regs = record (c.regs) { instruction_pointer = c.ip_before_pop };
      },
    )
    else elim c.input [
      | key ∷ rest ↦ (
        done tt,
        record c {
          input = rest;
          regs = store bit16 0 (if c.translate_cr && key == 13 then 10 else key) c.regs;
        },
      )
      | [] ↦
          if c.external_requested
          then (
            done tt,
            record c {
              regs = record (c.regs) {
                instruction_pointer = sub64 c.regs.instruction_pointer c.pop_len;
                flags = record (c.regs.flags) { interruption_mask = false };
              };
            },
          )
          else (waiting, c)
    ]

-- `do_interruption_tty_0x10`, whose character is the low byte of EXR0.
unfoldable pub tty_0x10 : Cpu → Cpu
unfolding teletype load
tty_0x10 c = teletype (load bit16 0 c.regs % 2 ^ 8) c

-- `do_interruption_set_cur_visib_0x12`.
unfoldable pub set_cur_visib_0x12 : Cpu → Cpu
unfolding set_cursor_visibility load
set_cur_visib_0x12 c = set_cursor_visibility (ltb 0 (load bit16 0 c.regs)) c

-- `do_interruption_cur_pos_0x15`.
unfoldable pub cur_pos_0x15 : Registers → Cpu → Registers
unfolding store
cur_pos_0x15 r c = store bit16 0 (c.cursor_y * v_width + c.cursor_x) r

-- `catch (StackOverflow &)`.
abbrev pub rescue_overflow : {A : Type 0} → Outcome A × Cpu → M A → Outcome A × Cpu
rescue_overflow (thrown stack_overflow, c) h = h c
rescue_overflow (r, c) h = (r, c)

-- The lambda `do_interruption` inside `do_interruption`. `fg` is the copy of the flags that the
-- lambdas share by reference; the result is its new value.
unfoldable pub deliver : ℕ → Flags → M Flags
unfolding interruption_lookup preserve_cpu_state stackoverflow_0x07 jump_table
deliver code fg = do
  location ← interruption_lookup code
  (λ c.
      rescue_overflow (preserve_cpu_state c)
        (do stackoverflow_0x07; modify_regs (with_flags (λ _. masked fg)); throw aborted))
  modify_regs (with_flags (λ _. masked fg))
  jump_table location
  pure (masked fg)

-- The test of the mask at the end of `do_interruption`.
unfoldable pub deliver_unmasked : ℕ → Flags → M (Unit {0})
unfolding deliver
deliver_unmasked code fg =
    if fg.interruption_mask then pure tt else (do fg' ← deliver code fg; pure tt)

-- The `switch` over the codes up to 0x1F. Its default delivers and goes on to the test of the mask.
unfoldable pub hardware : ℕ → Flags → M (Unit {0})
unfolding deliver deliver_unmasked fatal_0x00 debug_0x03 stackoverflow_0x07 set_cur_pos_0x11
    get_input_0x14 tty_0x10 set_cur_visib_0x12 cur_pos_0x15 newline
hardware code fg =
    if code == 0x00
    then fatal_0x00
    else if code == 0x03
    then debug_0x03
    else if code == 0x07
    then stackoverflow_0x07
    else if code == 0x10
    then modify tty_0x10
    else if code == 0x11
    then set_cur_pos_0x11
    else if code == 0x12
    then modify set_cur_visib_0x12
    else if code == 0x13
    then modify newline
    else if code == 0x14
    then get_input_0x14
    else if code == 0x15
    then modify (λ c. record c { regs = cur_pos_0x15 c.regs c })
    else if code == 0x16
    then modify (λ c. record c { regs = store bit64 0 c.mem.total c.regs })
    else if code == 0x17
    then pure tt
    else if code == 0x18
    then pure tt
    else if code == 0x19
    then modify (λ c. record c { input = [] })
    else (do fg' ← deliver code fg; deliver_unmasked code fg')

unfoldable pub do_interruption : ℕ → M (Unit {0})
unfolding hardware deliver_unmasked
do_interruption code = if ltb max_entry code then throw bad_interruption else do
  fg ← gets (λ c. c.regs.flags)
  if leb code 0x1F then hardware code fg else deliver_unmasked code fg

-- `do_ext_dev_interruption`, with the mutex free or taken.
unfoldable pub do_ext_dev_interruption : Bool → ℕ → M (Unit {0})
do_ext_dev_interruption locked code =
    if ltb 0x1F code && ltb code max_entry
    then if locked
      then pure tt
      else modify
          (λ c. record c { requests = c.requests ++ (code ∷ []); external_requested = true })
    else throw interruption_out_of_range
