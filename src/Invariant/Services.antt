-- ===== src/Invariant/Services.antt =====
-- The services of interruptions 0x10 to 0x19, and `do_interruption` as a whole.
use sysdarft.Console.{set_cursor_visibility, v_height, v_width}
use sysdarft.Invariant.Interruptions.{
  IsGood-debug, IsGood-deliver, IsGood-deliver_unmasked, IsGood-fatal, IsGood-overflow,
}
use sysdarft.Invariant.Screen.{newline-IsMachine, set_cursor-IsMachine, teletype-IsMachine}
use sysdarft.Invariant.Access.{set_flags, set_pointer, set_registers}
use sysdarft.Invariant.{
  Any, IsGood, IsMachine, IsWord, IsGood-bind, IsGood-if, IsGood-when, returned, slept, threw,
}
use sysdarft.Interrupt.{
  cur_pos_0x15, do_interruption, get_input_0x14, hardware, max_entry, set_cur_pos_0x11,
  set_cur_visib_0x12, tty_0x10,
}
use sysdarft.Machine.{Cpu, done, sub64, waiting}
use sysdarft.Width.{bit16, bit64}
use sysdarft.Registers.Aliasing.{store-IsRegisters}
use sysdarft.Registers.{Flags, IsFlags, IsRegisters, Registers, load, store}
use sysdarft.Base.{
  List, [], arith, false, if◌then◌else◌, leb, ltb, ℕ, ◌%◌, ◌&&◌, ◌*◌, ◌+◌, ◌-◌, ◌/◌, ◌==◌, ◌^◌,
  ◌||◌, ◌∷◌,
}

module _ {total : ℕ} {c : Cpu} (h : IsMachine total c) where
  IsGood-set_cur_pos : IsGood total Any (set_cur_pos_0x11 c)
  unfolding set_cur_pos_0x11
  IsGood-set_cur_pos =
      let n = load bit16 0 c.regs in
      IsGood-if (ltb (v_width * v_height - 1) n) _ _ c (threw h)
        (returned tt (set_cursor-IsMachine h (n % v_width) (n / v_width)))

  taken-IsMachine :
      (rest : List ℕ) (r : Registers)
      → IsRegisters r
      → IsMachine total (record c { input = rest; regs = r })
  taken-IsMachine rest r k = search

  -- Back on the instruction, with interruptions let in.
  again-IsMachine :
      (v : ℕ)
      → IsWord v
      → IsMachine total (record c {
        regs = record (c.regs) {
          instruction_pointer = v;
          flags = record (c.regs.flags) { interruption_mask = false };
        };
      })
  again-IsMachine v k = set_registers h (
      set_flags (set_pointer h.registers v k) (record (c.regs.flags) { interruption_mask = false })
        h.registers.flags_fit)

  pub IsGood-get_input : IsGood total Any (get_input_0x14 c)
  unfolding get_input_0x14
  IsGood-get_input = IsGood-when c.halted (returned tt h) (
      IsGood-when (c.keyboard_abort || c.debugger_pause || c.shutdown_requested)
        (returned tt search) (by_input c.input))
    where
      by_input :
          (keys : List ℕ)
          → IsGood total {A = Unit {0}} Any (elim keys [
            | key ∷ rest ↦ (
              done tt,
              record c {
                input = rest;
                regs = store bit16 0 (if c.translate_cr && key == 13 then 10 else key) c.regs;
              },
            )
            | [] ↦
                if c.external_requested
                then (
                  done tt,
                  record c {
                    regs = record (c.regs) {
                      instruction_pointer = sub64 c.regs.instruction_pointer c.pop_len;
                      flags = record (c.regs.flags) { interruption_mask = false };
                    };
                  },
                )
                else (waiting, c)
          ])
      by_input (key ∷ rest) = returned tt (
          taken-IsMachine rest (store bit16 0 _ c.regs)
            (store-IsRegisters bit16 0 _ c.regs h.registers))
      by_input [] =
          IsGood-when c.external_requested (returned tt (again-IsMachine _ (omega arith))) (slept h)

  tty : IsMachine total (tty_0x10 c)
  unfolding tty_0x10
  tty = teletype-IsMachine h (load bit16 0 c.regs % 2 ^ 8) (omega arith)

  visible : IsMachine total (set_cur_visib_0x12 c)
  unfolding set_cur_visib_0x12 set_cursor_visibility
  visible = search

  position : IsMachine total (record c { regs = cur_pos_0x15 c.regs c })
  unfolding cur_pos_0x15
  position =
      set_registers h
        (store-IsRegisters bit16 0 (c.cursor_y * v_width + c.cursor_x) c.regs h.registers)

  IsGood-hardware : (code : ℕ) (fg : Flags) → IsFlags fg → IsGood total Any (hardware code fg c)
  unfolding hardware
  IsGood-hardware code fg k = IsGood-if (code == 0x00) _ _ c (IsGood-fatal h) (
      IsGood-if (code == 0x03) _ _ c (IsGood-debug h) (
        IsGood-if (code == 0x07) _ _ c (IsGood-overflow h) (
          IsGood-if (code == 0x10) _ _ c (returned tt tty) (
            IsGood-if (code == 0x11) _ _ c IsGood-set_cur_pos (
              IsGood-if (code == 0x12) _ _ c (returned tt visible) (
                IsGood-if (code == 0x13) _ _ c (returned tt (newline-IsMachine h)) (
                  IsGood-if (code == 0x14) _ _ c IsGood-get_input (
                    IsGood-if (code == 0x15) _ _ c (returned tt position) (
                      IsGood-if (code == 0x16) _ _ c
                        (returned tt (
                          set_registers h
                            (store-IsRegisters bit64 0 c.mem.total c.regs h.registers)))
                        (IsGood-if (code == 0x17) _ _ c (returned tt h) (
                          IsGood-if (code == 0x18) _ _ c (returned tt h) (
                            IsGood-if (code == 0x19) _ _ c (returned tt search) (
                              IsGood-bind (IsGood-deliver code fg k h)
                                λ f c1 k1 h1. IsGood-deliver_unmasked code f k1 h1)))))))))))))

  -- An interruption, of any code and with any mask, leaves a machine.
  pub IsGood-interruption : (code : ℕ) → IsGood total Any (do_interruption code c)
  unfolding do_interruption
  IsGood-interruption code = IsGood-if (ltb max_entry code) _ _ c (threw h) (
      IsGood-if (leb code 0x1F) _ _ c (IsGood-hardware code c.regs.flags h.registers.flags_fit)
        (IsGood-deliver_unmasked code c.regs.flags h.registers.flags_fit h))
