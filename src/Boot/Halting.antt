-- ===== src/Boot/Halting.antt =====
-- How the loop ends.
use sysdarft.Instructions.{find_opcode}
use sysdarft.Control.{hlt}
use sysdarft.Operand.Decoding.{HasCode, advanced, pop_byte}
use sysdarft.Execute.Faults.{fetching}
use sysdarft.Execute.{
  decode_operands, decode_width, dispatch, end_abort, execute, executor, misc, pop_instruction,
  run_instruction,
}
use sysdarft.Hub.{Host}
use sysdarft.Width.{bit64}
use sysdarft.Registers.{load}
use sysdarft.Machine.{Cpu, done, sub64}
use sysdarft.Boot.Requests.{capture_lem}
use sysdarft.Boot.{
  System, after_capture, after_round, boot_loop, capture, clear_requests, going, instruction,
  recover, round, run, serve_requests, shutdown_request, then_go, with_cpu,
}
use sysdarft.Base.{[], ap, arith, false, if_false, inl, refl, suc, sym, true, ℕ, ◌+◌, ◌∙◌, ◌∷◌, ◌≡◌}

-- The machine after HLT.
abbrev pub stopped : Cpu → Cpu
stopped c = record (advanced 1 (fetching c)) {
  pop_len = sub64 (c.regs.instruction_pointer + 1) c.regs.instruction_pointer;
  int3_debug = false;
  halted = true;
}

execute-hlt :
    (host : Host) (c : Cpu) → HasCode c (0x40 ∷ []) → execute host c ≡ (done tt, stopped c)
unfolding execute run_instruction pop_instruction decode_width decode_operands dispatch executor
    misc hlt end_abort find_opcode
execute-hlt host c h =
    let (p, h1) =
      pop_byte 0x40 [] (fetching c)
        (record { well_formed = h.well_formed; within = h.within; there = h.there }) in
    rw p refl

-- Nothing asks for attention.
pub record IsQuiet (c : Cpu) : Type 0 where
  pub no_key : c.keyboard_abort ≡ false
  pub no_shutdown : c.shutdown_requested ≡ false
  pub no_requests : c.requests ≡ []

capture_quiet : (c : Cpu) → IsQuiet c → capture c ≡ (done tt, c)
unfolding serve_requests
capture_quiet c q = capture_lem [] c q.no_key q.no_requests refl

shutdown_quiet : (s : System) → s.cpu.shutdown_requested ≡ false → shutdown_request s ≡ (going, s)
unfolding shutdown_request
shutdown_quiet s q = if_false s.cpu.shutdown_requested _ _ q

clear_quiet : (s : System) → s.cpu.requests ≡ [] → clear_requests s ≡ s
clear_quiet s q i = record s { cpu = record (s.cpu) { requests = sym q i } }

-- A round in which nothing asks for attention is its instruction.
quiet_round : (host : Host) (s : System) → IsQuiet s.cpu → round host s ≡ instruction host s
unfolding round recover after_capture
quiet_round host s q =
    ap (λ x. then_go (with_cpu s (recover x)) (after_capture host)) (capture_quiet s.cpu q)
    ∙ ap (λ x. then_go (shutdown_request x) (instruction host)) (clear_quiet s q.no_requests)
    ∙ ap (λ x. then_go x (instruction host)) (shutdown_quiet s q.no_shutdown)

pub round-hlt :
    (host : Host) (s : System)
    → IsQuiet s.cpu
    → HasCode s.cpu (0x40 ∷ [])
    → round host s ≡ (going, record s { cpu = stopped s.cpu })
unfolding run instruction
round-hlt host s q h =
    quiet_round host s q ∙ ap (λ r. with_cpu s (run r)) (execute-hlt host s.cpu h)

-- If the loop of `Boot` is at a machine that is not halted, for which no key, no shutdown and no
-- device asks, and whose code at the instruction pointer is HLT, then with fuel for two rounds or
-- more `Boot` returns the value of FER0, and the machine has only moved past the instruction.
pub hlt_ends :
    (host : Host) (n : ℕ) (s : System)
    → IsQuiet s.cpu
    → s.cpu.halted ≡ false
    → HasCode s.cpu (0x40 ∷ [])
    → boot_loop host (2 + n) s ≡ (inl (load bit64 0 s.cpu.regs), record s { cpu = stopped s.cpu })
unfolding boot_loop
hlt_ends host n s q on h =
    let e : 2 + n ≡ suc (suc n) = omega arith in
    ap (λ m. boot_loop host m s) e
    ∙ if_false s.cpu.halted _ _ on
    ∙ ap (after_round (boot_loop host (suc n))) (round-hlt host s q h)
