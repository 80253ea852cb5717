-- ===== src/Boot/Shutdown.antt =====
-- The Ctrl+Z key in the loop of `Boot` in src/cpu/SysdarftCPU.cpp.
use sysdarft.Boot.Reachable.{Reachable-IsMachine}
use sysdarft.Hub.{Host}
use sysdarft.Machine.{Cpu, done}
use sysdarft.Memory.{Memory, write_memory}
use sysdarft.Registers.Image.{image}
use sysdarft.Interrupt.Delivery.{CanEnter, do_interruption_delivers, entered, frame}
use sysdarft.Interrupt.{do_interruption, vector_start}
use sysdarft.Invariant.Streams.{ReadsBytes}
use sysdarft.Invariant.{IsMachine}
use sysdarft.Boot.Requests.{capture_lem}
use sysdarft.Boot.Steps.{Reachable, running}
use sysdarft.Boot.{
  System, after_capture, capture, cleanup_invoke_shutdown, clear_requests, going, instruction,
  invoke_shutdown, recover, round, serve_requests, shutdown_request, then_go, with_cpu,
}
use sysdarft.Base.{
  Bool, Bool-cases, [], ap, arith, false, if_false, if_true, inl, inr, not, refl, some, subst, sym,
  true, ℕ, ◌+◌, ◌∙◌, ◌≡◌, ◌≤◌, ◌⊎◌,
}

-- No Ctrl+C and no device asks.
pub record AsksNothing (c : Cpu) : Type 0 where
  pub no_key : c.keyboard_abort ≡ false
  pub no_requests : c.requests ≡ []

quiet_capture : (c : Cpu) → AsksNothing c → capture c ≡ (done tt, c)
unfolding serve_requests
quiet_capture c q = capture_lem [] c q.no_key q.no_requests refl

-- What the loop does after the head of a round.
round_head : (host : Host) (s : System) → AsksNothing s.cpu → round host s ≡ after_capture host s
unfolding round recover
round_head host s q =
    ap (λ x. then_go (with_cpu s (recover x)) (after_capture host)) (quiet_capture s.cpu q)

-- The system at the start of the handler of interruption 0x09.
abbrev pub shutting : Memory → System → System
shutting m s = record {
  cpu = record (entered 0x09 s.cpu.regs.flags m s.cpu) { shutdown_requested = false };
  invoked = true;
}

-- Interruption 0x09 was delivered, and its handler has not ended.
pub record IsShuttingDown (s : System) : Type 0 where
  pub delivered : s.invoked ≡ true
  pub masks : s.cpu.regs.flags.interruption_mask ≡ true

-- No shutdown interruption is in progress: none was delivered, or its handler has ended.
abbrev pub CanShutdown : System → Type 0
CanShutdown s = (s.invoked ≡ false) ⊎ (s.cpu.regs.flags.interruption_mask ≡ false)

invoke_passes :
    (s : System) {m : Memory}
    → do_interruption 0x09 (record (s.cpu) { shutdown_requested = false })
      ≡ (done tt, (shutting m s).cpu)
    → invoke_shutdown s ≡ (going, shutting m s)
unfolding invoke_shutdown recover
invoke_passes s d = ap (λ x. let (p, c) = recover x in (p, record { cpu = c; invoked = true })) d

request_passes :
    (s : System) {m : Memory}
    → s.cpu.shutdown_requested ≡ true
    → CanShutdown s
    → do_interruption 0x09 (record (s.cpu) { shutdown_requested = false })
      ≡ (done tt, (shutting m s).cpu)
    → shutdown_request s ≡ (going, shutting m s)
unfolding shutdown_request
request_passes s {m} asked free d = go s.invoked refl free
  where
    go : (b : Bool) → s.invoked ≡ b → CanShutdown s → shutdown_request s ≡ (going, shutting m s)
    go false e x = rw (asked, e) (invoke_passes s d)
    go true e (inl fresh) = cc
    go true e (inr open_mask) =
        if_true s.cpu.shutdown_requested _ _ asked
        ∙ if_false (not s.invoked) _ _ (ap not e)
        ∙ if_true (not s.cpu.regs.flags.interruption_mask) _ _ (ap not open_mask)
        ∙ invoke_passes (cleanup_invoke_shutdown s) d

request_waits :
    (s : System)
    → s.invoked ≡ true
    → s.cpu.regs.flags.interruption_mask ≡ true
    → shutdown_request s ≡ (going, s)
unfolding shutdown_request
request_waits s e masks = elim (Bool-cases s.cpu.shutdown_requested) [
  | inl asked ↦ rw (asked, e, masks)
  | inr quiet ↦ rw quiet
]

-- The head of a round, and what it does with the key.
round_request :
    (host : Host) (s : System) {s' : System}
    → AsksNothing s.cpu
    → shutdown_request s ≡ (going, s')
    → round host s ≡ instruction host s'
unfolding after_capture
round_request host s q e =
    let cleared : clear_requests s ≡ s =
      ap (λ is. record s { cpu = record (s.cpu) { requests = is } }) (sym q.no_requests) in
    round_head host s q
    ∙ ap (λ x. then_go (shutdown_request x) (instruction host)) cleared
    ∙ ap (λ x. then_go x (instruction host)) e

-- Where the host reads bytes from files and `Boot` of a machine in range has reached the head of
-- its loop, with Ctrl+Z struck, Ctrl+C not, and no request of a device, the table in the memory and
-- room on the stack, and no shutdown delivered before or no mask: the round delivers interruption
-- 0x09, the sign of the key is cleared, and the instruction runs at the handler, where the shutdown
-- counts as delivered and the mask is set. In any state where both hold, with Ctrl+C not struck and
-- no request of a device, a round only runs its instruction: a Ctrl+Z struck there is neither
-- delivered nor lost.
pub only_first_shutdown :
    (total : ℕ) (host : Host) (c : Cpu) (s s' : System)
    → ReadsBytes host
    → IsMachine total c
    → Reachable host c (running s)
    → AsksNothing s.cpu
    → s.cpu.shutdown_requested ≡ true
    → CanShutdown s
    → vector_start + 4096 ≤ total
    → 256 ≤ s.cpu.regs.stack_pointer
    → frame s.cpu + 256 ≤ total
    → IsShuttingDown s'
    → AsksNothing s'.cpu
    → (m : Memory) × (write_memory s.cpu.mem (frame s.cpu) (image s.cpu.regs) ≡ some m)
      × (round host s ≡ instruction host (shutting m s))
      × IsShuttingDown (shutting m s)
      × (round host s' ≡ instruction host s')
only_first_shutdown total host c s s' reads h r q asked free table room fits down q' =
    let h' = Reachable-IsMachine total host c (running s) reads h r in
    let c' = record (s.cpu) { shutdown_requested = false } in
    let v : CanEnter c' = record {
      well_formed = h'.memory;
      valid = h'.registers;
      table = subst (λ n. vector_start + 4096 ≤ n) (sym h'.memory_total) table;
      room = room;
      fits = subst (λ n. frame s.cpu + 256 ≤ n) (sym h'.memory_total) fits;
    } in
    let (m, w, d) =
      do_interruption_delivers 0x09 c' v (omega arith)
        (inl (omega arith, omega arith, omega arith, omega arith, inl (omega arith))) in
    (
      m,
      w,
      round_request host s q (request_passes s asked free d),
      record { delivered = refl; masks = refl },
      round_request host s' q' (request_waits s' down.delivered down.masks),
    )
