-- ===== src/Boot.antt =====
-- src/cpu/SysdarftCPU.cpp: the loop of `Boot`, and the keys that src/SysdarftCursesUI.cpp turns into
-- requests. Drawing and the times that the loop counts are left out.
pub mod Construction
pub mod Start
pub mod Constructed
pub mod Requests
pub mod Steps
pub mod Reachable
pub mod Halting
pub mod Ticks
pub mod Shutdown
use sysdarft.Execute.{execute}
use sysdarft.Hub.{Host}
use sysdarft.Interrupt.{do_ext_dev_interruption, do_interruption}
use sysdarft.Width.{bit64}
use sysdarft.Registers.{load}
use sysdarft.Machine.{
  Cpu, Exception, M, Outcome, aborted, done, gets, modify, pure, thrown, waiting, ◌>>=◌, ◌>>◌,
}
use sysdarft.Base.{
  Bool, List, [], false, if◌then◌else◌, inl, inr, not, suc, true, zero, ℕ, ◌++◌, ◌∷◌, ◌⊎◌,
}

-- The fields of the loop: the machine, and have_I_invoked_shutdown.
pub record System : Type 0 where
  pub cpu : Cpu
  pub invoked : Bool

-- How a part of the loop's body ends: the loop goes on, interruption 0x14 sleeps, `Boot` returns
-- EXIT_FAILURE, or an exception leaves `Boot`.
pub data Progress : Type 0 where
  going asleep failure : Progress
  escaped : Exception → Progress

-- The Ctrl+C key.
unfoldable pub keyboard_interrupt : M (Unit {0})
unfolding do_interruption
keyboard_interrupt c =
    if c.keyboard_abort
    then do_interruption 0x05 (record c { keyboard_abort = false })
    else (done tt, c)

abbrev pub acknowledged : Cpu → Cpu
acknowledged c = record c { external_requested = false }

-- The loop over `interruption_requests`, which nothing changes while the mutex is held.
unfoldable pub serve_requests : List ℕ → M (Unit {0})
unfolding do_interruption
serve_requests [] = pure tt
serve_requests (i ∷ requests) = do do_interruption i; modify acknowledged; serve_requests requests

-- The first `try` block.
unfoldable pub capture : M (Unit {0})
unfolding keyboard_interrupt serve_requests
capture = do keyboard_interrupt; requests ← gets (λ c. c.requests); serve_requests requests

-- `catch (...)` around interruption 0x07.
unfoldable pub last_resort : Outcome (Unit {0}) × Cpu → Progress × Cpu
last_resort (done u, c) = (going, c)
last_resort (waiting, c) = (asleep, c)
last_resort (thrown e, c) = (failure, c)

-- The handler of a request to abort. There is no handler for other exceptions.
unfoldable pub recover : Outcome (Unit {0}) × Cpu → Progress × Cpu
unfolding last_resort do_interruption
recover (thrown aborted, c) = last_resort (do_interruption 0x07 c)
recover (thrown e, c) = (escaped e, c)
recover (done u, c) = (going, c)
recover (waiting, c) = (asleep, c)

-- `cleanup_invoke_shutdown`.
abbrev pub cleanup_invoke_shutdown : System → System
cleanup_invoke_shutdown s = record {
  cpu = record (s.cpu) { shutdown_requested = false };
  invoked = false;
}

-- `invoke_shutdown` and the handler around it; 0x09 is INT_SYSTEM_SHUTDOWN.
unfoldable pub invoke_shutdown : System → Progress × System
unfolding do_interruption recover
invoke_shutdown s =
    let (p, c) = recover (do_interruption 0x09 (record (s.cpu) { shutdown_requested = false })) in
    (p, record { cpu = c; invoked = true })

-- The Ctrl+Z key.
unfoldable pub shutdown_request : System → Progress × System
unfolding invoke_shutdown
shutdown_request s =
    if s.cpu.shutdown_requested
    then if not s.invoked
      then invoke_shutdown s
      else if not s.cpu.regs.flags.interruption_mask
      then invoke_shutdown (cleanup_invoke_shutdown s)
      else (going, s)
    else (going, s)

-- The instruction, whose exceptions are printed and dropped.
unfoldable pub run : Outcome (Unit {0}) × Cpu → Progress × Cpu
run (done u, c) = (going, c)
run (thrown e, c) = (going, c)
run (waiting, c) = (asleep, c)

abbrev pub then_go : Progress × System → (System → Progress × System) → Progress × System
then_go (going, s) f = f s
then_go (asleep, s) f = (asleep, s)
then_go (failure, s) f = (failure, s)
then_go (escaped e, s) f = (escaped e, s)

abbrev pub with_cpu : System → Progress × Cpu → Progress × System
with_cpu s (p, c) = (p, record s { cpu = c })

abbrev pub clear_requests : System → System
clear_requests s = record s { cpu = record (s.cpu) { requests = [] } }

-- The loop's body, from its last part to the whole.
unfoldable pub instruction : Host → System → Progress × System
unfolding run execute
instruction host s = with_cpu s (run (execute host s.cpu))

unfoldable pub after_capture : Host → System → Progress × System
unfolding shutdown_request instruction
after_capture host s = then_go (shutdown_request (clear_requests s)) (instruction host)

unfoldable pub round : Host → System → Progress × System
unfolding capture recover after_capture
round host s = then_go (with_cpu s (recover (capture s.cpu))) (after_capture host)

-- What the loop starts from.
unfoldable pub started : Cpu → System
started c = cleanup_invoke_shutdown (record {
  cpu = record c { halted = false; keyboard_abort = false; int3_debug = false };
  invoked = false;
})

-- How the loop goes on after a round: `inl` is the value that `Boot` returns; `inr` is a round that is
-- not over, or how it ended the loop.
abbrev pub after_round :
    (System → (ℕ ⊎ Progress) × System) → Progress × System → (ℕ ⊎ Progress) × System
after_round go (going, s) = go s
after_round go (p, s) = (inr p, s)

-- `Boot` of a machine that nothing outside acts on, with the rounds left.
unfoldable pub boot_loop : Host → ℕ → System → (ℕ ⊎ Progress) × System
unfolding round load
boot_loop host zero s = (inr going, s)
boot_loop host (suc n) s =
    if s.cpu.halted
    then (inl (load bit64 0 s.cpu.regs), s)
    else after_round (boot_loop host n) (round host s)

-- What other threads do to the machine: the keys of `monitor_console_input` and
-- `gui_input_handler`, and a device's request, with the mutex taken or free.
pub data Event : Type 0 where
  ctrl_c ctrl_z ctrl_bracket : Event
  key : ℕ → Event
  request : Bool → ℕ → Event

unfoldable pub happen : Event → Cpu → Cpu
unfolding do_ext_dev_interruption
happen ctrl_c c = record c { keyboard_abort = true }
happen ctrl_z c = record c { shutdown_requested = true }
happen ctrl_bracket c = record c { halted = true }
happen (key k) c = record c { input = c.input ++ (k ∷ []) }
happen (request locked code) c = (do_ext_dev_interruption locked code c).1
