-- ===== src/Boot/Reachable.antt =====
-- What every step of `Boot` keeps of the machine.
use sysdarft.Boot.Steps.{
  BootState, Reachable, Step, escapes, fails, halts, interrupts, next, rounds, sleeps, start,
  strikes, system_of, wakes,
}
use sysdarft.Invariant.Streams.{ReadsBytes}
use sysdarft.Invariant.Execution.{execute-IsMachine, IsGood-state}
use sysdarft.Invariant.Services.{IsGood-get_input, IsGood-interruption}
use sysdarft.Invariant.{
  Any, IsGood, IsMachine, IsGood-bind, IsGood-if, IsGood-when, returned, slept, threw,
}
use sysdarft.Hub.{Host}
use sysdarft.Interrupt.{do_ext_dev_interruption, max_entry}
use sysdarft.Boot.{
  Event, Progress, System, acknowledged, after_capture, asleep, capture, cleanup_invoke_shutdown,
  clear_requests, ctrl_bracket, ctrl_c, ctrl_z, escaped, failure, going, happen, instruction,
  invoke_shutdown, key, keyboard_interrupt, last_resort, recover, request, round, run,
  serve_requests, shutdown_request, started, then_go, with_cpu,
}
use sysdarft.Machine.{
  Cpu, Outcome, aborted, bad_interruption, device_io_error, done, fatal, foreign,
  illegal_instruction, illegal_memory_access, interruption_out_of_range, no_such_device,
  stack_overflow, thrown, waiting,
}
use sysdarft.Base.{Bool, List, [], false, if◌then◌else◌, ltb, not, subst, true, ℕ, ◌&&◌, ◌∷◌, ◌≡◌}

module _ {total : ℕ} where
  IsGood-recover :
      (r : Outcome (Unit {0}) × Cpu) → IsGood total Any r → IsMachine total (recover r).1
  unfolding recover
  IsGood-recover r (returned p h) = h
  IsGood-recover r (slept h) = h
  IsGood-recover r (threw {e = aborted} h) = resort _ (IsGood-interruption h 0x07)
    where
      resort :
          (r : Outcome (Unit {0}) × Cpu) → IsGood total Any r → IsMachine total (last_resort r).1
      resort r (returned p h) = h
      resort r (slept h) = h
      resort r (threw h) = h
  IsGood-recover r (threw {e = stack_overflow} h) = h
  IsGood-recover r (threw {e = illegal_memory_access} h) = h
  IsGood-recover r (threw {e = illegal_instruction} h) = h
  IsGood-recover r (threw {e = bad_interruption} h) = h
  IsGood-recover r (threw {e = interruption_out_of_range} h) = h
  IsGood-recover r (threw {e = no_such_device} h) = h
  IsGood-recover r (threw {e = device_io_error} h) = h
  IsGood-recover r (threw {e = fatal} h) = h
  IsGood-recover r (threw {e = foreign} h) = h

  IsGood-serve :
      (is : List ℕ) (c : Cpu) → IsMachine total c → IsGood total Any (serve_requests is c)
  unfolding serve_requests
  IsGood-serve [] c h = returned tt h
  IsGood-serve (i ∷ is) c h =
      IsGood-bind (IsGood-interruption h i) λ u c1 k1 h1. IsGood-serve is (acknowledged c1) search

  released : (c : Cpu) → IsMachine total c → IsMachine total (record c { keyboard_abort = false })
  released c h = search

  IsGood-keyboard : (c : Cpu) → IsMachine total c → IsGood total Any (keyboard_interrupt c)
  unfolding keyboard_interrupt
  IsGood-keyboard c h =
      IsGood-when c.keyboard_abort (IsGood-interruption (released c h) 0x05) (returned tt h)

  IsGood-capture : (c : Cpu) → IsMachine total c → IsGood total Any (capture c)
  unfolding capture
  IsGood-capture c h =
      IsGood-bind (IsGood-keyboard c h) λ u c1 k1 h1. IsGood-serve c1.requests c1 h1

  flags-IsMachine :
      (c : Cpu)
      → IsMachine total c
      → (b : Bool) → IsMachine total (record c { shutdown_requested = b })
  flags-IsMachine c h b = search

  invoke-IsMachine :
      (s : System) → IsMachine total s.cpu → IsMachine total (invoke_shutdown s).1.cpu
  unfolding invoke_shutdown
  invoke-IsMachine s h = IsGood-recover _ (IsGood-interruption (flags-IsMachine s.cpu h false) 0x09)

  shutdown_request-IsMachine :
      (s : System) → IsMachine total s.cpu → IsMachine total (shutdown_request s).1.cpu
  unfolding shutdown_request
  shutdown_request-IsMachine s h =
      either s.cpu.shutdown_requested _ _
        (either (not s.invoked) _ _ (invoke-IsMachine s h) (
          either (not s.cpu.regs.flags.interruption_mask) _ _
            (invoke-IsMachine (cleanup_invoke_shutdown s) (flags-IsMachine s.cpu h false)) h))
        h
    where
      either :
          (b : Bool) (x y : Progress × System)
          → IsMachine total x.1.cpu
          → IsMachine total y.1.cpu
          → IsMachine total (if b then x else y).1.cpu
      either true x y h k = h
      either false x y h k = k

  then_go-IsMachine :
      (x : Progress × System) (f : System → Progress × System)
      → IsMachine total x.1.cpu
      → ((s : System) → IsMachine total s.cpu → IsMachine total (f s).1.cpu)
      → IsMachine total (then_go x f).1.cpu
  then_go-IsMachine (going, s) f h k = k s h
  then_go-IsMachine (asleep, s) f h k = h
  then_go-IsMachine (failure, s) f h k = h
  then_go-IsMachine (escaped e, s) f h k = h

  run-IsMachine : (r : Outcome (Unit {0}) × Cpu) → IsMachine total r.1 → IsMachine total (run r).1
  unfolding run
  run-IsMachine (done u, c) h = h
  run-IsMachine (thrown e, c) h = h
  run-IsMachine (waiting, c) h = h

  instruction-IsMachine :
      (host : Host)
      → ReadsBytes host
      → (s : System) → IsMachine total s.cpu
      → IsMachine total (instruction host s).1.cpu
  unfolding instruction
  instruction-IsMachine host reads s h = run-IsMachine _ (execute-IsMachine host reads s.cpu h)

  after_capture-IsMachine :
      (host : Host)
      → ReadsBytes host
      → (s : System) → IsMachine total s.cpu
      → IsMachine total (after_capture host s).1.cpu
  unfolding after_capture
  after_capture-IsMachine host reads s h =
      then_go-IsMachine (shutdown_request (clear_requests s)) (instruction host)
        (shutdown_request-IsMachine (clear_requests s) (cleared s h))
        (instruction-IsMachine host reads)
    where
      cleared : (s : System) → IsMachine total s.cpu → IsMachine total (clear_requests s).cpu
      cleared s h = search

  round-IsMachine :
      (host : Host)
      → ReadsBytes host
      → (s : System) → IsMachine total s.cpu
      → IsMachine total (round host s).1.cpu
  unfolding round
  round-IsMachine host reads s h =
      then_go-IsMachine (with_cpu s (recover (capture s.cpu))) (after_capture host)
        (IsGood-recover _ (IsGood-capture s.cpu h)) (after_capture-IsMachine host reads)

  IsGood-request :
      (locked : Bool) (code : ℕ) (c : Cpu)
      → IsMachine total c
      → IsGood total Any (do_ext_dev_interruption locked code c)
  unfolding do_ext_dev_interruption
  IsGood-request locked code c h =
      IsGood-if (ltb 0x1F code && ltb code max_entry) _ _ c
        (IsGood-if locked _ _ c (returned tt h) (returned tt search)) (threw h)

  happen-IsMachine : (e : Event) (c : Cpu) → IsMachine total c → IsMachine total (happen e c)
  unfolding happen
  happen-IsMachine ctrl_c c h = search
  happen-IsMachine ctrl_z c h = search
  happen-IsMachine ctrl_bracket c h = search
  happen-IsMachine (key k) c h = search
  happen-IsMachine (request locked code) c h = IsGood-state (IsGood-request locked code c h)

  by_round :
      (host : Host)
      → ReadsBytes host
      → (s : System) {x : Progress × System} → IsMachine total s.cpu
      → round host s ≡ x
      → IsMachine total x.1.cpu
  by_round host reads s h e =
      subst (λ (y : Progress × System). IsMachine total y.1.cpu) e (round-IsMachine host reads s h)

  Step-IsMachine :
      (host : Host)
      → ReadsBytes host
      → {s s' : BootState} → Step host s s'
      → IsMachine total (system_of s).cpu
      → IsMachine total (system_of s').cpu
  Step-IsMachine host reads (rounds {s = s} run e) h = by_round host reads s h e
  Step-IsMachine host reads (sleeps {s = s} run e) h = by_round host reads s h e
  Step-IsMachine host reads (fails {s = s} run e) h = by_round host reads s h e
  Step-IsMachine host reads (escapes {s = s} run e) h = by_round host reads s h e
  Step-IsMachine host reads (wakes {s = s} e) h =
      subst (λ (y : Outcome (Unit {0}) × Cpu). IsMachine total y.1) e
        (IsGood-state (IsGood-get_input h))
  Step-IsMachine host reads (halts e) h = h
  Step-IsMachine host reads (strikes {s = s} e) h = happen-IsMachine e s.cpu h
  Step-IsMachine host reads (interrupts {s = s} e) h = happen-IsMachine e s.cpu h

started-IsMachine : {total : ℕ} (c : Cpu) → IsMachine total c → IsMachine total (started c).cpu
unfolding started
started-IsMachine c h = search

-- Where the host reads bytes from files, `Boot` of a machine in range reaches only machines in
-- range: the invariant of `execute` holds after every round, in the sleep of interruption 0x14 and
-- at the end, whatever keys are struck and whatever devices ask for between rounds and in the
-- sleep.
pub Reachable-IsMachine :
    (total : ℕ) (host : Host) (c : Cpu) (s : BootState)
    → ReadsBytes host
    → IsMachine total c
    → Reachable host c s
    → IsMachine total (system_of s).cpu
Reachable-IsMachine total host c s reads h start = started-IsMachine c h
Reachable-IsMachine total host c s reads h (next {s = s0} r step) =
    Step-IsMachine host reads step (Reachable-IsMachine total host c s0 reads h r)
