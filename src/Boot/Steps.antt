-- ===== src/Boot/Steps.antt =====
-- The steps of `Boot` among the events of other threads, and what they can reach.
use sysdarft.Hub.{Host}
use sysdarft.Interrupt.{get_input_0x14}
use sysdarft.Width.{bit64}
use sysdarft.Registers.{load}
use sysdarft.Boot.{Event, Progress, System, asleep, escaped, failure, going, happen, round, started}
use sysdarft.Machine.{Cpu, Exception, done}
use sysdarft.Base.{false, inl, inr, true, ℕ, ◌≡◌, ◌⊎◌}

-- The loop at its head, asleep in interruption 0x14, or ended.
pub data BootState : Type 0 where
  running sleeping : System → BootState
  ended : ℕ ⊎ Progress → System → BootState

-- Events come between rounds and while interruption 0x14 sleeps.
pub data Step (host : Host) : BootState → BootState → Type 0 where
  rounds :
      {s s' : System}
      → s.cpu.halted ≡ false
      → round host s ≡ (going, s')
      → Step host (running s) (running s')
  sleeps :
      {s s' : System}
      → s.cpu.halted ≡ false
      → round host s ≡ (asleep, s')
      → Step host (running s) (sleeping s')
  wakes :
      {s : System} {c : Cpu}
      → get_input_0x14 s.cpu ≡ (done tt, c)
      → Step host (sleeping s) (running (record s { cpu = c }))
  fails :
      {s s' : System}
      → s.cpu.halted ≡ false
      → round host s ≡ (failure, s')
      → Step host (running s) (ended (inr failure) s')
  escapes :
      {s s' : System} {e : Exception}
      → s.cpu.halted ≡ false
      → round host s ≡ (escaped e, s')
      → Step host (running s) (ended (inr (escaped e)) s')
  halts :
      {s : System}
      → s.cpu.halted ≡ true
      → Step host (running s) (ended (inl (load bit64 0 s.cpu.regs)) s)
  strikes :
      {s : System} (e : Event) → Step host (running s) (running (record s { cpu = happen e s.cpu }))
  interrupts :
      {s : System} (e : Event)
      → Step host (sleeping s) (sleeping (record s { cpu = happen e s.cpu }))

pub data Reachable (host : Host) (c : Cpu) : BootState → Type 0 where
  start : Reachable host c (running (started c))
  next : {s s' : BootState} → Reachable host c s → Step host s s' → Reachable host c s'

abbrev pub system_of : BootState → System
system_of (running s) = s
system_of (sleeping s) = s
system_of (ended r s) = s
