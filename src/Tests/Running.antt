-- ===== src/Tests/Running.antt =====
-- The loop of `Boot`, and what it keeps, on concrete machines.
use sysdarft.Memory.Flat.{contents}
use sysdarft.Boot.Constructed.{all_attached, attached, cleared_memory, construct_lem}
use sysdarft.Boot.Shutdown.{AsksNothing, IsShuttingDown, only_first_shutdown, shutting}
use sysdarft.Tests.Interruptions.{table-IsWellFormed, table_memory}
use sysdarft.Tests.Decoding.{code_machine, code_memory-IsWellFormed, test_host}
use sysdarft.Tests.{machine, test_regs, test_regs-IsRegisters}
use sysdarft.Boot.Construction.{
  Files, add_disk, construct, devices_of, disk_imager, real_time_clock,
}
use sysdarft.Boot.Ticks.{periods, quiet_rounds, ticks, ticks-periodic}
use sysdarft.Boot.Halting.{IsQuiet, hlt_ends, stopped}
use sysdarft.Boot.Requests.{masked_requests_lost, only_first_request}
use sysdarft.Boot.Steps.{Reachable, next, running, start, strikes}
use sysdarft.Boot.{
  System, acknowledged, boot_loop, capture, ctrl_z, happen, instruction, round, started,
}
use sysdarft.Invariant.Streams.{ReadsBytes}
use sysdarft.Invariant.{IsMachine}
use sysdarft.Operand.Decoding.{HasCode}
use sysdarft.Interrupt.Delivery.{CanEnter, entered, frame}
use sysdarft.Devices.{Clock}
use sysdarft.Machine.{Cpu, done}
use sysdarft.Width.{bit64}
use sysdarft.Registers.Image.{image}
use sysdarft.Registers.{clear_flags, initial, load}
use sysdarft.Memory.Invariant.{replicate-AreBytes}
use sysdarft.Memory.{
  Memory, block_size, init, out_of_bounds, write_blocks, write_memory, zero_block,
}
use sysdarft.Base.{
  [], arith, false, inl, none, none_ne_some, refl, replicate-IsBytes, some, splice, true, ◌*◌, ◌++◌,
  ◌+◌, ◌∷◌, ◌≡◌, ◌≤◌,
}

reads_nothing : ReadsBytes test_host
reads_nothing file offset size bs e = absurd (none_ne_some e)

table-IsMachine : IsMachine 0xA1000 (machine table_memory)
table-IsMachine = record {
  memory = table-IsWellFormed;
  memory_bytes = (
    (omega arith, replicate-IsBytes 4095 0 (omega arith)),
    replicate-AreBytes 160 zero_block (replicate-IsBytes block_size 0 (omega arith)),
  );
  memory_total = refl;
  registers = test_regs-IsRegisters;
  streams = tt;
  on_row = omega arith;
  on_screen = omega arith;
  old_pointer = omega arith;
  length_word = omega arith;
}

-- A machine at a HLT.
abbrev hlt_machine : Cpu
hlt_machine = code_machine (0x40 ∷ [])

abbrev hlt_system : System
hlt_system = record { cpu = hlt_machine; invoked = false }

hlt-HasCode : HasCode hlt_machine (0x40 ∷ [])
hlt-HasCode = record {
  well_formed = code_memory-IsWellFormed (0x40 ∷ []) (omega arith);
  within = omega arith;
  there = refl;
}

hlt-IsQuiet : IsQuiet hlt_machine
hlt-IsQuiet = record { no_key = refl; no_shutdown = refl; no_requests = refl }

hlt_ends_example :
    boot_loop test_host (2 + 3) hlt_system
    ≡ (inl (load bit64 0 (hlt_machine.regs)), record hlt_system { cpu = stopped hlt_machine })
hlt_ends_example = hlt_ends test_host 3 hlt_system hlt-IsQuiet refl hlt-HasCode

-- Ctrl+Z strikes before the first round.
abbrev asked_down : System
asked_down = record { cpu = happen ctrl_z (machine table_memory); invoked = false }

-- Ctrl+Z strikes again in the handler.
abbrev masked_machine : Cpu
masked_machine = record (machine table_memory) {
  regs = record test_regs { flags = record clear_flags { interruption_mask = true } };
}

abbrev asked_again : System
asked_again = record { cpu = record masked_machine { shutdown_requested = true }; invoked = true }

asked_down-Reachable : Reachable test_host (machine table_memory) (running asked_down)
unfolding started
asked_down-Reachable = next start (strikes ctrl_z)

asked_down-AsksNothing : AsksNothing asked_down.cpu
unfolding happen
asked_down-AsksNothing = record { no_key = refl; no_requests = refl }

asked_down_asked : asked_down.cpu.shutdown_requested ≡ true
unfolding happen
asked_down_asked = refl

asked_down_room : 256 ≤ asked_down.cpu.regs.stack_pointer
unfolding happen
asked_down_room = omega arith

asked_down_fits : frame asked_down.cpu + 256 ≤ 0xA1000
unfolding happen
asked_down_fits = omega arith

only_first_shutdown_example :
    (m : Memory) × (write_memory asked_down.cpu.mem
        (frame asked_down.cpu)
        (image (asked_down.cpu.regs))
      ≡ some m)
    × (round test_host asked_down ≡ instruction test_host (shutting m asked_down))
    × IsShuttingDown (shutting m asked_down)
    × (round test_host asked_again ≡ instruction test_host asked_again)
only_first_shutdown_example =
    only_first_shutdown 0xA1000 test_host (machine table_memory) asked_down asked_again
      reads_nothing table-IsMachine asked_down-Reachable asked_down-AsksNothing asked_down_asked
      (inl refl) (omega arith) asked_down_room asked_down_fits
      (record { delivered = refl; masks = refl }) (record { no_key = refl; no_requests = refl })

-- Two devices ask.
abbrev asking : Cpu
asking = record (machine table_memory) { requests = 0x30 ∷ 0x31 ∷ [] }

asking-CanEnter : CanEnter asking
asking-CanEnter = record {
  well_formed = table-IsWellFormed;
  valid = test_regs-IsRegisters;
  table = omega arith;
  room = omega arith;
  fits = omega arith;
}

only_first_request_example :
    (m : Memory) × (write_memory table_memory (frame asking) (image test_regs) ≡ some m)
    × (capture asking ≡ (done tt, acknowledged (entered 0x30 clear_flags m asking)))
only_first_request_example =
    only_first_request 0x30 (0x31 ∷ []) asking asking-CanEnter refl refl refl (omega arith)
      (omega arith) (omega arith, omega arith, tt)

abbrev deaf : Cpu
deaf = record asking {
  regs = record test_regs { flags = record clear_flags { interruption_mask = true } };
}

masked_requests_lost_example : capture deaf ≡ (done tt, acknowledged deaf)
masked_requests_lost_example =
    masked_requests_lost 0x30 (0x31 ∷ []) deaf refl refl refl
      (omega arith, omega arith, (omega arith, omega arith, tt))

abbrev test_clock : Clock
test_clock = record {
  start_time = 0;
  machine_time = 0;
  interruption_scale = 4;
  interruption_number = 0x30;
}

ticks-periodic_example :
    ticks (2 + 3 * (1 + 4)) test_clock 2 ≡ quiet_rounds 2 ++ periods 3 test_clock
ticks-periodic_example = ticks-periodic 3 2 test_clock (omega arith) (omega arith)

-- A machine of 194 blocks with a BIOS of one byte, a hard disk and the second floppy disk.
abbrev some_files : Files
some_files name = some (7 ∷ name)

abbrev constructed : Cpu
constructed = elim (construct some_files 0 0xC2000 (0x40 ∷ []) (b'h' ∷ []) [] (b'f' ∷ [])) [
  | some c ↦ c
  | none ↦ hlt_machine
]

construct_succeeds :
    construct some_files 0 0xC2000 (0x40 ∷ []) (b'h' ∷ []) [] (b'f' ∷ []) ≡ some constructed
unfolding construct init write_memory out_of_bounds write_blocks devices_of add_disk disk_imager
    real_time_clock
construct_succeeds = refl

construct_lem_example :
    IsMachine 0xC2000 constructed
    × (contents (constructed.mem) ≡ splice 0xC1800 (0x40 ∷ []) (cleared_memory 0xC2000))
    × (constructed.regs ≡ initial)
    × (attached (constructed.devices) ≡ all_attached some_files (b'h' ∷ []) [] (b'f' ∷ []))
construct_lem_example =
    construct_lem some_files 0 0xC2000 (0x40 ∷ []) (b'h' ∷ []) [] (b'f' ∷ []) refl (omega arith)
      (omega arith, tt) construct_succeeds
