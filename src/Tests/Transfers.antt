-- ===== src/Tests/Transfers.antt =====
-- Data transfers and the cursor at concrete inputs.
use sysdarft.Base.{arith, le_bytes, length-replicate, refl, replicate, slice, some, ℕ, ◌∙◌, ◌≡◌}
use sysdarft.Memory.{Memory, write_memory}
use sysdarft.Memory.Flat.{contents}
use sysdarft.Memory.Write.{IsWritten, write_in_range}
use sysdarft.Width.{bit16, bit64}
use sysdarft.Registers.{load, store}
use sysdarft.Registers.Aliasing.{load-store_self, store-IsRegisters}
use sysdarft.Registers.Image.{flags_word}
use sysdarft.Machine.{Cpu, done}
use sysdarft.Machine.Stack.{push_stack_lem, pushed}
use sysdarft.Operand.{constant, get_val}
use sysdarft.Interrupt.{do_interruption}
use sysdarft.Interrupt.Services.{cursor_at, cursor_position}
use sysdarft.Transfer.{general_words, movs, popall, push, pushall, pushall_data}
use sysdarft.Transfer.SaveAll.{KeepsSaved, popall-pushall, restored}
use sysdarft.Transfer.Moves.{destination, movs_lem, source}
use sysdarft.Tests.{
  small-IsWellFormed, small_machine, small_memory, test_regs, test_regs-IsRegisters,
}

-- `PUSHALL` on a stack of a page, and then other values in the general registers.
all_write :
    (m : Memory) × (write_memory small_memory 3904 (pushall_data test_regs) ≡ some m)
    × IsWritten small_memory 3904 (pushall_data test_regs) m
unfolding pushall_data general_words load flags_word
all_write =
    write_in_range small_memory 3904 (pushall_data test_regs) small-IsWellFormed (omega arith)
      (omega arith)

abbrev all_pushed : Cpu
all_pushed = pushed (pushall_data test_regs) all_write.0 small_machine

pushall_runs : pushall small_machine ≡ (done tt, all_pushed)
unfolding pushall pushall_data general_words load flags_word
pushall_runs = push_stack_lem (pushall_data test_regs) small_machine (omega arith) all_write.1

abbrev changed : Cpu
changed = record all_pushed {
  regs = record (all_pushed.regs) { general = replicate 128 1; extended_base = 5 };
}

saved_kept : KeepsSaved all_pushed changed
saved_kept = record { same_base = refl; same_pointer = refl; same_bytes = refl }

popall-pushall_example :
    popall changed ≡ (done tt, record changed { regs = restored test_regs (changed.regs) })
popall-pushall_example =
    popall-pushall small_machine all_pushed changed small-IsWellFormed test_regs-IsRegisters
      (length-replicate {A = ℕ} 128 1) pushall_runs saved_kept

-- Sixteen bytes to move.
abbrev sixteen : Cpu
sixteen = record small_machine { regs = store bit64 3 16 test_regs }

count_is : load bit64 3 (store bit64 3 16 test_regs) ≡ 16
count_is = load-store_self bit64 3 16 test_regs test_regs-IsRegisters (omega arith) ∙ refl

movs_lem_example :
    (m : Memory) × (movs sixteen ≡ (done tt, record sixteen { mem = m }))
    × IsWritten small_memory
        (destination sixteen)
        (slice (source sixteen) (load bit64 3 (sixteen.regs)) (contents small_memory))
        m
unfolding store
movs_lem_example =
    movs_lem sixteen small-IsWellFormed
      (store-IsRegisters bit64 3 16 test_regs test_regs-IsRegisters) (omega (arith, count_is))
      (omega (arith, count_is)) (omega (arith, count_is))

seven_write :
    (m : Memory) × (write_memory small_memory 4092 (le_bytes 4 7) ≡ some m)
    × IsWritten small_memory 4092 (le_bytes 4 7) m
seven_write =
    write_in_range small_memory 4092 (le_bytes 4 7) small-IsWellFormed (omega arith) (omega arith)

push_runs :
    push 0x32 (constant 7 0x32) small_machine
    ≡ (done tt, pushed (le_bytes 4 7) seven_write.0 small_machine)
unfolding push get_val
push_runs = push_stack_lem (le_bytes 4 7) small_machine (omega arith) seven_write.1

zero_is : load bit16 0 test_regs ≡ 0
unfolding load
zero_is = refl

cursor_position_example :
    (do_interruption 0x11 small_machine
      ≡ (done tt, cursor_at (load bit16 0 test_regs) small_machine))
    × ((c'' : Cpu) × (do_interruption 0x15 small_machine ≡ (done tt, c''))
        × (load bit16 0 c''.regs ≡ load bit16 0 test_regs))
cursor_position_example =
    cursor_position small_machine small_machine test_regs-IsRegisters (omega (arith, zero_is))
      (omega (arith, zero_is)) (omega (arith, zero_is))
