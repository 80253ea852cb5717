-- ===== src/Lib.antt =====
-- Sysdarft: a virtual machine with its own processor, memory, devices and instruction set. This
-- library models the machine as its C++ classes implement it, and states what makes the parts
-- correct.
--
-- The parts and how they interact. `SysdarftCPU` inherits from a chain of classes that share one
-- state: memory, registers, screen, IO hub, decoder, interruptions and executor. `execute` fetches an
-- opcode at the code base and instruction pointer, decodes width and operands, calls the procedure of
-- the opcode, and turns an exception into an interruption. An interruption looks up its handler in a
-- table in memory, saves the register file on the stack and jumps; `iret` restores it.
--
-- Which file models which part:
--   Base, Base/*: Boolean tests, lists with the ranges that memory copies touch, bytes of numbers, and
--     the `|` and `&` of numbers with few digits in common.
--   Memory, Memory/*: src/cpu/SysdarftMemory.cpp. `Memory` is `Memory` and `TotalMemory`; `init` is the
--     constructor; `read_memory` and `write_memory` keep the source's split into a first page, full
--     pages and a last page. Memory/Flat reads the blocks as one list of bytes.
--   Width: the width prefixes of src/include/EncodingDecoding.h.
--   Registers, Registers/*: src/include/SysdarftRegister.h. The general registers are the 128 bytes
--     that hold them; `image` is the structure's 256 bytes.
--   Devices, Hub, Hub/*: src/SysdarftIOHub.cpp, src/include/SysdarftDisks.inl and the handlers of
--     src/ext_dev/RealTimeClock.cpp, with src/cpu/Operations/IOH.cpp.
--   Machine, Machine/*: the state `Cpu`, the computations `M` over it (an exception is a value and
--     leaves the state as it was when thrown), and the stack functions of src/include.
--   Operand, Operand/*: `OperandType` of src/cpu/SysdarftCPUDecoder.cpp.
--   Console, Console/*: the part of src/SysdarftCursesUI.cpp that changes the machine.
--   Interrupt, Interrupt/*: src/cpu/SysdarftCPUInterruption.cpp.
--   Alu, Logic, Transfer, Control and their children: the files of src/cpu/Operations.
--   Instructions, Execute, Execute/*: src/include/InstructionSet.h and
--     src/cpu/SysdarftInstructionExec.cpp.
--   Invariant, Invariant/*: what every operation keeps of the machine (`IsMachine`: the ranges of the
--     C++ types, the size of the memory and the cursor on the screen), one module per part, up to a
--     whole instruction; `IsGood` says it of a computation with its exceptions. It gives the lemmas
--     on a state that `Boot` reaches what they need to know of memory and registers.
--   Boot, Boot/*: src/cpu/SysdarftCPU.cpp, the constructors of the devices, the keys of
--     src/SysdarftCursesUI.cpp and `update_time` of src/ext_dev/RealTimeClock.cpp. `round` is the body
--     of the loop of `Boot`; Boot/Constructed says what the constructor leaves, Boot/Requests and
--     Boot/Shutdown what a round does with requests and with Ctrl+Z; Boot/Steps is the loop among the events of other threads, which come
--     between rounds and in the sleep of interruption 0x14.
--   Encoding, Encoding/*: src/coding/EncodeTarget.cpp, EncodeInstruction.cpp and OperandSanity.cpp.
--     Encoding/Denotation is what a line means, apart from its bytes.
--   Preprocessor, Preprocessor/*: src/coding/HeadersAndDefinitions.cpp. `process_line` is the body of
--     the loop of `HeadProcess`; Preprocessor/Lines has its regular expressions, on lines of bytes.
--   Tests, Tests/*: the theorems at concrete inputs.
--
-- Numbers are natural numbers; a machine word keeps its wrap written out (`add64`, `% modulus w`).
-- Every loop is structural recursion on the number of rounds that the source computes before it, so no
-- fuel is chosen, with two exceptions. The loop of interruption 0x14 is one round that ends in
-- `waiting`, since what ends the loop is a change by another thread. The loop of `Boot` runs on fuel
-- in `boot_loop`, for any number of rounds, and without fuel as the relation `Step`.
--
-- The host system (clock, reading and writing files) is the record `Host`, a parameter; a theorem on
-- disks assumes of it that a file reads back what was written, and one on the whole machine that a
-- file reads as bytes. The files that the constructor opens are a parameter too, and so is `Tools`,
-- the regular expressions, `bc` and `strtoull` of the encoder. Taken as defined where C++ leaves them
-- open: shift counts of 64 or more, and products and quotients of signed numbers that do not fit. The
-- build is the one without `__DEBUG__`, and the break points of the debugger are its defaults, which
-- never stop.
--
-- Not modelled: events in the middle of a round, and the mutex, which an event finds free or taken;
-- the sleeps of the real time clock; the disassembler, the linker and the directives of
-- src/coding/PreProcessor.cpp; the debugger and command line of src/SysdarftConsole; drawing
-- (src/gui, curses) and the mapping of keys; logging and messages; and the compression tool.
pub mod Alu
pub mod Base
pub mod Console
pub mod Control
pub mod Devices
pub mod Execute
pub mod Hub
pub mod Instructions
pub mod Interrupt
pub mod Invariant
pub mod Boot
pub mod Encoding
pub mod Logic
pub mod Machine
pub mod Memory
pub mod Operand
pub mod Preprocessor
pub mod Registers
pub mod Tests
pub mod Transfer
pub mod Width
