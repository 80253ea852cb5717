-- ===== src/Transfer.antt =====
-- src/cpu/Operations/DataTransfer.cpp.
pub mod Moves
pub mod SaveAll
use sysdarft.Base.{
  List, [], if◌then◌else◌, le_bytes, le_value, leb, slice, suc, zero, ℕ, ◌*◌, ◌++◌, ◌+◌, ◌^◌,
}
use sysdarft.Registers.{Registers, load, store}
use sysdarft.Registers.Image.{flags_of_word, flags_word}
use sysdarft.Width.{bit64, width_bytes, width_of}
use sysdarft.Machine.{
  M, add64, foreign, gets, illegal_instruction, modify_regs, or_throw, pop_stack, push_stack,
  read_bytes, sub64, throw, write_bytes, ◌>>=◌, ◌>>◌,
}
use sysdarft.Operand.{Operand, get_effective_addr, get_val, set_val}
use sysdarft.Alu.{two_values}

unfoldable pub mov : Operand → Operand → M (Unit {0})
unfolding get_val set_val
mov a b = do src ← get_val b; set_val a src

unfoldable pub xchg : Operand → Operand → M (Unit {0})
unfolding two_values set_val
xchg a b = do (x, y) ← two_values a b; set_val a y; set_val b x

unfoldable pub push : ℕ → Operand → M (Unit {0})
unfolding get_val push_stack
push bcd a = do
  x ← get_val a
  w ← or_throw illegal_instruction (width_of bcd)
  push_stack (le_bytes (width_bytes w) x)

unfoldable pub pop : ℕ → Operand → M (Unit {0})
unfolding pop_stack set_val
pop bcd a = do
  w ← or_throw illegal_instruction (width_of bcd)
  bytes ← pop_stack (width_bytes w)
  set_val a (le_value bytes)

-- FER`i` and the `k - 1` registers after it, as `pushall_data` holds them.
unfoldable pub general_words : ℕ → ℕ → Registers → List ℕ
unfolding load
general_words zero i r = []
general_words (suc k) i r = le_bytes 8 (load bit64 i r) ++ general_words k (i + 1) r

-- The bytes of `pushall_data`.
unfoldable pub pushall_data : Registers → List ℕ
unfolding general_words flags_word
pushall_data r =
    general_words 16 0 r
    ++ (le_bytes 8 (flags_word r.flags)
        ++ (le_bytes 8 r.stack_base
            ++ (le_bytes 8 r.stack_pointer
                ++ (le_bytes 8 r.data_base
                    ++ (le_bytes 8 r.data_pointer
                        ++ (le_bytes 8 r.extended_base
                            ++ (le_bytes 8 r.extended_pointer
                                ++ le_bytes 8 r.stack_preservation)))))))

unfoldable pub pushall : M (Unit {0})
unfolding pushall_data push_stack
pushall = do data_bytes ← gets (λ c. pushall_data c.regs); push_stack data_bytes

-- The eight bytes number `k` of `pushall_data`.
abbrev pub word_of : List ℕ → ℕ → ℕ
word_of bytes k = le_value (slice (8 * k) 8 bytes)

-- The stores of FER`i` and the registers after it.
unfoldable pub restore_general : ℕ → ℕ → List ℕ → Registers → Registers
unfolding store
restore_general zero i bytes r = r
restore_general (suc k) i bytes r =
    restore_general k (i + 1) bytes (store bit64 i (word_of bytes i) r)

unfoldable pub restore_all : List ℕ → Registers → Registers
unfolding restore_general flags_of_word
restore_all bytes r = record (restore_general 16 0 bytes r) {
  flags = flags_of_word (word_of bytes 16);
  stack_base = word_of bytes 17;
  stack_pointer = word_of bytes 18;
  data_base = word_of bytes 19;
  data_pointer = word_of bytes 20;
  extended_base = word_of bytes 21;
  extended_pointer = word_of bytes 22;
  stack_preservation = word_of bytes 23;
}

unfoldable pub popall : M (Unit {0})
unfolding restore_all pop_stack
popall = do bytes ← pop_stack 192; modify_regs (restore_all bytes)

unfoldable pub enter : Operand → M (Unit {0})
unfolding get_val
enter a = do
  x ← get_val a
  modify_regs (λ r. record r { stack_preservation = x; stack_pointer = sub64 r.stack_pointer x })

unfoldable pub leave : M (Unit {0})
leave = modify_regs (λ r. record r {
  stack_pointer = add64 r.stack_pointer r.stack_preservation;
  stack_preservation = 0;
})

-- `new char[count]` throws std::bad_array_new_length from 2 ^ 63 on; below that the host is taken to
-- have the room.
unfoldable pub movs : M (Unit {0})
unfolding load read_bytes write_bytes
movs = do
  r ← gets (λ c. c.regs)
  let dest = add64 r.data_pointer r.data_base
  let src = add64 r.extended_pointer r.extended_base
  let count = load bit64 3 r
  if leb (2 ^ 63) count
      then throw foreign
      else do buffer ← read_bytes src count; write_bytes dest buffer

unfoldable pub lea : Operand → Operand → M (Unit {0})
unfolding get_effective_addr set_val
lea a b = set_val a (get_effective_addr b)
