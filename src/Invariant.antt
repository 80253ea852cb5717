-- ===== src/Invariant.antt =====
-- What every operation keeps of the machine, and how computations that keep it are put together.
pub mod Access
pub mod Arithmetic
pub mod Decoding
pub mod Operands
pub mod Interruptions
pub mod Services
pub mod Division
pub mod Bitwise
pub mod Moves
pub mod Jumps
pub mod Streams
pub mod Ports
pub mod Execution
pub mod Procedures
pub mod Screen
use sysdarft.Base.{
  Bool, IsBytes, List, Option, [], false, if◌then◌else◌, length, none, refl, some, true, ℕ, ◌<◌,
  ◌^◌, ◌∙◌, ◌∷◌, ◌≡◌,
}
use sysdarft.Memory.{Memory, read_memory, write_memory}
use sysdarft.Memory.Flat.{IsWellFormed}
use sysdarft.Memory.Invariant.{AreBytes, KeepsMemory, read_memory-IsBytes, write_memory-KeepsMemory}
use sysdarft.Registers.{IsRegisters, Registers}
use sysdarft.Width.{Width, modulus}
use sysdarft.Devices.{Device}
use sysdarft.Console.{v_height, v_width}
use sysdarft.Machine.{
  Cpu, Exception, M, Outcome, and_then, done, illegal_memory_access, or_throw, read_bytes, thrown,
  waiting, write_bytes,
}

-- A value of 64 bits.
abbrev pub IsWord : ℕ → Type 0
IsWord v = v < 2 ^ 64

-- Every stream of the devices holds bytes.
abbrev pub IsBuffers : List (ℕ × List ℕ) → Type 0
IsBuffers [] = Unit
IsBuffers ((p, s) ∷ buffers) = IsBytes s × IsBuffers buffers

abbrev pub IsDevices : List Device → Type 0
IsDevices [] = Unit
IsDevices (d ∷ ds) = IsBuffers d.buffers × IsDevices ds

-- The machine with `total` bytes of memory: what the C++ types and the size of the memory say of the
-- state, and the cursor on the screen.
pub record IsMachine (total : ℕ) (c : Cpu) : Type 0 where
  pub memory : IsWellFormed c.mem
  pub memory_bytes : AreBytes c.mem.blocks
  pub memory_total : c.mem.total ≡ total
  pub registers : IsRegisters c.regs
  pub streams : IsDevices c.devices
  pub on_row : c.cursor_x < v_width
  pub on_screen : c.cursor_y < v_height
  pub old_pointer : IsWord c.ip_before_pop
  pub length_word : IsWord c.pop_len

-- Whatever comes out, the machine is one, and a value that is returned satisfies `P`.
pub data IsGood (total : ℕ) {A : Type 0} (P : A → Type 0) : Outcome A × Cpu → Type 0 where
  returned : {a : A} {c : Cpu} → P a → IsMachine total c → IsGood total P (done a, c)
  threw : {e : Exception} {c : Cpu} → IsMachine total c → IsGood total P (thrown e, c)
  slept : {c : Cpu} → IsMachine total c → IsGood total P (waiting, c)

abbrev pub Any : {A : Type 0} → A → Type 0
Any a = Unit

module _ {total : ℕ} {A B : Type 0} {P : A → Type 0} where
  pub IsGood-bind :
      {Q : B → Type 0} {r : Outcome A × Cpu} {f : A → M B}
      → IsGood total P r
      → ((a : A) (c : Cpu) → P a → IsMachine total c → IsGood total Q (f a c))
      → IsGood total Q (and_then r f)
  IsGood-bind (returned {a} {c} p h) g = g a c p h
  IsGood-bind (threw h) g = threw h
  IsGood-bind (slept h) g = slept h

pub IsGood-weaken :
    {total : ℕ} {A : Type 0} {P Q : A → Type 0} {r : Outcome A × Cpu}
    → ((a : A) → P a → Q a)
    → IsGood total P r
    → IsGood total Q r
IsGood-weaken g (returned {a} p h) = returned (g a p) h
IsGood-weaken g (threw h) = threw h
IsGood-weaken g (slept h) = slept h

module _ {total : ℕ} {A : Type 0} {P : A → Type 0} where
  pub IsGood-or_throw :
      (e : Exception) (o : Option A) {c : Cpu}
      → IsMachine total c
      → ((a : A) → o ≡ some a → P a)
      → IsGood total P (or_throw e o c)
  IsGood-or_throw e none h p = threw h
  IsGood-or_throw e (some a) h p = returned (p a refl) h

  pub IsGood-if :
      (b : Bool) (m n : M A) (c : Cpu)
      → IsGood total P (m c)
      → IsGood total P (n c)
      → IsGood total P ((if b then m else n) c)
  IsGood-if true m n c h k = h
  IsGood-if false m n c h k = k

  -- The same where only what follows the test is a computation.
  pub IsGood-when :
      (b : Bool) {r s : Outcome A × Cpu}
      → IsGood total P r
      → IsGood total P s
      → IsGood total P (if b then r else s)
  IsGood-when true h k = h
  IsGood-when false h k = k

module _ {total : ℕ} {X A : Type 0} {P : A → Type 0} where
  pub IsGood-option :
      (o : Option X) {r : Outcome A × Cpu} {f : X → Outcome A × Cpu}
      → IsGood total P r
      → ((x : X) → o ≡ some x → IsGood total P (f x))
      → IsGood total P (elim o [ none ↦ r | some x ↦ f x ])
  IsGood-option none h g = h
  IsGood-option (some x) h g = g x refl

  -- A chain that starts with `or_throw`, and goes on from the same machine.
  pub IsGood-some :
      (e : Exception) (o : Option X) (f : X → M A) {c : Cpu}
      → IsMachine total c
      → ((x : X) → o ≡ some x → IsGood total P (f x c))
      → IsGood total P (and_then (or_throw e o c) f)
  IsGood-some e none f h g = threw h
  IsGood-some e (some x) f h g = g x refl

module _ {total : ℕ} {c : Cpu} (h : IsMachine total c) where
  pub with_registers-IsMachine :
      {r : Registers} → IsRegisters r → IsMachine total (record c { regs = r })
  with_registers-IsMachine k = search

  pub with_memory-IsMachine :
      {m : Memory} → KeepsMemory c.mem m → IsMachine total (record c { mem = m })
  with_memory-IsMachine k = record {
    memory = k.well_formed;
    memory_bytes = k.bytes;
    memory_total = k.same_total ∙ h.memory_total;
    registers = h.registers;
    streams = h.streams;
    on_row = h.on_row;
    on_screen = h.on_screen;
    old_pointer = h.old_pointer;
    length_word = h.length_word;
  }

  pub IsGood-read :
      (a n : ℕ) → n < 2 ^ 63 → IsGood total (λ bs. IsBytes bs × (length bs ≡ n)) (read_bytes a n c)
  unfolding read_bytes
  IsGood-read a n s =
      IsGood-or_throw illegal_memory_access (read_memory c.mem a n) h
        λ bs e. read_memory-IsBytes c.mem a n h.memory h.memory_bytes s e

  pub IsGood-write : (a : ℕ) (bs : List ℕ) → IsBytes bs → IsGood total Any (write_bytes a bs c)
  unfolding write_bytes
  IsGood-write a bs b = IsGood-option (write_memory c.mem a bs) (threw h) λ m e.
      returned tt
        (with_memory-IsMachine (write_memory-KeepsMemory c.mem a bs h.memory h.memory_bytes b e))
