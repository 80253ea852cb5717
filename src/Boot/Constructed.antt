-- ===== src/Boot/Constructed.antt =====
-- What the constructor of `SysdarftCPU` leaves in the memory and behind the ports.
use sysdarft.Devices.{Device, DeviceState, clock, disk}
use sysdarft.Registers.{initial}
use sysdarft.Machine.{Cpu}
use sysdarft.Invariant.{IsMachine}
use sysdarft.Memory.Write.{write_memory-IsWritten}
use sysdarft.Memory.Laws.{contents-init, init-IsWellFormed}
use sysdarft.Memory.Blocks.{flat-set}
use sysdarft.Memory.Flat.{contents}
use sysdarft.Memory.{Memory, block_size, init}
use sysdarft.Boot.Construction.{
  Files, add_disk, bios_size, bios_start, blank, construct, devices_of, disk_imager, floppy_a,
  floppy_b, hard_disk, real_time_clock,
}
use sysdarft.Boot.Start.{blank-IsMachine, construct-IsMachine, construct_cases}
use sysdarft.Base.{
  IsBytes, List, Option, [], ap, append-nil, arith, bind_cases, length-replicate, length-slice_le,
  none, refl, replicate, some, some_inj, splice, sym, take, ℕ, ◌%◌, ◌++◌, ◌+◌, ◌^◌, ◌∙◌, ◌∷◌, ◌≡◌,
  ◌≤◌,
}

-- The streams of a device, and the bytes of its file, if it has one.
abbrev pub file_of : DeviceState → Option (List ℕ)
file_of (disk d) = some d.file
file_of (clock k) = none

abbrev pub Attached : Type 0
Attached = List (ℕ × List ℕ) × Option (List ℕ)

abbrev pub attached : List Device → List Attached
attached [] = []
attached (d ∷ ds) = (d.buffers, file_of d.state) ∷ attached ds

-- A drive, if it has a name: five ports in a row, nothing in their streams, and its file.
abbrev pub drive : List ℕ → ℕ → Option (List ℕ) → List Attached
drive [] port file = []
drive (x ∷ name) port file =
    ((port, []) ∷ (port + 1, []) ∷ (port + 2, []) ∷ (port + 3, []) ∷ (port + 4, []) ∷ [], file) ∷ []

abbrev pub rtc : Attached
rtc = ((0x70, []) ∷ (0x71, []) ∷ [], none)

attached-append : (ds es : List Device) → attached (ds ++ es) ≡ attached ds ++ attached es
attached-append [] es = refl
attached-append (d ∷ ds) es = ap (λ l. (d.buffers, file_of d.state) ∷ l) (attached-append ds es)

attached-add_disk :
    (files : Files) (port : ℕ) (tested name : List ℕ) (ds : List Device) {ds' : List Device}
    → add_disk files port tested name ds ≡ some ds'
    → attached ds' ≡ attached ds ++ drive tested port (files name)
unfolding add_disk disk_imager
attached-add_disk files port [] name ds e =
    ap attached (sym (some_inj e)) ∙ sym (append-nil (attached ds))
attached-add_disk files port (x ∷ tested) name ds e =
    let (file, p, q) =
      bind_cases (files name) (λ file. some (ds ++ (disk_imager port file ∷ []))) e in
    ap attached (sym (some_inj q))
    ∙ attached-append ds (disk_imager port file ∷ [])
    ∙ ap (λ f. attached ds ++ drive (x ∷ tested) port f) (sym p)

-- All that the constructor attaches.
abbrev pub all_attached : Files → List ℕ → List ℕ → List ℕ → List Attached
all_attached files hdd fda fdb =
    ((drive hdd 0x136 (files hdd) ++ drive fda 0x116 (files fda)) ++ drive fdb 0x126 (files fda))
    ++ rtc ∷ []

attached-devices_of :
    (files : Files) (now : ℕ) (hdd fda fdb : List ℕ) {ds : List Device}
    → devices_of files now hdd fda fdb ≡ some ds
    → attached ds ≡ all_attached files hdd fda fdb
unfolding devices_of real_time_clock
attached-devices_of files now hdd fda fdb e =
    let (d1, p1, e1) = bind_cases _ _ e in
    let (d2, p2, e2) = bind_cases _ _ e1 in
    let (d3, p3, e3) = bind_cases _ _ e2 in
    let a1 = attached-add_disk files hard_disk hdd hdd [] p1 in
    let a2 = attached-add_disk files floppy_a fda fda d1 p2 in
    let a3 = attached-add_disk files floppy_b fdb fda d2 p3 in
    ap attached (sym (some_inj e3))
    ∙ attached-append d3 (real_time_clock now ∷ [])
    ∙ ap (λ l. l ++ rtc ∷ [])
        (a3
          ∙ ap (λ l. l ++ drive fdb 0x126 (files fda))
              (a2 ∙ ap (λ l. l ++ drive fda 0x116 (files fda)) a1))

-- The text screen full of spaces, in memory that is otherwise zero.
abbrev pub cleared_memory : ℕ → List ℕ
cleared_memory total = splice 0xB8000 (replicate 2000 b' ') (replicate total 0)

contents-blank :
    (total : ℕ) {m : Memory}
    → total % block_size ≡ 0
    → total ≤ 2 ^ 63
    → 0xC1800 ≤ total
    → init total ≡ some m
    → contents (blank m).mem ≡ cleared_memory total
contents-blank total {m} h k l e =
    let (w, t) = init-IsWellFormed total h k e in
    flat-set block_size m.blocks 0xB8 0 (replicate 2000 b' ') (omega (arith, w.aligned, t))
      (omega (arith, length-replicate {A = ℕ} 2000 b' ')) w.uniform
    ∙ ap (splice 0xB8000 (replicate 2000 b' ')) (contents-init total h e)

-- If the total is whole blocks and at most 2 ^ 63 and the BIOS image is of bytes, every machine
-- that the constructor makes is in range; its memory holds the image, cut to 0x3E800 bytes, at
-- 0xC1800, 2000 spaces at 0xB8000, and zeros elsewhere; its registers are the initial ones; and
-- behind its ports are a disk at 0x136, a floppy disk at 0x116 and one at 0x126, each if it has a
-- name, with five ports in a row and the bytes of its file, where the second floppy disk has the
-- file of the first, and then the clock at 0x70 and 0x71, all with empty streams.
pub construct_lem :
    (files : Files) (now total : ℕ) (bios hdd fda fdb : List ℕ) {c : Cpu}
    → total % block_size ≡ 0
    → total ≤ 2 ^ 63
    → IsBytes bios
    → construct files now total bios hdd fda fdb ≡ some c
    → IsMachine total c
      × (contents c.mem ≡ splice 0xC1800 (take 0x3E800 bios) (cleared_memory total))
      × (c.regs ≡ initial)
      × (attached c.devices ≡ all_attached files hdd fda fdb)
construct_lem files now total bios hdd fda fdb {c} h k b e =
    let (empty, m, ds, p, q, r, s) = construct_cases files now total bios hdd fda fdb e in
    let w = blank-IsMachine total empty h k p in
    let (fits, written) =
      write_memory-IsWritten (blank empty).mem bios_start (take bios_size bios) w.memory
        (omega (arith, length-slice_le 0 bios_size bios)) q in
    let room : 0xC1800 ≤ total = omega (arith, fits, w.memory_total) in
    (
      construct-IsMachine files now total bios hdd fda fdb h k b e,
      ap (λ x. contents x.mem) (sym s)
          ∙ written.bytes
          ∙ ap (splice 0xC1800 (take 0x3E800 bios)) (contents-blank total h k room p),
      ap (λ x. x.regs) (sym s),
      ap (λ x. attached x.devices) (sym s) ∙ attached-devices_of files now hdd fda fdb r,
    )
