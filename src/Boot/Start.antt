-- ===== src/Boot/Start.antt =====
-- The machine that the constructor makes.
use sysdarft.Boot.Construction.{
  Files, add_disk, bios_size, bios_start, blank, construct, devices_of, disk_imager, floppy_a,
  floppy_b, fresh, hard_disk, real_time_clock,
}
use sysdarft.Invariant.Screen.{on_video-IsMachine}
use sysdarft.Invariant.{IsBuffers, IsDevices, IsMachine}
use sysdarft.Memory.Laws.{init-AreBytes, init-IsWellFormed}
use sysdarft.Memory.Invariant.{AreBytes, write_memory-KeepsMemory}
use sysdarft.Memory.Flat.{IsWellFormed}
use sysdarft.Memory.{Memory, block_size, init, write_memory}
use sysdarft.Console.{v_height, v_width}
use sysdarft.Devices.{Device}
use sysdarft.Machine.{Cpu}
use sysdarft.Registers.{IsRegisters, initial}
use sysdarft.Base.{
  IsBytes, List, [], arith, bind_cases, length-splice, refl, replicate, replicate-IsBytes, some,
  some_inj, splice-IsBytes, subst, take, take-IsBytes, ℕ, ◌%◌, ◌*◌, ◌++◌, ◌^◌, ◌∙◌, ◌∷◌, ◌≡◌, ◌≤◌,
}

initial-IsRegisters : IsRegisters initial
initial-IsRegisters = record {
  size = refl;
  bytes = replicate-IsBytes 128 0 (omega arith);
  flags_fit = (omega arith, omega arith);
  stack_base_fits = omega arith;
  stack_pointer_fits = omega arith;
  code_base_fits = omega arith;
  instruction_pointer_fits = omega arith;
  data_base_fits = omega arith;
  data_pointer_fits = omega arith;
  extended_base_fits = omega arith;
  extended_pointer_fits = omega arith;
  stack_preservation_fits = omega arith;
  selector_start_fits = omega arith;
  selector_size_fits = omega arith;
  reserved1_fits = omega arith;
  reserved2_fits = omega arith;
  reserved3_fits = omega arith;
  reserved4_fits = omega arith;
}

fresh-IsMachine :
    (total : ℕ) (m : Memory) (ds : List Device)
    → IsWellFormed m
    → AreBytes m.blocks
    → m.total ≡ total
    → IsDevices ds
    → IsMachine total (fresh m ds)
fresh-IsMachine total m ds h b t d = record {
  memory = h;
  memory_bytes = b;
  memory_total = t;
  registers = initial-IsRegisters;
  streams = d;
  on_row = omega arith;
  on_screen = omega arith;
  old_pointer = omega arith;
  length_word = omega arith;
}

-- A device more keeps the streams in range, if its own are.
append-IsDevices :
    (ds : List Device) (d : Device)
    → IsDevices ds
    → IsBuffers d.buffers
    → IsDevices (ds ++ (d ∷ []))
append-IsDevices [] d h b = (b, tt)
append-IsDevices (x ∷ ds) d h b = (h.0, append-IsDevices ds d h.1 b)

add_disk-IsDevices :
    (files : Files) (port : ℕ) (tested name : List ℕ) (ds : List Device) {ds' : List Device}
    → IsDevices ds
    → add_disk files port tested name ds ≡ some ds'
    → IsDevices ds'
unfolding add_disk disk_imager
add_disk-IsDevices files port [] name ds h e = subst IsDevices (some_inj e) h
add_disk-IsDevices files port (x ∷ tested) name ds h e =
    let (file, p, q) =
      bind_cases (files name) (λ file. some (ds ++ (disk_imager port file ∷ []))) e in
    subst IsDevices (some_inj q)
      (append-IsDevices ds (disk_imager port file) h (tt, (tt, (tt, (tt, (tt, tt))))))

devices_of-IsDevices :
    (files : Files) (now : ℕ) (hdd fda fdb : List ℕ) {ds : List Device}
    → devices_of files now hdd fda fdb ≡ some ds
    → IsDevices ds
unfolding devices_of real_time_clock
devices_of-IsDevices files now hdd fda fdb e =
    let (d1, p1, e1) = bind_cases _ _ e in
    let (d2, p2, e2) = bind_cases _ _ e1 in
    let (d3, p3, e3) = bind_cases _ _ e2 in
    let h1 = add_disk-IsDevices files hard_disk hdd hdd [] tt p1 in
    let h2 = add_disk-IsDevices files floppy_a fda fda d1 h1 p2 in
    let h3 = add_disk-IsDevices files floppy_b fdb fda d2 h2 p3 in
    subst IsDevices (some_inj e3) (append-IsDevices d3 (real_time_clock now) h3 (tt, (tt, tt)))

pub construct_cases :
    (files : Files) (now total : ℕ) (bios hdd fda fdb : List ℕ) {c : Cpu}
    → construct files now total bios hdd fda fdb ≡ some c
    → (empty : Memory) × (m : Memory) × (ds : List Device) × (init total ≡ some empty)
      × (write_memory (blank empty).mem bios_start (take bios_size bios) ≡ some m)
      × (devices_of files now hdd fda fdb ≡ some ds)
      × (fresh m ds ≡ c)
unfolding construct
construct_cases files now total bios hdd fda fdb e =
    let (empty, p, e1) = bind_cases _ _ e in
    let (m, q, e2) = bind_cases _ _ e1 in
    let (ds, r, e3) = bind_cases _ _ e2 in (empty, m, ds, p, q, r, some_inj e3)

pub blank-IsMachine :
    (total : ℕ) (m : Memory)
    → total % block_size ≡ 0
    → total ≤ 2 ^ 63
    → init total ≡ some m
    → IsMachine total (blank m)
blank-IsMachine total m h k e =
    let (w, t) = init-IsWellFormed total h k e in
    on_video-IsMachine (fresh-IsMachine total m [] w (init-AreBytes total e) t tt) _
      (λ v. length-splice 0 (replicate (v_width * v_height) b' ') v)
      (λ v b.
        splice-IsBytes 0 (replicate (v_width * v_height) b' ') v
          (replicate-IsBytes (v_width * v_height) b' ' (omega arith)) b)

-- If the total is whole blocks and at most 2 ^ 63 and the BIOS image is of bytes, every machine
-- that the constructor makes is in range.
pub construct-IsMachine :
    (files : Files) (now total : ℕ) (bios hdd fda fdb : List ℕ) {c : Cpu}
    → total % block_size ≡ 0
    → total ≤ 2 ^ 63
    → IsBytes bios
    → construct files now total bios hdd fda fdb ≡ some c
    → IsMachine total c
construct-IsMachine files now total bios hdd fda fdb h k b e =
    let (empty, m, ds, p, q, r, s) = construct_cases files now total bios hdd fda fdb e in
    let w = blank-IsMachine total empty h k p in
    let kept =
      write_memory-KeepsMemory (blank empty).mem bios_start (take bios_size bios) w.memory
        w.memory_bytes (take-IsBytes bios_size bios b) q in
    subst (IsMachine total) s (
      fresh-IsMachine total m ds kept.well_formed kept.bytes (kept.same_total ∙ w.memory_total)
        (devices_of-IsDevices files now hdd fda fdb r))
