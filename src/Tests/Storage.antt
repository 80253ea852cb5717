-- ===== src/Tests/Storage.antt =====
-- Memory, disk and screen at concrete inputs.
use sysdarft.Base.{
  Bool-cases, List, [], arith, false, if◌then◌else◌, inl, inr, length, length-replicate,
  length-splice, ltb, none, none_ne_some, refl, replicate, slice, slice-splice_self, some, some_inj,
  splice, ℕ, ◌++◌, ◌+◌, ◌/◌, ◌∷◌, ◌≡◌, ◌≤◌,
}
use sysdarft.Memory.{Memory, block_size, init, out_of_bounds, read_memory, write_memory, zero_block}
use sysdarft.Memory.Flat.{contents, read_memory-eq-slice}
use sysdarft.Memory.Write.{IsWritten, write_in_range}
use sysdarft.Memory.Laws.{init_ragged, read-write_self}
use sysdarft.Devices.{Disk}
use sysdarft.Hub.{Host, accepted, disk_read, disk_write, sectors_out_of_range}
use sysdarft.Hub.Sectors.{IsFileSystem, disk_read-disk_write}
use sysdarft.Console.{scroll}
use sysdarft.Console.Scrolling.{scroll_lem}
use sysdarft.Tests.{small-IsWellFormed, small_memory}

abbrev four : List ℕ
four = 1 ∷ 2 ∷ 3 ∷ 4 ∷ []

read_memory-eq-slice_example :
    read_memory small_memory 4090 20
    ≡ (if ltb 8192 (4090 + 20) then none else some (slice 4090 20 (contents small_memory)))
read_memory-eq-slice_example =
    read_memory-eq-slice small_memory 4090 20 small-IsWellFormed (omega arith)

write_in_range_example :
    (m' : Memory) × (write_memory small_memory 4094 four ≡ some m')
    × IsWritten small_memory 4094 four m'
write_in_range_example =
    write_in_range small_memory 4094 four small-IsWellFormed (omega arith) (omega arith)

-- The write of the next two, across the border of two blocks.
written :
    (m' : Memory) × (write_memory small_memory 4094 four ≡ some m')
    × IsWritten small_memory 4094 four m'
written = write_in_range small_memory 4094 four small-IsWellFormed (omega arith) (omega arith)

read-write_self_example : read_memory written.0 4094 4 ≡ some four
read-write_self_example =
    read-write_self small_memory 4094 four small-IsWellFormed (omega arith) written.1

abbrev ragged : Memory
ragged = record { total = 5000; blocks = replicate 1 zero_block }

ragged_made : init 5000 ≡ some ragged
unfolding init
ragged_made = refl

init_ragged_example : (out_of_bounds ragged 4999 1 ≡ false) × (1 ≤ 4999 / block_size)
init_ragged_example = init_ragged 5000 (omega arith) (omega arith) ragged_made

scroll_lem_example :
    scroll (replicate 4096 b'a')
    ≡ splice 0 (slice 80 1920 (replicate 4096 b'a') ++ replicate 80 b' ') (replicate 4096 b'a')
scroll_lem_example =
    scroll_lem (replicate 4096 b'a') (omega (arith, length-replicate {A = ℕ} 4096 b'a'))

-- A host whose files do not grow.
abbrev test_host : Host
test_host = record {
  now = 0;
  read_file =
      λ file offset n. if ltb (length file) (offset + n) then none else some (slice offset n file);
  write_file = λ file offset bytes.
      if ltb (length file) (offset + length bytes) then none else some (splice offset bytes file);
}

test_host-IsFileSystem : IsFileSystem test_host
test_host-IsFileSystem file offset bytes file' e =
    elim (Bool-cases (ltb (length file) (offset + length bytes))) [
      | inl past ↦ absurd (none_ne_some (rw past at e))
      | inr fits ↦
          let p : splice offset bytes file ≡ file' = some_inj (rw fits at e) in
          rw (
            ← p,
            length-splice offset bytes file,
            fits,
            slice-splice_self offset bytes file (ground arith),
          )
    ]

-- The first floppy drive with a file of one sector.
abbrev test_disk : Disk
test_disk = record {
  reg_size = 0x116;
  reg_start_sec = 0x117;
  reg_sec_count = 0x118;
  cmd_request_rd = 0x119;
  cmd_request_wr = 0x11A;
  start_sector = 0;
  sector_count = 1;
  device_size = 512;
  file = replicate 512 0;
}

disk_write_accepts :
    disk_write test_host 0x11A test_disk (replicate 512 7)
    ≡ (accepted, record test_disk { file = replicate 512 7 }, [])
unfolding disk_write sectors_out_of_range
disk_write_accepts = refl

disk_read-disk_write_example :
    (◌≡◌ {A = List ℕ} [] [])
    × (disk_read test_host 0x119 (record test_disk { file = replicate 512 7 }) []
        ≡ (accepted, record test_disk { file = replicate 512 7 }, replicate 512 7))
disk_read-disk_write_example =
    disk_read-disk_write test_host test_disk (replicate 512 7) test_host-IsFileSystem (omega arith)
      (omega arith) (omega arith) disk_write_accepts
