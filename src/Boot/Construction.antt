-- ===== src/Boot/Construction.antt =====
-- The constructor of `SysdarftCPU` in src/cpu/SysdarftCPU.cpp, and those of the devices that it adds:
-- src/include/SysdarftDisks.inl, src/include/SysdarftDisks.h and src/ext_dev/RealTimeClock.cpp. The
-- files of the host are a parameter.
use sysdarft.Machine.{Cpu}
use sysdarft.Registers.{initial}
use sysdarft.Memory.{Memory, init, write_memory}
use sysdarft.Hub.{rtc_current_time, rtc_set_interrupt}
use sysdarft.Devices.{Device, clock, disk}
use sysdarft.Console.{on_video, v_height, v_width}
use sysdarft.Base.{
  splice, replicate, ◌*◌, ◌>>=◌, List, Option, [], false, length, some, take, true, ℕ, ◌++◌, ◌+◌,
  ◌-◌, ◌∷◌,
}

-- The bytes of the file of that name; `none` is a file that cannot be opened and locked.
abbrev pub Files : Type 0
Files = List ℕ → Option (List ℕ)

-- `SysdarftDiskImager`, with the ports of a derived class: five in a row.
unfoldable pub disk_imager : ℕ → List ℕ → Device
disk_imager port file = record {
  buffers = (port, []) ∷ (port + 1, []) ∷ (port + 2, []) ∷ (port + 3, []) ∷ (port + 4, []) ∷ [];
  state = disk (record {
    reg_size = port;
    reg_start_sec = port + 1;
    reg_sec_count = port + 2;
    cmd_request_rd = port + 3;
    cmd_request_wr = port + 4;
    start_sector = 0;
    sector_count = 0;
    device_size = length file;
    file = file;
  });
}

abbrev pub hard_disk : ℕ
hard_disk = 0x136

abbrev pub floppy_a : ℕ
floppy_a = 0x116

abbrev pub floppy_b : ℕ
floppy_b = 0x126

-- `add_device` of a disk, under the test of a name.
unfoldable pub add_disk : Files → ℕ → List ℕ → List ℕ → List Device → Option (List Device)
unfolding disk_imager
add_disk files port [] name devices = some devices
add_disk files port (x ∷ tested) name devices = do
  file ← files name
  some (devices ++ (disk_imager port file ∷ []))

-- `SysdarftRealTimeClock`, at a time of the host.
unfoldable pub real_time_clock : ℕ → Device
real_time_clock now = record {
  buffers = (rtc_current_time, []) ∷ (rtc_set_interrupt, []) ∷ [];
  state = clock (record {
    start_time = now;
    machine_time = now;
    interruption_scale = 0;
    interruption_number = 0;
  });
}

-- BIOS_START and BIOS_SIZE.
abbrev pub bios_start : ℕ
bios_start = 0xC1800

abbrev pub bios_size : ℕ
bios_size = 0xFFFFF - bios_start + 1

-- The devices, in the order of the constructor. The second floppy disk is the one of `fdb`, and its
-- file that of `fda`.
unfoldable pub devices_of : Files → ℕ → List ℕ → List ℕ → List ℕ → Option (List Device)
unfolding add_disk real_time_clock
devices_of files now hdd fda fdb = do
  with_hdd ← add_disk files hard_disk hdd hdd []
  with_fda ← add_disk files floppy_a fda fda with_hdd
  with_fdb ← add_disk files floppy_b fdb fda with_fda
  some (with_fdb ++ (real_time_clock now ∷ []))

-- The machine that the constructors of its base classes leave, but for memory and devices.
abbrev pub fresh : Memory → List Device → Cpu
fresh m devices = record {
  regs = initial;
  mem = m;
  devices = devices;
  halted = false;
  keyboard_abort = false;
  shutdown_requested = false;
  debugger_pause = false;
  int3_debug = false;
  requests = [];
  external_requested = false;
  pop_len = 0;
  ip_before_pop = 0;
  cursor_x = 0;
  cursor_y = 0;
  cursor_visible = true;
  input = [];
  translate_cr = false;
}

-- The machine whose screen is all spaces.
abbrev pub blank : Memory → Cpu
blank m = on_video (splice 0 (replicate (v_width * v_height) b' ')) (fresh m [])

-- `none` is an exception.
unfoldable pub construct : Files → ℕ → ℕ → List ℕ → List ℕ → List ℕ → List ℕ → Option Cpu
unfolding init devices_of write_memory
construct files now total bios hdd fda fdb = do
  empty ← init total
  m ← write_memory (blank empty).mem bios_start (take bios_size bios)
  devices ← devices_of files now hdd fda fdb
  some (fresh m devices)
