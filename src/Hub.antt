-- ===== src/Hub.antt =====
-- src/include/SysdarftIOHub.h, src/SysdarftIOHub.cpp, src/include/SysdarftDisks.inl, the request
-- handlers of src/ext_dev/RealTimeClock.cpp, and src/cpu/Operations/IOH.cpp. Each lock is taken and
-- released within one operation and is left out.
pub mod Sectors
use sysdarft.Base.{
  Bool, List, Option, [], drop, false, if◌then◌else◌, le_bytes, le_value, leb, length, ltb, none,
  some, take, ℕ, ◌%◌, ◌++◌, ◌/◌, ◌==◌, ◌^◌, ◌||◌, ◌∷◌,
}
use sysdarft.Devices.{Clock, Device, DeviceState, Disk, clock, disk}
use sysdarft.Registers.{load}
use sysdarft.Width.{bit64}
use sysdarft.Machine.{
  Cpu, M, add64, device_io_error, done, foreign, gets, mul64, no_such_device, or_throw, pure,
  read_bytes, sub64, throw, thrown, write_bytes, ◌>>=◌, ◌>>◌,
}
use sysdarft.Operand.{Operand, get_val, set_val}
use sysdarft.Interrupt.{max_entry}
use sysdarft.Alu.{two_values}

-- The host system: the seconds of its clock; the bytes that `lseek64` and `read` get from a file at
-- an offset, for a length; and the file after `lseek64` and `write`. `none` is a failed call.
pub record Host : Type 0 where
  pub now : ℕ
  pub read_file : List ℕ → ℕ → ℕ → Option (List ℕ)
  pub write_file : List ℕ → ℕ → List ℕ → Option (List ℕ)

-- `ControllerDataStream::pop<uint64_t>`: the number, or `none` for SysdarftDeviceIOError, and what
-- is left of the stream. The bytes of a number cut short are lost.
unfoldable pub pop_stream : List ℕ → Option ℕ × List ℕ
pop_stream s = if ltb (length s) 8 then (none, []) else (some (le_value (take 8 s)), drop 8 s)

-- `device_buffer.at(port)`, and the map with another stream there.
unfoldable pub stream_at : ℕ → List (ℕ × List ℕ) → List ℕ
stream_at port [] = []
stream_at port ((p, s) ∷ buffers) = if port == p then s else stream_at port buffers

unfoldable pub set_stream : ℕ → List ℕ → List (ℕ × List ℕ) → List (ℕ × List ℕ)
set_stream port s [] = []
set_stream port s ((p, t) ∷ buffers) =
    if port == p then (p, s) ∷ buffers else (p, t) ∷ set_stream port s buffers

-- `accepted` and `refused` are the results true and false; `failed` is SysdarftDeviceIOError.
pub data Reply : Type 0 where
  accepted refused failed : Reply

-- The range check of both commands, in `uint64_t`: it fails if the sectors end past the file.
unfoldable pub sectors_out_of_range : Disk → Bool
sectors_out_of_range d =
    ltb d.device_size (mul64 (add64 d.start_sector d.sector_count) 512)
    || (mul64 d.sector_count 512 == 0
        || ltb d.device_size (add64 (mul64 d.start_sector 512) (mul64 d.sector_count 512)))

-- `SysdarftDiskImager::request_read`. A stream is the one of the port that is asked.
unfoldable pub disk_read : Host → ℕ → Disk → List ℕ → Reply × Disk × List ℕ
unfolding sectors_out_of_range
disk_read host port d s =
    if port == d.reg_size
    then (accepted, d, s ++ le_bytes 8 (d.device_size / 512))
    else if port == d.cmd_request_rd
    then if sectors_out_of_range d
      then (refused, d, s)
      else elim (host.read_file d.file (mul64 d.start_sector 512) (mul64 d.sector_count 512)) [
        | none ↦ (refused, d, s)
        | some buffer ↦
            if length buffer == mul64 d.sector_count 512
            then (accepted, d, s ++ buffer)
            else (refused, d, s)
      ]
    else (refused, d, s)

-- A register of a device set to the number that was popped.
abbrev pub store_popped : {A : Type 0} → (ℕ → A) → A → Option ℕ × List ℕ → Reply × A × List ℕ
store_popped f a (none, rest) = (failed, a, rest)
store_popped f a (some v, rest) = (accepted, f v, rest)

-- `SysdarftDiskImager::request_write`.
unfoldable pub disk_write : Host → ℕ → Disk → List ℕ → Reply × Disk × List ℕ
unfolding sectors_out_of_range pop_stream
disk_write host port d s =
    if port == d.reg_start_sec
    then store_popped (λ v. record d { start_sector = v }) d (pop_stream s)
    else if port == d.reg_sec_count
    then store_popped (λ v. record d { sector_count = v }) d (pop_stream s)
    else if port == d.cmd_request_wr
    then if sectors_out_of_range d
      then (refused, d, s)
      else if length s == mul64 d.sector_count 512
      then elim (host.write_file d.file (mul64 d.start_sector 512) s) [
        | none ↦ (refused, d, s)
        | some file ↦ (accepted, record d { file = file }, [])
      ]
      else (refused, d, s)
    else (refused, d, s)

-- `RTC_CURRENT_TIME` and `RTC_SET_INTERRUPT`.
abbrev pub rtc_current_time : ℕ
rtc_current_time = 0x70

abbrev pub rtc_set_interrupt : ℕ
rtc_set_interrupt = 0x71

-- `SysdarftRealTimeClock::request_read`.
unfoldable pub clock_read : Host → ℕ → Clock → List ℕ → Reply × Clock × List ℕ
clock_read host port k s =
    if port == rtc_current_time
    then (accepted, k, s ++ le_bytes 8 (sub64 (add64 k.start_time host.now) k.machine_time))
    else (refused, k, s)

-- The port RTC_SET_INTERRUPT. The two masks of number and scale are remainders.
unfoldable pub set_interrupt : Clock → Option ℕ × List ℕ → Reply × Clock × List ℕ
set_interrupt k (none, rest) = (failed, k, rest)
set_interrupt k (some v, rest) =
    if leb (v % 256) 0x1F || ltb max_entry (v % 256)
    then (refused, k, rest)
    else if v / 256 % 2 ^ 30 == 0
    then (refused, k, rest)
    else (
      accepted,
      record k { interruption_scale = v / 256 % 2 ^ 30; interruption_number = v % 256 },
      rest,
    )

-- `SysdarftRealTimeClock::request_write`.
unfoldable pub clock_write : ℕ → Clock → List ℕ → Reply × Clock × List ℕ
unfolding pop_stream set_interrupt
clock_write port k s =
    if port == rtc_current_time
    then store_popped (λ v. record k { start_time = v }) k (pop_stream s)
    else if port == rtc_set_interrupt
    then set_interrupt k (pop_stream s)
    else (refused, k, s)

-- The virtual calls, on the stream of the port.
unfoldable pub request_read : Host → ℕ → DeviceState → List ℕ → Reply × DeviceState × List ℕ
unfolding disk_read clock_read
request_read host port (disk d) s = let (r, d', s') = disk_read host port d s in (r, disk d', s')
request_read host port (clock k) s = let (r, k', s') = clock_read host port k s in (r, clock k', s')

unfoldable pub request_write : Host → ℕ → DeviceState → List ℕ → Reply × DeviceState × List ℕ
unfolding disk_write clock_write
request_write host port (disk d) s = let (r, d', s') = disk_write host port d s in (r, disk d', s')
request_write host port (clock k) s = let (r, k', s') = clock_write port k s in (r, clock k', s')

abbrev pub has_port : ℕ → List (ℕ × List ℕ) → Bool
has_port port [] = false
has_port port ((p, s) ∷ buffers) = port == p || has_port port buffers

-- `query_device_based_on_port`: the first device with that port.
unfoldable pub query_device : ℕ → List Device → Option Device
query_device port [] = none
query_device port (d ∷ devices) =
    if has_port port d.buffers then some d else query_device port devices

-- The device list with that device changed.
unfoldable pub put_device : ℕ → Device → List Device → List Device
put_device port d' [] = []
put_device port d' (d ∷ devices) =
    if has_port port d.buffers then d' ∷ devices else d ∷ put_device port d' devices

-- A call on the device of a port: its stream and state are replaced by what the call leaves.
unfoldable pub on_device : ℕ → (DeviceState → List ℕ → Reply × DeviceState × List ℕ) → M (List ℕ)
unfolding query_device put_device stream_at set_stream
on_device port call c = elim (query_device port c.devices) [
  | none ↦ (thrown no_such_device, c)
  | some d ↦
      let (reply, state, s) = call d.state (stream_at port d.buffers) in
      let d' : Device = record { buffers = set_stream port s d.buffers; state = state } in
      let c' : Cpu = record c { devices = put_device port d' c.devices } in
      elim reply [ accepted ↦ (done s, c') | _ ↦ (thrown device_io_error, c') ]
]

-- `SysdarftIOHub::ins`. The stream that it returns is a reference into the device.
unfoldable pub hub_ins : Host → ℕ → M (List ℕ)
unfolding on_device request_read
hub_ins host port = on_device port (request_read host port)

-- `SysdarftIOHub::outs`: the buffer is appended, then the device is asked.
unfoldable pub hub_outs : Host → ℕ → List ℕ → M (Unit {0})
unfolding on_device request_write
hub_outs host port buffer = do
  s ← on_device port (λ state s. request_write host port state (s ++ buffer))
  pure tt

-- What a holder of the returned reference leaves in the stream.
unfoldable pub leave_stream : ℕ → List ℕ → M (Unit {0})
unfolding on_device
leave_stream port s = do s' ← on_device port (λ state _. (accepted, state, s)); pure tt

unfoldable pub in_ : Host → Operand → Operand → M (Unit {0})
unfolding get_val hub_ins pop_stream leave_stream set_val
in_ host a b = do
  port ← get_val a
  s ← hub_ins host port
  leave_stream port (pop_stream s).1
  v ← or_throw device_io_error (pop_stream s).0
  set_val b v

unfoldable pub out : Host → Operand → Operand → M (Unit {0})
unfolding two_values hub_outs
out host a b = do (port, v) ← two_values a b; hub_outs host port (le_bytes 8 v)

unfoldable pub ins : Host → Operand → M (Unit {0})
unfolding get_val hub_ins leave_stream write_bytes load
ins host a = do
  r ← gets (λ c. c.regs)
  port ← get_val a
  s ← hub_ins host port
  if length s == load bit64 3 r
      then (do leave_stream port []; write_bytes (add64 r.data_base r.data_pointer) s)
      else throw device_io_error

-- `wbuf.resize(CX)` throws std::length_error from 2 ^ 63 on; below that the host is taken to have
-- the room.
unfoldable pub outs : Host → Operand → M (Unit {0})
unfolding get_val hub_outs read_bytes load
outs host a = do
  r ← gets (λ c. c.regs)
  port ← get_val a
  if leb (2 ^ 63) (load bit64 3 r) then throw foreign else do
    s ← read_bytes (add64 r.data_base r.data_pointer) (load bit64 3 r)
    hub_outs host port s
