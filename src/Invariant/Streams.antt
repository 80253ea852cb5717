-- ===== src/Invariant/Streams.antt =====
-- What the devices behind the IO hub leave in their streams.
use sysdarft.Invariant.{IsWord}
use sysdarft.Machine.{mul64}
use sysdarft.Devices.{Clock, DeviceState, Disk, clock, disk}
use sysdarft.Interrupt.{max_entry}
use sysdarft.Hub.{
  Host, Reply, clock_read, clock_write, disk_read, disk_write, pop_stream, request_read,
  request_write, rtc_current_time, rtc_set_interrupt, sectors_out_of_range, set_interrupt,
  store_popped,
}
use sysdarft.Width.{bit64, width_bound}
use sysdarft.Base.{
  Bool, Bool-cases, IsBytes, IsBytes-append, List, Option, Option-cases, drop-IsBytes, false,
  if◌then◌else◌, inl, inr, le_bytes, le_bytes-IsBytes, le_value, leb, length, length-slice_le, ltb,
  none, none_ne_some, slice, slice-IsBytes, some, some_inj, true, ℕ, ◌%◌, ◌++◌, ◌/◌, ◌==◌, ◌^◌,
  ◌||◌, ◌≡◌,
}

-- `read` fills the buffer with bytes, whatever the file.
abbrev pub ReadsBytes : Host → Type 0
ReadsBytes host =
    (file : List ℕ) (offset size : ℕ) (bs : List ℕ)
    → host.read_file file offset size ≡ some bs
    → IsBytes bs

-- A reply of a device: the stream that it leaves holds bytes.
abbrev LeavesBytes : {A : Type 0} → Reply × A × List ℕ → Type 0
LeavesBytes x = IsBytes x.2

pub pop_stream-IsBytes : (s : List ℕ) → IsBytes s → IsBytes (pop_stream s).1
unfolding pop_stream
pop_stream-IsBytes s h = elim (Bool-cases (ltb (length s) 8)) [
  | inl short ↦ rw short tt
  | inr enough ↦ rw enough (drop-IsBytes 8 s h)
]

pub pop_stream-IsWord : (s : List ℕ) {v : ℕ} → IsBytes s → (pop_stream s).0 ≡ some v → IsWord v
unfolding pop_stream
pop_stream-IsWord s {v} h e = elim (Bool-cases (ltb (length s) 8)) [
  | inl short ↦ absurd (none_ne_some (rw (short, pop_stream) at e))
  | inr enough ↦
      let q : le_value (slice 0 8 s) ≡ v = some_inj (rw (enough, pop_stream) at e) in
      rw q at (width_bound bit64 (slice 0 8 s) (slice-IsBytes 0 8 s h) (length-slice_le 0 8 s))
]

module _ {A : Type 0} (P : A → Type 0) where
  if-case : (b : Bool) {x y : A} → P x → P y → P (if b then x else y)
  if-case true h k = h
  if-case false h k = k

store_popped-LeavesBytes :
    {A : Type 0} (f : ℕ → A) (a : A) (x : Option ℕ × List ℕ)
    → IsBytes x.1
    → LeavesBytes (store_popped f a x)
store_popped-LeavesBytes f a (none, rest) h = h
store_popped-LeavesBytes f a (some v, rest) h = h

module _ (s : List ℕ) (h : IsBytes s) (port : ℕ) where
  number-IsBytes : (v : ℕ) → IsBytes (s ++ le_bytes 8 v)
  number-IsBytes v = IsBytes-append s (le_bytes 8 v) h (le_bytes-IsBytes 8 v)

  clock_write-LeavesBytes : (k : Clock) → LeavesBytes (clock_write port k s)
  unfolding clock_write set_interrupt
  clock_write-LeavesBytes k =
      if-case LeavesBytes (port == rtc_current_time)
        (store_popped-LeavesBytes (λ v. record k { start_time = v }) k (pop_stream s)
          (pop_stream-IsBytes s h))
        (if-case LeavesBytes (port == rtc_set_interrupt)
          (setting (pop_stream s) (pop_stream-IsBytes s h)) h)
    where
      setting : (x : Option ℕ × List ℕ) → IsBytes x.1 → LeavesBytes (set_interrupt k x)
      setting (none, rest) h = h
      setting (some v, rest) h =
          if-case LeavesBytes (leb (v % 256) 0x1F || ltb max_entry (v % 256)) h
            (if-case LeavesBytes (v / 256 % 2 ^ 30 == 0) h h)

  module _ (host : Host) (reads : ReadsBytes host) where
    clock_read-LeavesBytes : (k : Clock) → LeavesBytes (clock_read host port k s)
    unfolding clock_read
    clock_read-LeavesBytes k = if-case LeavesBytes (port == rtc_current_time) (number-IsBytes _) h

    disk_read-LeavesBytes : (d : Disk) → LeavesBytes (disk_read host port d s)
    unfolding disk_read
    disk_read-LeavesBytes d =
        if-case LeavesBytes (port == d.reg_size) (number-IsBytes (d.device_size / 512)) (
          if-case LeavesBytes (port == d.cmd_request_rd)
            (if-case LeavesBytes (sectors_out_of_range d) h
              (elim (Option-cases
                (host.read_file d.file (mul64 d.start_sector 512) (mul64 d.sector_count 512))) [
                  | inl lost ↦ rw lost h
                  | inr (buffer, e) ↦ rw e (
                      if-case LeavesBytes (length buffer == mul64 d.sector_count 512)
                        (IsBytes-append s buffer h (reads d.file _ _ buffer e)) h)
                ]))
            h)

    disk_write-LeavesBytes : (d : Disk) → LeavesBytes (disk_write host port d s)
    unfolding disk_write
    disk_write-LeavesBytes d =
        if-case LeavesBytes (port == d.reg_start_sec)
          (store_popped-LeavesBytes (λ v. record d { start_sector = v }) d (pop_stream s)
            (pop_stream-IsBytes s h))
          (if-case LeavesBytes (port == d.reg_sec_count)
            (store_popped-LeavesBytes (λ v. record d { sector_count = v }) d (pop_stream s)
              (pop_stream-IsBytes s h))
            (if-case LeavesBytes (port == d.cmd_request_wr)
              (if-case LeavesBytes (sectors_out_of_range d) h (
                if-case LeavesBytes (length s == mul64 d.sector_count 512)
                  (elim (Option-cases (host.write_file d.file (mul64 d.start_sector 512) s)) [
                    | inl lost ↦ rw lost h
                    | inr (file, e) ↦ rw e tt
                  ])
                  h))
              h))

    pub request_read-LeavesBytes : (d : DeviceState) → LeavesBytes (request_read host port d s)
    unfolding request_read
    request_read-LeavesBytes (disk d) = disk_read-LeavesBytes d
    request_read-LeavesBytes (clock k) = clock_read-LeavesBytes k

    pub request_write-LeavesBytes : (d : DeviceState) → LeavesBytes (request_write host port d s)
    unfolding request_write
    request_write-LeavesBytes (disk d) = disk_write-LeavesBytes d
    request_write-LeavesBytes (clock k) = clock_write-LeavesBytes k
