-- ===== src/Devices.antt =====
-- The devices behind the IO hub: src/include/SysdarftIOHub.h, src/include/SysdarftDisks.h and
-- src/include/RealTimeClock.h.
use sysdarft.Base.{List, ℕ}

-- `SysdarftDiskImager`: its five template parameters, its registers, and the bytes of its file.
pub record Disk : Type 0 where
  pub reg_size : ℕ
  pub reg_start_sec : ℕ
  pub reg_sec_count : ℕ
  pub cmd_request_rd : ℕ
  pub cmd_request_wr : ℕ
  pub start_sector : ℕ
  pub sector_count : ℕ
  pub device_size : ℕ
  pub file : List ℕ

-- `SysdarftRealTimeClock`, with its times in seconds.
pub record Clock : Type 0 where
  pub start_time : ℕ
  pub machine_time : ℕ
  pub interruption_scale : ℕ
  pub interruption_number : ℕ

-- The classes derived from `SysdarftExternalDeviceBaseClass`.
pub data DeviceState : Type 0 where
  disk : Disk → DeviceState
  clock : Clock → DeviceState

-- `device_buffer` maps a port to its stream of bytes, oldest first.
pub record Device : Type 0 where
  pub buffers : List (ℕ × List ℕ)
  pub state : DeviceState
