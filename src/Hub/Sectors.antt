-- ===== src/Hub/Sectors.antt =====
-- Disks: sectors that were written are read back.
use sysdarft.Base.{
  Bool-cases, List, Option-cases, [], arith, eq_of_ne, eq_self, false, inl, inr, length, some,
  subst, sym, true, ℕ, ◌==◌, ◌≡◌, ◌≢◌,
}
use sysdarft.Devices.{Disk}
use sysdarft.Machine.{mul64}
use sysdarft.Hub.{Host, accepted, disk_read, disk_write, sectors_out_of_range}

-- A file written at an offset reads back there.
abbrev pub IsFileSystem : Host → Type 0
IsFileSystem host =
    (file : List ℕ) (offset : ℕ) (bytes : List ℕ) (file' : List ℕ)
    → host.write_file file offset bytes ≡ some file'
    → host.read_file file' offset (length bytes) ≡ some bytes

-- What an accepted write command has done.
record IsStored (host : Host) (d : Disk) (s : List ℕ) (d' : Disk) (t : List ℕ) : Type 0 where
  file : List ℕ
  in_range : sectors_out_of_range d ≡ false
  whole : (length s == mul64 d.sector_count 512) ≡ true
  stored : host.write_file d.file (mul64 d.start_sector 512) s ≡ some file
  disk_after : d' ≡ record d { file = file }
  stream_after : t ≡ []

disk_write-IsStored :
    (host : Host) (d : Disk) (s : List ℕ) {d' : Disk} {t : List ℕ}
    → d.cmd_request_wr ≢ d.reg_start_sec
    → d.cmd_request_wr ≢ d.reg_sec_count
    → disk_write host d.cmd_request_wr d s ≡ (accepted, d', t)
    → IsStored host d s d' t
unfolding disk_write
disk_write-IsStored host d s n1 n2 e =
    let p = rw (eq_of_ne _ _ n1, eq_of_ne _ _ n2, eq_self d.cmd_request_wr) at e in
    elim (Bool-cases (sectors_out_of_range d)) [
      | inl past ↦ absurd (cc (rw past at p))
      | inr ok ↦ elim (Bool-cases (length s == mul64 d.sector_count 512)) [
        | inr short ↦ absurd (cc (rw (ok, short) at p))
        | inl whole ↦ elim (Option-cases (host.write_file d.file (mul64 d.start_sector 512) s)) [
          | inl lost ↦ absurd (cc (rw (ok, whole, lost) at p))
          | inr (f, kept) ↦
              let q = rw (ok, whole, kept) at p in
              record {
                file = f;
                in_range = ok;
                whole = whole;
                stored = kept;
                disk_after = cc q;
                stream_after = cc q;
              }
        ]
      ]
    ]

disk_read-stored :
    (host : Host) (d : Disk) (s file : List ℕ)
    → d.cmd_request_rd ≢ d.reg_size
    → sectors_out_of_range d ≡ false
    → (length s == mul64 d.sector_count 512) ≡ true
    → host.read_file file (mul64 d.start_sector 512) (mul64 d.sector_count 512) ≡ some s
    → disk_read host d.cmd_request_rd (record d { file = file }) []
      ≡ (accepted, record d { file = file }, s)
unfolding disk_read sectors_out_of_range
disk_read-stored host d s file n ok whole r =
    rw (eq_of_ne _ _ n, eq_self d.cmd_request_rd, ok, r, whole)

-- If a file of the host reads back what was written to it, and a disk's write command is neither of
-- its other two writable ports and its read command not the port of its size, then a write command
-- that the disk accepts empties the stream, and a read command after it, for the same sectors,
-- gives the bytes back.
pub disk_read-disk_write :
    (host : Host) (d : Disk) (s : List ℕ) {d' : Disk} {t : List ℕ}
    → IsFileSystem host
    → d.cmd_request_wr ≢ d.reg_start_sec
    → d.cmd_request_wr ≢ d.reg_sec_count
    → d.cmd_request_rd ≢ d.reg_size
    → disk_write host d.cmd_request_wr d s ≡ (accepted, d', t)
    → (t ≡ []) × (disk_read host d.cmd_request_rd d' t ≡ (accepted, d', s))
disk_read-disk_write host d s {t = t} f n1 n2 n3 e =
    let p = disk_write-IsStored host d s n1 n2 e in
    let k : length s ≡ mul64 d.sector_count 512 = ground (arith, p.whole) in
    let r : host.read_file p.file (mul64 d.start_sector 512) (mul64 d.sector_count 512) ≡ some s =
      rw (← k) (f d.file (mul64 d.start_sector 512) s p.file p.stored) in
    let q = disk_read-stored host d s p.file n3 p.in_range p.whole r in
    (
      p.stream_after,
      subst (λ (x : Disk). disk_read host d.cmd_request_rd x t ≡ (accepted, x, s))
          (sym p.disk_after)
          (subst
            (λ (x : List ℕ).
              disk_read host d.cmd_request_rd (record d { file = p.file }) x
              ≡ (accepted, record d { file = p.file }, s))
            (sym p.stream_after) q),
    )
