-- ===== src/Invariant/Ports.antt =====
-- Calls on devices, and the IO instructions.
use sysdarft.Invariant.Streams.{
  ReadsBytes, pop_stream-IsBytes, pop_stream-IsWord, request_read-LeavesBytes,
  request_write-LeavesBytes,
}
use sysdarft.Invariant.Operands.{IsOperand, IsGood-get_val, IsGood-set_val, IsGood-two_values}
use sysdarft.Invariant.{
  Any, IsBuffers, IsDevices, IsGood, IsMachine, IsWord, IsGood-bind, IsGood-if, IsGood-option,
  IsGood-or_throw, IsGood-read, IsGood-write, returned, threw,
}
use sysdarft.Machine.{Cpu, device_io_error, done, thrown}
use sysdarft.Devices.{Device, DeviceState}
use sysdarft.Hub.{
  Host, Reply, accepted, failed, has_port, hub_ins, hub_outs, in_, ins, leave_stream, on_device,
  out, outs, pop_stream, put_device, query_device, refused, request_read, request_write, set_stream,
  stream_at,
}
use sysdarft.Operand.{Operand}
use sysdarft.Width.{bit64}
use sysdarft.Registers.{load}
use sysdarft.Base.{
  Bool-cases, IsBytes, IsBytes-append, List, [], arith, inl, inr, le_bytes, le_bytes-IsBytes, leb,
  length, none_ne_some, some, some_inj, subst, ℕ, ◌++◌, ◌==◌, ◌^◌, ◌∷◌, ◌≡◌,
}

stream_at-IsBytes :
    (port : ℕ) (buffers : List (ℕ × List ℕ)) → IsBuffers buffers → IsBytes (stream_at port buffers)
unfolding stream_at
stream_at-IsBytes port [] h = tt
stream_at-IsBytes port ((p, s) ∷ buffers) h = elim (Bool-cases (port == p)) [
  | inl here ↦ rw here h.0
  | inr there ↦ rw there (stream_at-IsBytes port buffers h.1)
]

set_stream-IsBuffers :
    (port : ℕ) (s : List ℕ) (buffers : List (ℕ × List ℕ))
    → IsBytes s
    → IsBuffers buffers
    → IsBuffers (set_stream port s buffers)
unfolding set_stream
set_stream-IsBuffers port s [] b h = tt
set_stream-IsBuffers port s ((p, t) ∷ buffers) b h = elim (Bool-cases (port == p)) [
  | inl here ↦ rw here (b, h.1)
  | inr there ↦ rw there (h.0, set_stream-IsBuffers port s buffers b h.1)
]

query_device-IsBuffers :
    (port : ℕ) (ds : List Device) {d : Device}
    → IsDevices ds
    → query_device port ds ≡ some d
    → IsBuffers d.buffers
unfolding query_device
query_device-IsBuffers port [] h e = absurd (none_ne_some e)
query_device-IsBuffers port (x ∷ ds) {d} h e = elim (Bool-cases (has_port port x.buffers)) [
  | inl here ↦
      let q : x ≡ d = some_inj (rw (here, query_device) at e) in
      subst (λ (y : Device). IsBuffers y.buffers) q h.0
  | inr there ↦ query_device-IsBuffers port ds h.1 (rw (there, query_device) at e)
]

put_device-IsDevices :
    (port : ℕ) (d : Device) (ds : List Device)
    → IsBuffers d.buffers
    → IsDevices ds
    → IsDevices (put_device port d ds)
unfolding put_device
put_device-IsDevices port d [] b h = tt
put_device-IsDevices port d (x ∷ ds) b h = elim (Bool-cases (has_port port x.buffers)) [
  | inl here ↦ rw here (b, h.1)
  | inr there ↦ rw there (h.0, put_device-IsDevices port d ds b h.1)
]

module _ {total : ℕ} {c : Cpu} (h : IsMachine total c) where
  devices-IsMachine :
      (ds : List Device) → IsDevices ds → IsMachine total (record c { devices = ds })
  devices-IsMachine ds k = search

  IsGood-on_device :
      (port : ℕ) (call : DeviceState → List ℕ → Reply × DeviceState × List ℕ)
      → ((d : DeviceState) (s : List ℕ) → IsBytes s → IsBytes (call d s).2)
      → IsGood total IsBytes (on_device port call c)
  unfolding on_device
  IsGood-on_device port call k = IsGood-option (query_device port c.devices) (threw h) λ d e.
      let b = query_device-IsBuffers port c.devices h.streams e in
      let s = k d.state (stream_at port d.buffers) (stream_at-IsBytes port d.buffers b) in
      by_reply (call d.state (stream_at port d.buffers)).0 _ _ s (
        devices-IsMachine _ (
          put_device-IsDevices port _ c.devices (set_stream-IsBuffers port _ d.buffers s b)
            h.streams))
    where
      by_reply :
          (r : Reply) (s : List ℕ) (c' : Cpu)
          → IsBytes s
          → IsMachine total c'
          → IsGood total {A = List ℕ} IsBytes
              (elim r [ accepted ↦ (done s, c') | _ ↦ (thrown device_io_error, c') ])
      by_reply accepted s c' b m = returned b m
      by_reply refused s c' b m = threw m
      by_reply failed s c' b m = threw m

  IsGood-leave_stream :
      (port : ℕ) (s : List ℕ) → IsBytes s → IsGood total Any (leave_stream port s c)
  unfolding leave_stream
  IsGood-leave_stream port s b =
      IsGood-bind (IsGood-on_device port (λ state t. (accepted, state, s)) λ d t k. b)
        λ t c1 k h1. returned tt h1

  module _ (host : Host) (reads : ReadsBytes host) where
    IsGood-hub_ins : (port : ℕ) → IsGood total IsBytes (hub_ins host port c)
    unfolding hub_ins
    IsGood-hub_ins port =
        IsGood-on_device port (request_read host port)
          λ d s b. request_read-LeavesBytes s b port host reads d

    IsGood-hub_outs :
        (port : ℕ) (buffer : List ℕ)
        → IsBytes buffer
        → IsGood total Any (hub_outs host port buffer c)
    unfolding hub_outs
    IsGood-hub_outs port buffer b =
        IsGood-bind
          (IsGood-on_device port (λ state s. request_write host port state (s ++ buffer))
            λ d s k.
              request_write-LeavesBytes (s ++ buffer) (IsBytes-append s buffer k b) port host reads
                d)
          λ t c1 k h1. returned tt h1

module _ {total : ℕ} {c : Cpu} (h : IsMachine total c) (host : Host) (reads : ReadsBytes host)
    (a : Operand) (p : IsOperand a) where
  pub IsGood-in : (b : Operand) → IsGood total Any (in_ host a b c)
  unfolding in_
  IsGood-in b = IsGood-bind (IsGood-get_val a p h) λ port c1 k1 h1.
      IsGood-bind (IsGood-hub_ins h1 host reads port) λ s c2 k2 h2.
        IsGood-bind (IsGood-leave_stream h2 port (pop_stream s).1 (pop_stream-IsBytes s k2))
          λ u c3 k3 h3.
            IsGood-bind
              (IsGood-or_throw {P = IsWord} device_io_error (pop_stream s).0 h3
                λ v e. pop_stream-IsWord s k2 e)
              λ v c4 k4 h4. IsGood-set_val b v k4 h4

  pub IsGood-out : (b : Operand) → IsOperand b → IsGood total Any (out host a b c)
  unfolding out
  IsGood-out b q =
      IsGood-bind (IsGood-two_values a b p q h)
        λ x c1 k1 h1. IsGood-hub_outs h1 host reads x.0 (le_bytes 8 x.1) (le_bytes-IsBytes 8 x.1)

  pub IsGood-ins : IsGood total Any (ins host a c)
  unfolding ins
  IsGood-ins = IsGood-bind (IsGood-get_val a p h) λ port c1 k1 h1.
      IsGood-bind (IsGood-hub_ins h1 host reads port) λ s c2 k2 h2.
        IsGood-if (length s == load bit64 3 c.regs) _ _ c2
          (IsGood-bind (IsGood-leave_stream h2 port [] tt) λ u c3 k3 h3. IsGood-write h3 _ s k2)
          (threw h2)

  pub IsGood-outs : IsGood total Any (outs host a c)
  unfolding outs
  IsGood-outs = IsGood-bind (IsGood-get_val a p h) λ port c1 k1 h1.
      elim (Bool-cases (leb (2 ^ 63) (load bit64 3 c.regs))) [
        | inl large ↦ rw large (threw h1)
        | inr small ↦ rw small (
            IsGood-bind (IsGood-read h1 _ (load bit64 3 c.regs) (ground arith))
              λ s c2 k2 h2. IsGood-hub_outs h2 host reads port s k2.0)
      ]
