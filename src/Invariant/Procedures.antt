-- ===== src/Invariant/Procedures.antt =====
-- The table of procedures: every one keeps the machine.
use sysdarft.Invariant.Ports.{IsGood-in, IsGood-ins, IsGood-out, IsGood-outs}
use sysdarft.Invariant.Streams.{ReadsBytes}
use sysdarft.Invariant.Interruptions.{IsGood-iret}
use sysdarft.Invariant.Jumps.{
  IsGood-alwi, IsGood-call, IsGood-hlt, IsGood-igni, IsGood-int, IsGood-int3, IsGood-jmp,
  IsGood-jump_if, IsGood-loop, IsGood-ret,
}
use sysdarft.Invariant.Moves.{
  IsGood-enter, IsGood-lea, IsGood-leave, IsGood-mov, IsGood-movs, IsGood-pop_operand,
  IsGood-popall, IsGood-push_operand, IsGood-pushall, IsGood-xchg,
}
use sysdarft.Invariant.Bitwise.{
  IsGood-and, IsGood-not, IsGood-or, IsGood-rcl, IsGood-rcr, IsGood-rol, IsGood-ror, IsGood-shl,
  IsGood-shr, IsGood-xor,
}
use sysdarft.Invariant.Division.{IsGood-div, IsGood-idiv}
use sysdarft.Invariant.Arithmetic.{
  IsGood-adc, IsGood-add, IsGood-cmp, IsGood-dec, IsGood-imul, IsGood-inc, IsGood-mul, IsGood-neg,
  IsGood-sbb, IsGood-sub,
}
use sysdarft.Invariant.Operands.{IsOperand}
use sysdarft.Invariant.{Any, IsGood, IsMachine, returned}
use sysdarft.Machine.{Cpu, M}
use sysdarft.Execute.{arithmetic, control_flow, data_transfer, executor, io, logic, misc, or_else}
use sysdarft.Control.{jb, jbe, je, jl, jle, jne}
use sysdarft.Hub.{Host}
use sysdarft.Operand.{Operand}
use sysdarft.Base.{Bool, Option, false, if◌then◌else◌, none, not, some, true, ℕ, ◌==◌, ◌||◌}

-- A procedure that keeps the machine.
abbrev pub IsSafe : ℕ → M (Unit {0}) → Type 0
IsSafe total m = (c : Cpu) → IsMachine total c → IsGood total Any (m c)

abbrev pub IsSafeEntry : ℕ → Option (M (Unit {0})) → Type 0
IsSafeEntry total none = Unit
IsSafeEntry total (some m) = IsSafe total m

module _ (total : ℕ) where
  entry :
      (b : Bool) (x y : Option (M (Unit {0})))
      → IsSafeEntry total x
      → IsSafeEntry total y
      → IsSafeEntry total (if b then x else y)
  entry true x y h k = h
  entry false x y h k = k

  or_else-IsSafe :
      (x y : Option (M (Unit {0})))
      → IsSafeEntry total x
      → IsSafeEntry total y
      → IsSafeEntry total (or_else x y)
  or_else-IsSafe none y h k = k
  or_else-IsSafe (some m) y h k = h

module _ (total : ℕ) (opcode width : ℕ) (a b : Operand) (p : IsOperand a) (q : IsOperand b) where
  misc-IsSafe : IsSafeEntry total (misc opcode width a b)
  unfolding misc
  misc-IsSafe =
      entry total (opcode == 0x40) _ _ (λ c h. IsGood-hlt h)
        (entry total (opcode == 0x41) _ _ (λ c h. IsGood-igni h)
          (entry total (opcode == 0x42) _ _ (λ c h. IsGood-alwi h)
            (entry total (opcode == 0x00) _ _ (λ c h. returned tt h) tt)))

  arithmetic-IsSafe : IsSafeEntry total (arithmetic opcode width a b)
  unfolding arithmetic
  arithmetic-IsSafe =
      entry total (opcode == 0x01) _ _ (λ c h. IsGood-add a p h b q width)
        (entry total (opcode == 0x02) _ _ (λ c h. IsGood-adc a p h b q width)
          (entry total (opcode == 0x03) _ _ (λ c h. IsGood-sub a p h b q width)
            (entry total (opcode == 0x04) _ _ (λ c h. IsGood-sbb a p h b q width)
              (entry total (opcode == 0x05) _ _ (λ c h. IsGood-imul a p h width)
                (entry total (opcode == 0x06) _ _ (λ c h. IsGood-mul a p h width)
                  (entry total (opcode == 0x07) _ _ (λ c h. IsGood-idiv a p h width)
                    (entry total (opcode == 0x08) _ _ (λ c h. IsGood-div a p h width)
                      (entry total (opcode == 0x09) _ _ (λ c h. IsGood-neg a p h)
                        (entry total (opcode == 0x0A) _ _ (λ c h. IsGood-cmp a p h b q)
                          (entry total (opcode == 0x0B) _ _ (λ c h. IsGood-inc a p h width)
                            (entry total (opcode == 0x0C) _ _ (λ c h. IsGood-dec a p h width)
                              tt)))))))))))

  data_transfer-IsSafe : IsSafeEntry total (data_transfer opcode width a b)
  unfolding data_transfer
  data_transfer-IsSafe =
      entry total (opcode == 0x20) _ _ (λ c h. IsGood-mov h a p b q)
        (entry total (opcode == 0x21) _ _ (λ c h. IsGood-xchg h a p b q)
          (entry total (opcode == 0x22) _ _ (λ c h. IsGood-push_operand h a p width)
            (entry total (opcode == 0x23) _ _ (λ c h. IsGood-pop_operand h a p width)
              (entry total (opcode == 0x24) _ _ (λ c h. IsGood-pushall h)
                (entry total (opcode == 0x25) _ _ (λ c h. IsGood-popall h)
                  (entry total (opcode == 0x26) _ _ (λ c h. IsGood-enter h a p)
                    (entry total (opcode == 0x27) _ _ (λ c h. IsGood-leave h)
                      (entry total (opcode == 0x28) _ _ (λ c h. IsGood-movs h)
                        (entry total (opcode == 0x29) _ _ (λ c h. IsGood-lea h a p b q) tt)))))))))

  logic-IsSafe : IsSafeEntry total (logic opcode width a b)
  unfolding logic
  logic-IsSafe =
      entry total (opcode == 0x10) _ _ (λ c h. IsGood-and a b p q h)
        (entry total (opcode == 0x11) _ _ (λ c h. IsGood-or a b p q h)
          (entry total (opcode == 0x12) _ _ (λ c h. IsGood-xor a b p q h)
            (entry total (opcode == 0x13) _ _ (λ c h. IsGood-not a p h)
              (entry total (opcode == 0x14) _ _ (λ c h. IsGood-shl a b p q h)
                (entry total (opcode == 0x15) _ _ (λ c h. IsGood-shr a b p q h)
                  (entry total (opcode == 0x16) _ _ (λ c h. IsGood-rol a b p q h width)
                    (entry total (opcode == 0x17) _ _ (λ c h. IsGood-ror a b p q h width)
                      (entry total (opcode == 0x18) _ _ (λ c h. IsGood-rcl a b p q h width)
                        (entry total (opcode == 0x19) _ _ (λ c h. IsGood-rcr a b p q h width)
                          tt)))))))))

  control_flow-IsSafe : IsSafeEntry total (control_flow opcode width a b)
  unfolding control_flow je jne jb jl jbe jle
  control_flow-IsSafe =
      entry total (opcode == 0x30) _ _ (λ c h. IsGood-jmp h a p b q)
        (entry total (opcode == 0x31) _ _ (λ c h. IsGood-call h a p b q)
          (entry total (opcode == 0x32) _ _ (λ c h. IsGood-ret h)
            (entry total (opcode == 0x33) _ _ (λ c h. IsGood-jump_if h a p b q (λ fg. fg.equal))
              (entry total (opcode == 0x34) _ _
                (λ c h. IsGood-jump_if h a p b q (λ fg. not fg.equal))
                (entry total (opcode == 0x35) _ _
                  (λ c h. IsGood-jump_if h a p b q (λ fg. fg.larger_than))
                  (entry total (opcode == 0x36) _ _
                    (λ c h. IsGood-jump_if h a p b q (λ fg. fg.less_than))
                    (entry total (opcode == 0x37) _ _
                      (λ c h. IsGood-jump_if h a p b q (λ fg. fg.equal || fg.larger_than))
                      (entry total (opcode == 0x38) _ _
                        (λ c h. IsGood-jump_if h a p b q (λ fg. fg.equal || fg.less_than))
                        (entry total (opcode == 0x39) _ _ (λ c h. IsGood-int h a p)
                          (entry total (opcode == 0x3A) _ _ (λ c h. IsGood-int3 h)
                            (entry total (opcode == 0x3B) _ _ (λ c h. IsGood-iret h)
                              (entry total (opcode == 0x60) _ _ (λ c h. IsGood-loop h a p b q)
                                tt))))))))))))

  module _ (host : Host) (reads : ReadsBytes host) where
    io-IsSafe : IsSafeEntry total (io host opcode width a b)
    unfolding io
    io-IsSafe =
        entry total (opcode == 0x50) _ _ (λ c h. IsGood-in h host reads a p b)
          (entry total (opcode == 0x51) _ _ (λ c h. IsGood-out h host reads a p b q)
            (entry total (opcode == 0x52) _ _ (λ c h. IsGood-ins h host reads a p)
              (entry total (opcode == 0x53) _ _ (λ c h. IsGood-outs h host reads a p) tt)))

    pub executor-IsSafe : IsSafeEntry total (executor host opcode width a b)
    unfolding executor
    executor-IsSafe = or_else-IsSafe total _ _ misc-IsSafe (
        or_else-IsSafe total _ _ arithmetic-IsSafe (
          or_else-IsSafe total _ _ data_transfer-IsSafe (
            or_else-IsSafe total _ _ logic-IsSafe
              (or_else-IsSafe total _ _ control_flow-IsSafe io-IsSafe))))
