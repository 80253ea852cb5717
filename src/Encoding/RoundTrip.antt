-- ===== src/Encoding/RoundTrip.antt =====
-- Encoded operands and instructions, decoded.
use sysdarft.Execute.{decode_operands}
use sysdarft.Encoding.Instruction.{encode_operands, passes, without_brackets}
use sysdarft.Encoding.Addresses.{decode_memory_lem}
use sysdarft.Encoding.Operands.{constant_agrees, constant_value-lt, register_agrees}
use sysdarft.Encoding.Denotation.{constant_value, operand_of, operands_of, register_operand}
use Prim.Native.String.{String}
use sysdarft.Base.{
  Bool, List, Option, [], ap, arith, bind_cases, false, if◌then◌else◌, length, length-append, ltb,
  none, none_ne_some, refl, some, some_inj, subst, suc, sym, true, zero, ℕ, ◌++◌, ◌+◌, ◌>>=◌, ◌∙◌,
  ◌∷◌, ◌≡◌,
}
use sysdarft.Width.{Width, prefix}
use sysdarft.Registers.{load}
use sysdarft.Machine.{Cpu, done}
use sysdarft.Operand.{Operand, access_register, constant, decode_operand, register, special_value}
use sysdarft.Operand.Decoding.{
  HasCode, IsOperandCode, advanced, constant_code, decode_operand_lem, first_code, register_code,
  rest_code,
}
use sysdarft.Encoding.{
  ParsedTarget, Tools, constant_target, encode_parsed, encode_target, memory_target, parse,
  register_target,
}

-- If the encoder accepts a target, a register, a constant or an address, the target denotes an
-- operand where the machine stands, and its bytes lie in the memory at the instruction pointer,
-- then decoding gives that operand and moves the instruction pointer past those bytes.
pub decode-encode :
    (tools : Tools) (t : ParsedTarget) (c : Cpu) {bytes : List ℕ} {o : Operand}
    → encode_parsed tools t ≡ some bytes
    → operand_of tools c.regs t ≡ some o
    → HasCode c bytes
    → decode_operand c ≡ (done o, advanced (length bytes) c)
unfolding encode_parsed
decode-encode tools (register_target name) c {bytes} {o} e f h =
    let (x, p, q) = bind_cases (register_operand name) (λ x. some (register x.0 x.1)) f in
    decode_operand_lem c h (
      subst (λ z. IsOperandCode z bytes) (some_inj q)
        (subst (IsOperandCode (register x.0 x.1)) (register_agrees name e p)
          (register_code x.0 x.1)))
decode-encode tools (constant_target width expression) c {bytes} {o} e f h =
    let (x, p, q) =
      bind_cases (constant_value tools width expression) (λ x. some (constant x.1 (prefix x.0)))
        f in
    decode_operand_lem c h (
      subst (λ z. IsOperandCode z bytes) (some_inj q)
        (subst (IsOperandCode (constant x.1 (prefix x.0)))
          (constant_agrees tools width expression e p)
          (constant_code x.0 x.1 (constant_value-lt tools width expression p))))
decode-encode tools (memory_target ratio width base off1 off2) c e f h =
    decode_memory_lem tools ratio width base off1 off2 c e f h

-- Moving the instruction pointer does not change what a text means.
operand_of-advanced :
    (tools : Tools) (n : ℕ) (c : Cpu) (t : ParsedTarget)
    → operand_of tools (advanced n c).regs t ≡ operand_of tools c.regs t
unfolding access_register special_value load
operand_of-advanced tools n c (register_target name) = refl
operand_of-advanced tools n c (constant_target width expression) = refl
operand_of-advanced tools n c (memory_target ratio width base off1 off2) = refl

pub operands_of-advanced :
    (tools : Tools) (n : ℕ) (c : Cpu) (k : ℕ) (texts : List String)
    → operands_of tools (advanced n c).regs k texts ≡ operands_of tools c.regs k texts
unfolding operands_of
operands_of-advanced tools n c zero texts = refl
operands_of-advanced tools n c (suc k) [] = refl
operands_of-advanced tools n c (suc k) (text ∷ texts) = λ i.
    parse tools (without_brackets text) >>= λ t. operand_of-advanced tools n c t i >>= λ o.
    operands_of-advanced tools n c k texts i >>= λ os. some (o ∷ os)

-- A test that a result has passed.
module _ {A : Type 0} {x : A} where
  passed : (b : Bool) (o : Option A) → (if b then none else o) ≡ some x → o ≡ some x
  passed true o e = absurd (none_ne_some e)
  passed false o e = e

  pub held : (b : Bool) (o : Option A) → (if b then o else none) ≡ some x → o ≡ some x
  held true o e = e
  held false o e = absurd (none_ne_some e)

encode_target_cases :
    (tools : Tools) (text : String) {x : List ℕ × ParsedTarget}
    → encode_target tools text ≡ some x
    → (parse tools text ≡ some x.1) × (encode_parsed tools x.1 ≡ some x.0)
unfolding encode_target
encode_target_cases tools text {x} e =
    let pair = λ (t : ParsedTarget) (bytes : List ℕ). some (bytes, t) in
    let (t, p, e1) = bind_cases (parse tools text) (λ t. encode_parsed tools t >>= pair t) e in
    let (bytes, q, e2) = bind_cases (encode_parsed tools t) (pair t) e1 in
    subst
      (λ (x : List ℕ × ParsedTarget).
        (parse tools text ≡ some x.1) × (encode_parsed tools x.1 ≡ some x.0))
      (some_inj e2) (p, q)

pub decode_operands_lem :
    (tools : Tools) (width : Option Width) (needed provided k : ℕ) (texts : List String) (c : Cpu)
    {x : List ℕ × List ParsedTarget} {os : List Operand}
    → encode_operands tools width needed provided k texts ≡ some x
    → operands_of tools c.regs k texts ≡ some os
    → HasCode c x.0
    → decode_operands k c ≡ (done os, advanced (length x.0) c)
unfolding encode_operands operands_of decode_operands
decode_operands_lem tools width needed provided zero texts c {x} e f h =
    let n : length x.0 ≡ 0 =
      sym (ap (λ (y : List ℕ × List ParsedTarget). length y.0) (some_inj e)) in
    let l : c.regs.instruction_pointer ≡ c.regs.instruction_pointer + length x.0 =
      omega (arith, n) in
    λ i. (done (some_inj f i), record c { regs = record (c.regs) { instruction_pointer = l i } })
decode_operands_lem tools width needed provided (suc k) [] c e f h = absurd (none_ne_some e)
decode_operands_lem tools width needed provided (suc k) (text ∷ texts) c {x} {os} e f h =
    let later = encode_operands tools width needed provided k texts in
    let here = without_brackets text in
    let both = λ (first : List ℕ × ParsedTarget) (rest : List ℕ × List ParsedTarget).
      some (first.0 ++ rest.0, first.1 ∷ rest.1) in
    let (first, p, e1) =
      bind_cases (encode_target tools here)
        (λ first. (if passes width first.1 then later else none) >>= both first)
        (passed (ltb needed provided) _ (passed (ltb provided needed) _ e)) in
    let (rest, q, e2) = bind_cases (if passes width first.1 then later else none) (both first) e1 in
    let add = λ (o : Operand) (os : List Operand). some (o ∷ os) in
    let (t, p', f1) =
      bind_cases (parse tools here)
        (λ t. operand_of tools c.regs t >>= λ o. operands_of tools c.regs k texts >>= add o) f in
    let (o, q', f2) =
      bind_cases (operand_of tools c.regs t) (λ o. operands_of tools c.regs k texts >>= add o) f1 in
    let (os', r', f3) = bind_cases (operands_of tools c.regs k texts) (add o) f2 in
    let (s, enc) = encode_target_cases tools here p in
    let bytes : first.0 ++ rest.0 ≡ x.0 =
      ap (λ (y : List ℕ × List ParsedTarget). y.0) (some_inj e2) in
    let h' = subst (HasCode c) (sym bytes) h in
    let t_eq : first.1 ≡ t = some_inj (sym s ∙ p') in
    let d1 =
      decode-encode tools t c (subst (λ t. encode_parsed tools t ≡ some first.0) t_eq enc) q'
        (first_code first.0 rest.0 c h') in
    let d2 =
      decode_operands_lem tools width needed provided k texts (advanced (length first.0) c)
        (held (passes width first.1) _ q)
        (operands_of-advanced tools (length first.0) c k texts ∙ r')
        (rest_code first.0 rest.0 c h') in
    let l : c.regs.instruction_pointer + length first.0 + length rest.0
        ≡ c.regs.instruction_pointer + length x.0 =
      omega (arith, length-append first.0 rest.0, ap length bytes) in
    rw (d1, d2)
      (λ i.
        (done (some_inj f3 i), record c { regs = record (c.regs) { instruction_pointer = l i } }))
