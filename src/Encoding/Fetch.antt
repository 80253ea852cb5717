-- ===== src/Encoding/Fetch.antt =====
-- Encoded instructions, fetched.
use sysdarft.Encoding.RoundTrip.{decode_operands_lem, held, operands_of-advanced}
use sysdarft.Operand.{Operand}
use sysdarft.Encoding.Sanity.{is_sane}
use sysdarft.Encoding.{ParsedTarget, Tools}
use sysdarft.Operand.Access.{width_of-prefix}
use sysdarft.Encoding.Denotation.{instruction_of, operands_of, width_code}
use sysdarft.Encoding.Instruction.{
  encode_instruction, encode_operands, encode_width, encode_width_specifier, find_name,
}
use sysdarft.Operand.Decoding.{HasCode, advanced, first_code, pop_byte, rest_code}
use sysdarft.Width.{Width, prefix}
use sysdarft.Machine.{Cpu, M, done, or_throw}
use sysdarft.Execute.{ActiveInstruction, decode_width, pop_instruction}
use sysdarft.Instructions.{Instruction, find_opcode, instruction_map}
use sysdarft.Base.{
  Bool-cases, List, Option, [], ap, arith, bind_cases, bind_known, eq_self, false, if_false,
  if_true, if◌then◌else◌, inl, inr, length, length-append, none, none_ne_some, refl, some, some_inj,
  subst, sym, true, ℕ, ◌++◌, ◌+◌, ◌==◌, ◌>>=◌, ◌∙◌, ◌∷◌, ◌≡◌, ◌⊎◌,
}
use text.Mathlib.Text.{◌==◌ as str_eq}
use Prim.Native.String.{String}

-- No opcode stands in two rows.
abbrev AreDistinct : List Instruction → Type 0
AreDistinct [] = Unit
AreDistinct (i ∷ rows) = (find_opcode i.opcode rows ≡ none) × AreDistinct rows

instruction_map-AreDistinct : AreDistinct instruction_map
unfolding find_opcode
instruction_map-AreDistinct = search

-- The row of a name is the row of its opcode.
find_opcode_of_name :
    (name : String) (rows : List Instruction) {row : Instruction}
    → AreDistinct rows
    → find_name name rows ≡ some row
    → find_opcode row.opcode rows ≡ some row
unfolding find_name find_opcode
find_opcode_of_name name [] d e = absurd (none_ne_some e)
find_opcode_of_name name (i ∷ rows) {row} d e = elim (Bool-cases (str_eq i.name name)) [
  | inl named ↦
      let q : i ≡ row = some_inj (sym (if_true (str_eq i.name name) _ _ named) ∙ e) in
      subst (λ (r : Instruction). find_opcode r.opcode (i ∷ rows) ≡ some r) q (first_row i)
  | inr other ↦
      let r =
        find_opcode_of_name name rows d.1 (sym (if_false (str_eq i.name name) _ _ other) ∙ e) in
      elim (Bool-cases (i.opcode == row.opcode)) [
        | inl same ↦
            let q : i.opcode ≡ row.opcode = ground arith in
            absurd (none_ne_some (sym d.0 ∙ ap (λ o. find_opcode o rows) q ∙ r))
        | inr apart ↦ if_false (i.opcode == row.opcode) _ _ apart ∙ r
      ]
]
  where
    first_row :
        (i : Instruction)
        → (if i.opcode == i.opcode then some i else find_opcode i.opcode rows) ≡ some i
    first_row i = if_true (i.opcode == i.opcode) _ _ (eq_self i.opcode)

no_width : (n : ℕ) (c : Cpu) → (n == 0) ≡ true → decode_width n c ≡ (done 0, advanced 0 c)
unfolding decode_width
no_width n c z =
    let l : c.regs.instruction_pointer ≡ c.regs.instruction_pointer + 0 = omega arith in
    ap {A = M ℕ} (λ f. f c) (if_true (n == 0) _ _ z)
    ∙ (λ i. (done 0, record c { regs = record (c.regs) { instruction_pointer = l i } }))

with_width :
    (n : ℕ) (w : Width) (c : Cpu)
    → (n == 0) ≡ false
    → HasCode c (prefix w ∷ [])
    → decode_width n c ≡ (done (prefix w), advanced 1 c)
unfolding decode_width
with_width n w c z h =
    ap {A = M ℕ} (λ f. f c) (if_false (n == 0) _ _ z)
    ∙ rw ((pop_byte (prefix w) [] c h).0, width_of-prefix w, or_throw) refl

-- What the encoder does with the width, without the test of its texts.
encode_width_cases :
    (row : Instruction) (texts : List String) {head : Option Width × List ℕ × List String}
    → encode_width row texts ≡ some head
    → (((row.needs_width == 0) ≡ true) × ((none, [], texts) ≡ head))
      ⊎ (((row.needs_width == 0) ≡ false)
          × ((w : Width) × (rest : List String) × ((some w, prefix w ∷ [], rest) ≡ head)))
unfolding encode_width
encode_width_cases row [] e = elim (Bool-cases (row.needs_width == 0)) [
  | inl z ↦ inl (z, some_inj (sym (if_true (row.needs_width == 0) _ _ z) ∙ e))
  | inr s ↦ absurd (none_ne_some (sym (if_false (row.needs_width == 0) _ _ s) ∙ e))
]
encode_width_cases row (text ∷ texts) e = elim (Bool-cases (row.needs_width == 0)) [
  | inl z ↦ inl (z, some_inj (sym (if_true (row.needs_width == 0) _ _ z) ∙ e))
  | inr s ↦
      let (w, p, q) =
        bind_cases (encode_width_specifier text) (λ w. some (some w, prefix w ∷ [], texts))
          (sym (if_false (row.needs_width == 0) _ _ s) ∙ e) in
      inr (s, (w, texts, some_inj q))
]

decode_width_lem :
    (row : Instruction) (texts : List String) (c : Cpu) {head : Option Width × List ℕ × List String}
    → encode_width row texts ≡ some head
    → HasCode c head.1
    → decode_width row.needs_width c ≡ (done (width_code head.0), advanced (length head.1) c)
decode_width_lem row texts c {head} e h =
    let Decodes = λ (y : Option Width × List ℕ × List String).
      HasCode c y.1
      → decode_width row.needs_width c ≡ (done (width_code y.0), advanced (length y.1) c) in
    elim (encode_width_cases row texts e) [
      | inl (z, q) ↦ subst Decodes q (λ h. no_width row.needs_width c z) h
      | inr (s, (w, rest, q)) ↦ subst Decodes q (λ h. with_width row.needs_width w c s h) h
    ]

-- If the encoder accepts a line, every text of an operand denotes an operand where the machine
-- stands (its registers exist, and its ratio is known), and the bytes lie in the memory at the
-- instruction pointer, then the machine fetches the instruction that the line denotes: the opcode
-- of the name, the width, and the operands with constants cut to their widths and addresses
-- computed from the registers; and the instruction pointer moves past those bytes.
pub pop_instruction-encode :
    (tools : Tools) (name : String) (texts : List String) (c : Cpu) {bytes : List ℕ}
    {i : ActiveInstruction}
    → encode_instruction tools name texts ≡ some bytes
    → instruction_of tools c.regs name texts ≡ some i
    → HasCode c bytes
    → pop_instruction c ≡ (done i, advanced (length bytes) c)
unfolding encode_instruction instruction_of pop_instruction
pop_instruction-encode tools name texts c {bytes} {i} e f h =
    let ended =
      λ (row : Instruction) (head : Option Width × List ℕ × List String)
          (operands : List ℕ × List ParsedTarget).
        if is_sane row.opcode operands.1
        then some (row.opcode ∷ (head.1 ++ operands.0))
        else none in
    let operated = λ (row : Instruction) (head : Option Width × List ℕ × List String).
      encode_operands tools head.0 row.argument_count (length head.2) row.argument_count head.2
      >>= ended row head in
    let denoted =
      λ (row : Instruction) (head : Option Width × List ℕ × List String) (os : List Operand).
        some (record { opcode = row.opcode; width = width_code head.0; operands = os }) in
    let meant = λ (row : Instruction) (head : Option Width × List ℕ × List String).
      operands_of tools c.regs row.argument_count head.2 >>= denoted row head in
    let (row, p, e1) =
      bind_cases (find_name name instruction_map) (λ row. encode_width row texts >>= operated row)
        e in
    let (head, q, e2) = bind_cases (encode_width row texts) (operated row) e1 in
    let (operands, r, e3) = bind_cases _ (ended row head) e2 in
    let bytes_eq = some_inj (held (is_sane row.opcode operands.1) _ e3) in
    let f1 = bind_known (λ row. encode_width row texts >>= meant row) p f in
    let f2 = bind_known (meant row) q f1 in
    let (os, r', f3) =
      bind_cases (operands_of tools c.regs row.argument_count head.2) (denoted row head) f2 in
    let (p1, h1) =
      pop_byte row.opcode (head.1 ++ operands.0) c (subst (HasCode c) (sym bytes_eq) h) in
    let c1 = advanced 1 c in
    let fo = find_opcode_of_name name instruction_map instruction_map-AreDistinct p in
    let dw = decode_width_lem row texts c1 q (first_code head.1 operands.0 c1 h1) in
    let same =
      operands_of-advanced tools (length head.1) c1 row.argument_count head.2
      ∙ operands_of-advanced tools 1 c row.argument_count head.2 in
    let dops =
      decode_operands_lem tools head.0 row.argument_count (length head.2) row.argument_count head.2
        (advanced (length head.1) c1) r (same ∙ r') (rest_code head.1 operands.0 c1 h1) in
    let l : c.regs.instruction_pointer + 1 + length head.1 + length operands.0
        ≡ c.regs.instruction_pointer + length bytes =
      omega (arith, length-append head.1 operands.0, ap length bytes_eq) in
    rw (p1, fo, or_throw, dw, dops)
      (λ i.
        (done (some_inj f3 i), record c { regs = record (c.regs) { instruction_pointer = l i } }))
