-- ===== src/Encoding/Addresses.antt =====
-- Encoded memory operands, decoded.
use sysdarft.Encoding.Operands.{
  constant_agrees, constant_value-lt, register_agrees, register_value_code,
}
use sysdarft.Encoding.Denotation.{
  constant_value, named_ratio, named_ratio_from, operand_of, parameter_value, register_operand,
  register_value, swapped,
}
use Prim.Native.String.{String}
use text.Mathlib.Text.{◌==◌ as str_eq}
use sysdarft.Base.{
  Bool, Bool-cases, List, Option, [], ap, bind_cases, false, if_false, if_true, if◌then◌else◌, inl,
  inr, length, none, none_ne_some, refl, some, some_inj, subst, sym, true, ℕ, ◌++◌, ◌>>=◌, ◌∙◌, ◌∷◌,
  ◌≡◌,
}
use sysdarft.Width.{Width, prefix}
use sysdarft.Registers.{Registers}
use sysdarft.Machine.{Cpu, add64, done, mul64}
use sysdarft.Operand.{Operand, decode_operand, memory, ratio_of, signed_offset}
use sysdarft.Operand.Decoding.{HasCode, advanced}
use sysdarft.Operand.Addressing.{
  IsParameterCode, constant_parameter, decode_operand-memory_code, memory_code,
}
use sysdarft.Encoding.Text.{without_digits}
use sysdarft.Encoding.{
  Tools, encode_constant, encode_memory, encode_parameter, encode_ratio, encode_register,
  memory_target, named_width, special_register,
}

encode_ratio_cases :
    (text : String) {k : ℕ}
    → named_ratio text ≡ some k
    → (ratio : ℕ) × (encode_ratio text ≡ ratio ∷ []) × (ratio_of ratio ≡ some k)
unfolding encode_ratio ratio_of
encode_ratio_cases text e =
    by_tests (str_eq text "1") (str_eq text "2") (str_eq text "4") (str_eq text "8")
      (str_eq text "16") e
  where
    by_tests :
        (one two four eight sixteen : Bool) {k : ℕ}
        → named_ratio_from one two four eight sixteen ≡ some k
        → (ratio : ℕ) × ((if one
              then 0x01 ∷ []
              else if two
              then 0x02 ∷ []
              else if four
              then 0x04 ∷ []
              else if eight
              then 0x08 ∷ []
              else if sixteen
              then 0x16 ∷ []
              else [])
            ≡ ratio ∷ [])
          × (ratio_of ratio ≡ some k)
    by_tests true two four eight sixteen e = (0x01, refl, e)
    by_tests false true four eight sixteen e = (0x02, refl, e)
    by_tests false false true eight sixteen e = (0x04, refl, e)
    by_tests false false false true sixteen e = (0x08, refl, e)
    by_tests false false false false true e = (0x16, refl, e)
    by_tests false false false false false e = absurd (none_ne_some e)

-- A register of an address is encoded as one of an operand.
encode_parameter_register :
    (tools : Tools) (param : String) {bytes : List ℕ}
    → tools.match_register param ≡ true
    → encode_parameter tools param ≡ some bytes
    → encode_register param ≡ some bytes
unfolding encode_parameter
encode_parameter_register tools param {bytes} m e =
    by_name (special_register param) (str_eq (without_digits param) "%FER")
      (sym (if_true (tools.match_register param) _ _ m) ∙ e)
  where
    by_name :
        (s : Option ℕ) (fer : Bool) {r : Option (List ℕ)}
        → (elim s [ some index ↦ r | none ↦ if fer then r else none ]) ≡ some bytes
        → r ≡ some bytes
    by_name (some index) fer e = e
    by_name none true e = e
    by_name none false e = absurd (none_ne_some e)

constant-IsParameterCode :
    (tools : Tools) (r : Registers) (o : Option (String × String)) {bytes : List ℕ} {x : ℕ × Width}
    → (elim o [ some (width, expression) ↦ encode_constant tools width expression | none ↦ none ])
      ≡ some bytes
    → (o >>= λ x. constant_value tools x.0 x.1 >>= swapped) ≡ some x
    → IsParameterCode r x.0 x.1 bytes
constant-IsParameterCode tools r none e f = absurd (none_ne_some e)
constant-IsParameterCode tools r (some (width, expression)) {bytes} e f =
    let (y, p, q) = bind_cases (constant_value tools width expression) swapped f in
    subst (λ (x : ℕ × Width). IsParameterCode r x.0 x.1 bytes) (some_inj q)
      (subst (IsParameterCode r y.1 y.0) (constant_agrees tools width expression e p)
        (constant_parameter y.0 y.1 (constant_value-lt tools width expression p)))

encode_parameter_code :
    (tools : Tools) (r : Registers) (param : String) {bytes : List ℕ} {x : ℕ × Width}
    → encode_parameter tools param ≡ some bytes
    → parameter_value tools r param ≡ some x
    → IsParameterCode r x.0 x.1 bytes
unfolding encode_parameter
encode_parameter_code tools r param {bytes} {x} e f =
    elim (Bool-cases (tools.match_register param)) [
      | inl is_register ↦
          let (y, p, q) =
            bind_cases (register_operand param) (register_value r)
              (sym (if_true (tools.match_register param) _ _ is_register) ∙ f) in
          subst (IsParameterCode r x.0 x.1)
            (register_agrees param (encode_parameter_register tools param is_register e) p)
            (register_value_code r y q)
      | inr other ↦
          constant-IsParameterCode tools r (tools.match_constant param)
            (sym (if_false (tools.match_register param) _ _ other) ∙ e)
            (sym (if_false (tools.match_register param) _ _ other) ∙ f)
    ]

-- The bytes of a memory target, its parts encoded.
abbrev bytes_from : String → Width → List ℕ → List ℕ → List ℕ → List ℕ
bytes_from ratio w b0 b1 b2 = 0x03 ∷ prefix w ∷ (b0 ++ (b1 ++ (b2 ++ encode_ratio ratio)))

encode_memory_cases :
    (tools : Tools) (ratio width base off1 off2 : String) {bytes : List ℕ}
    → encode_memory tools ratio width base off1 off2 ≡ some bytes
    → (w : Width) × (b0 : List ℕ) × (b1 : List ℕ) × (b2 : List ℕ) × (named_width width ≡ some w)
      × (encode_parameter tools base ≡ some b0)
      × (encode_parameter tools off1 ≡ some b1)
      × (encode_parameter tools off2 ≡ some b2)
      × (bytes_from ratio w b0 b1 b2 ≡ bytes)
unfolding encode_memory
encode_memory_cases tools ratio width base off1 off2 e =
    let end = λ (w : Width) (b0 b1 b2 : List ℕ). some (bytes_from ratio w b0 b1 b2) in
    let third = λ (w : Width) (b0 b1 : List ℕ). encode_parameter tools off2 >>= end w b0 b1 in
    let second = λ (w : Width) (b0 : List ℕ). encode_parameter tools off1 >>= third w b0 in
    let (w, p, e1) =
      bind_cases (named_width width) (λ w. encode_parameter tools base >>= second w) e in
    let (b0, p0, e2) = bind_cases (encode_parameter tools base) (second w) e1 in
    let (b1, p1, e3) = bind_cases (encode_parameter tools off1) (third w b0) e2 in
    let (b2, p2, e4) = bind_cases (encode_parameter tools off2) (end w b0 b1) e3 in
    (w, b0, b1, b2, p, p0, p1, p2, some_inj e4)

abbrev address_from : Width → ℕ × Width → ℕ × Width → ℕ × Width → ℕ → Operand
address_from w b x y k = memory (mul64 (add64 (add64 b.0 x.0) (signed_offset y.1 y.0)) k) (prefix w)

memory_operand_cases :
    (tools : Tools) (ratio width base off1 off2 : String) (r : Registers) {o : Operand}
    → operand_of tools r (memory_target ratio width base off1 off2) ≡ some o
    → (w : Width) × (b : ℕ × Width) × (x : ℕ × Width) × (y : ℕ × Width) × (k : ℕ) × (named_width
          width
        ≡ some w)
      × (parameter_value tools r base ≡ some b)
      × (parameter_value tools r off1 ≡ some x)
      × (parameter_value tools r off2 ≡ some y)
      × (named_ratio ratio ≡ some k)
      × (address_from w b x y k ≡ o)
memory_operand_cases tools ratio width base off1 off2 r e =
    let end = λ (w : Width) (b x y : ℕ × Width) (k : ℕ). some (address_from w b x y k) in
    let fourth = λ (w : Width) (b x y : ℕ × Width). named_ratio ratio >>= end w b x y in
    let third = λ (w : Width) (b x : ℕ × Width). parameter_value tools r off2 >>= fourth w b x in
    let second = λ (w : Width) (b : ℕ × Width). parameter_value tools r off1 >>= third w b in
    let (w, p, e1) =
      bind_cases (named_width width) (λ w. parameter_value tools r base >>= second w) e in
    let (b, p0, e2) = bind_cases (parameter_value tools r base) (second w) e1 in
    let (x, p1, e3) = bind_cases (parameter_value tools r off1) (third w b) e2 in
    let (y, p2, e4) = bind_cases (parameter_value tools r off2) (fourth w b x) e3 in
    let (k, q, e5) = bind_cases (named_ratio ratio) (end w b x y) e4 in
    (w, b, x, y, k, p, p0, p1, p2, q, some_inj e5)

pub decode_memory_lem :
    (tools : Tools) (ratio width base off1 off2 : String) (c : Cpu) {bytes : List ℕ} {o : Operand}
    → encode_memory tools ratio width base off1 off2 ≡ some bytes
    → operand_of tools c.regs (memory_target ratio width base off1 off2) ≡ some o
    → HasCode c bytes
    → decode_operand c ≡ (done o, advanced (length bytes) c)
decode_memory_lem tools ratio width base off1 off2 c {bytes} {o} e f h =
    let (w, b0, b1, b2, p, p0, p1, p2, q) =
      encode_memory_cases tools ratio width base off1 off2 e in
    let (w', b, x, y, k, p', q0, q1, q2, s, g) =
      memory_operand_cases tools ratio width base off1 off2 c.regs f in
    let (n, z, u) = encode_ratio_cases ratio s in
    let code : memory_code w b0 b1 b2 n ≡ bytes =
      ap (λ rs. 0x03 ∷ prefix w ∷ (b0 ++ (b1 ++ (b2 ++ rs)))) (sym z) ∙ q in
    let same : address_from w b x y k ≡ o =
      ap (λ v. address_from v b x y k) (some_inj (sym p ∙ p')) ∙ g in
    decode_operand-memory_code c w n (encode_parameter_code tools c.regs base p0 q0)
      (encode_parameter_code tools c.regs off1 p1 q1)
      (encode_parameter_code tools c.regs off2 p2 q2) u (subst (HasCode c) (sym code) h)
    ∙ (λ i. (done (same i), advanced (length (code i)) c))
