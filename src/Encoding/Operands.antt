-- ===== src/Encoding/Operands.antt =====
-- Encoded registers and constants.
use sysdarft.Encoding.Denotation.{constant_value, operand_from, register_operand, register_value}
use Prim.Native.String.{String}
use text.Mathlib.Text.{◌==◌ as str_eq}
use native.Mathlib.Nat.{mod-lt}
use sysdarft.Logic.Carry.{positive}
use sysdarft.Base.{
  Bool-cases, List, Option, [], ap, bind_cases, bind_some, if_false, inl, inr, le_bytes,
  le_bytes-IsBytes, le_bytes-le_value, length-le_bytes, none, none_ne_some, refl, some, some_inj,
  subst, sym, ℕ, ◌%◌, ◌<◌, ◌>>=◌, ◌∙◌, ◌∷◌, ◌≡◌,
}
use sysdarft.Width.{Width, bit64, le_value-le_bytes_width, modulus, prefix, width_bytes, width_of}
use sysdarft.Registers.{Registers}
use sysdarft.Operand.{access_register}
use sysdarft.Operand.Addressing.{IsParameterCode, register_parameter}
use sysdarft.Encoding.{
  Tools, encode_constant, encode_register, named_width, register_index, register_width,
  special_register,
}

register_cases :
    (s : Option ℕ) (o : Option Width) (index : ℕ) {bytes : List ℕ}
    → (elim s [
      | some special ↦ some (0x01 ∷ prefix bit64 ∷ special ∷ [])
      | none ↦ elim o [ some w ↦ some (0x01 ∷ prefix w ∷ index ∷ []) | none ↦ none ]
    ])
      ≡ some bytes
    → (x : ℕ × ℕ) × (operand_from s o index ≡ some x) × (0x01 ∷ x.0 ∷ x.1 ∷ [] ≡ bytes)
register_cases (some special) o index e = ((prefix bit64, special), refl, some_inj e)
register_cases none (some w) index e = ((prefix w, index), refl, some_inj e)
register_cases none none index e = absurd (none_ne_some e)

encode_register_cases :
    (name : String) {bytes : List ℕ}
    → encode_register name ≡ some bytes
    → (x : ℕ × ℕ) × (register_operand name ≡ some x) × (0x01 ∷ x.0 ∷ x.1 ∷ [] ≡ bytes)
unfolding encode_register
encode_register_cases name e =
    register_cases (special_register name) (register_width name) (register_index name) e

cut_bytes :
    (w : Width) (v : ℕ) → le_bytes (width_bytes w) (v % modulus w) ≡ le_bytes (width_bytes w) v
cut_bytes w v =
    let k = width_bytes w in
    let h = le_bytes-le_value (le_bytes k v) (le_bytes-IsBytes k v) in
    rw (length-le_bytes k v, le_value-le_bytes_width w v) at h

encode_constant_cases :
    (tools : Tools) (width expression : String) {bytes : List ℕ}
    → encode_constant tools width expression ≡ some bytes
    → (x : Width × ℕ) × (constant_value tools width expression ≡ some x)
      × (0x02 ∷ prefix x.0 ∷ le_bytes (width_bytes x.0) x.1 ≡ bytes)
unfolding encode_constant
encode_constant_cases tools width expression {bytes} e = elim (Bool-cases (str_eq expression "")) [
  | inl empty ↦ absurd (none_ne_some (rw (empty, encode_constant) at e))
  | inr given ↦
      let last =
        λ (w : Width) (number : ℕ). some (0x02 ∷ prefix w ∷ le_bytes (width_bytes w) number) in
      let cut = λ (w : Width) (number : ℕ). some (w, number % modulus w) in
      let (result, p, e1) =
        bind_cases (tools.evaluate expression)
          (λ result. named_width width >>= λ w. tools.read_number result >>= last w)
          (sym (if_false (str_eq expression "") none _ given) ∙ e) in
      let (w, q, e2) =
        bind_cases (named_width width) (λ w. tools.read_number result >>= last w) e1 in
      let (number, r, e3) = bind_cases (tools.read_number result) (last w) e2 in
      (
        (w, number % modulus w),
        bind_some (λ result. named_width width >>= λ w. tools.read_number result >>= cut w) p
            (bind_some (λ w. tools.read_number result >>= cut w) q (bind_some (cut w) r refl)),
        ap (λ bs. 0x02 ∷ prefix w ∷ bs) (cut_bytes w number) ∙ some_inj e3,
      )
]

pub register_value_code :
    (r : Registers) (x : ℕ × ℕ) {y : ℕ × Width}
    → register_value r x ≡ some y
    → IsParameterCode r y.0 y.1 (0x01 ∷ x.0 ∷ x.1 ∷ [])
register_value_code r x e =
    let (v, a, e1) =
      bind_cases (access_register x.0 x.1 r) (λ v. width_of x.0 >>= λ w. some (v, w)) e in
    let (w, u, e2) = bind_cases (width_of x.0) (λ w. some (v, w)) e1 in
    subst (λ (y : ℕ × Width). IsParameterCode r y.0 y.1 (0x01 ∷ x.0 ∷ x.1 ∷ [])) (some_inj e2)
      (register_parameter x.0 x.1 v w u a)

pub constant_value-lt :
    (tools : Tools) (width expression : String) {x : Width × ℕ}
    → constant_value tools width expression ≡ some x
    → x.1 < modulus x.0
constant_value-lt tools width expression e =
    let cut = λ (w : Width) (number : ℕ). some (w, number % modulus w) in
    let (result, p, e1) =
      bind_cases (tools.evaluate expression)
        (λ result. named_width width >>= λ w. tools.read_number result >>= cut w) e in
    let (w, q, e2) = bind_cases (named_width width) (λ w. tools.read_number result >>= cut w) e1 in
    let (number, r, e3) = bind_cases (tools.read_number result) (cut w) e2 in
    subst (λ (x : Width × ℕ). x.1 < modulus x.0) (some_inj e3) (mod-lt number (positive w))

-- The value of a constant is the one that its bytes spell.
pub constant_agrees :
    (tools : Tools) (width expression : String) {bytes : List ℕ} {x : Width × ℕ}
    → encode_constant tools width expression ≡ some bytes
    → constant_value tools width expression ≡ some x
    → 0x02 ∷ prefix x.0 ∷ le_bytes (width_bytes x.0) x.1 ≡ bytes
constant_agrees tools width expression {bytes} e f =
    let (y, p, q) = encode_constant_cases tools width expression e in
    subst (λ (x : Width × ℕ). 0x02 ∷ prefix x.0 ∷ le_bytes (width_bytes x.0) x.1 ≡ bytes)
      (some_inj (sym p ∙ f)) q

pub register_agrees :
    (name : String) {bytes : List ℕ} {x : ℕ × ℕ}
    → encode_register name ≡ some bytes
    → register_operand name ≡ some x
    → 0x01 ∷ x.0 ∷ x.1 ∷ [] ≡ bytes
register_agrees name {bytes} e f =
    let (y, p, q) = encode_register_cases name e in
    subst (λ (x : ℕ × ℕ). 0x01 ∷ x.0 ∷ x.1 ∷ [] ≡ bytes) (some_inj (sym p ∙ f)) q
