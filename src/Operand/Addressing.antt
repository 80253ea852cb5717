-- ===== src/Operand/Addressing.antt =====
-- Decoding memory operands: the effective address.
use native.Mathlib.Nat.{mod-eq_of_lt}
use sysdarft.Base.{
  Bool-cases, List, [], ap, arith, bit_or-low, if◌then◌else◌, inl, inr, le_bytes, le_of_ltb,
  le_value, length, length-append, length-le_bytes, lt_of_ltb, ltb, refl, some, ℕ, ◌%◌, ◌*◌, ◌++◌,
  ◌+◌, ◌-◌, ◌/◌, ◌<◌, ◌^◌, ◌∙◌, ◌∷◌, ◌≡◌, ◌≤◌,
}
use sysdarft.Registers.{Registers, load}
use sysdarft.Width.{
  Width, bit16, bit32, bit64, bit8, le_value-le_bytes_width, modulus, prefix, width_bytes, width_of,
}
use sysdarft.Machine.{Cpu, add64, done, mul64, or_throw}
use sysdarft.Operand.{
  access_register, check_msb, decode_constant, decode_memory, decode_operand, decode_parameter,
  decode_register, decode_signed_parameter, memory, ratio_of, signed_offset, special_value,
}
use sysdarft.Operand.Access.{width_of-prefix}
use sysdarft.Operand.Decoding.{
  HasCode, advanced, advanced-advanced, first_code, pop_byte, pop_code_lem, rest_code,
}

-- The bytes of a base or offset: a register that can be read, or a constant.
pub data IsParameterCode (r : Registers) : ℕ → Width → List ℕ → Type 0 where
  register_parameter :
      (width index : ℕ) (v : ℕ) (w : Width)
      → width_of width ≡ some w
      → access_register width index r ≡ some v
      → IsParameterCode r v w (0x01 ∷ width ∷ index ∷ [])
  constant_parameter :
      (w : Width) (v : ℕ)
      → v < modulus w
      → IsParameterCode r v w (0x02 ∷ prefix w ∷ le_bytes (width_bytes w) v)

-- Reading code changes no register that an operand can name.
access_advanced :
    (n width index : ℕ) (c : Cpu)
    → access_register width index (advanced n c).regs ≡ access_register width index c.regs
unfolding access_register special_value load
access_advanced n width index c = refl

register_bytes :
    (width index : ℕ) (c : Cpu)
    → HasCode c (width ∷ index ∷ [])
    → decode_register c ≡ (done (width, index), advanced 2 c)
unfolding decode_register
register_bytes width index c h =
    let (p2, h2) = pop_byte width (index ∷ []) c h in
    let (p3, h3) = pop_byte index [] (advanced 1 c) h2 in
    rw (p2, p3) (λ i. (done (width, index), advanced-advanced 1 1 c i))

constant_bytes :
    (w : Width) (v : ℕ) (c : Cpu)
    → v < modulus w
    → HasCode c (prefix w ∷ le_bytes (width_bytes w) v)
    → decode_constant c ≡ (done (v, prefix w), advanced (1 + width_bytes w) c)
unfolding decode_constant
constant_bytes w v c k h =
    let bs = le_bytes (width_bytes w) v in
    let l = length-le_bytes (width_bytes w) v in
    let (p1, h1) = pop_byte (prefix w) bs c h in
    let p2 = pop_code_lem w bs (advanced 1 c) h1 l in
    let x : le_value bs ≡ v = le_value-le_bytes_width w v ∙ mod-eq_of_lt k in
    let e = advanced-advanced 1 (length bs) c ∙ ap (λ n. advanced (1 + n) c) l in
    rw (p1, width_of-prefix w, or_throw, p2) (λ i. (done (x i, prefix w), e i))

parameter_lem :
    (c : Cpu) {v : ℕ} {w : Width} {bytes : List ℕ}
    → HasCode c bytes
    → IsParameterCode c.regs v w bytes
    → (decode_parameter c ≡ (done v, advanced (length bytes) c))
      × (decode_signed_parameter c ≡ (done (signed_offset w v), advanced (length bytes) c))
unfolding decode_parameter decode_signed_parameter
parameter_lem c h (register_parameter width index v w u a) =
    let (p1, h1) = pop_byte 0x01 (width ∷ index ∷ []) c h in
    let p2 = register_bytes width index (advanced 1 c) h1 in
    let b = access_advanced 1 width index c ∙ a in
    let b' = access_advanced 2 width index (advanced 1 c) ∙ b in
    let e = advanced-advanced 1 2 c in
    (
      rw (p1, p2, b', or_throw) (λ i. (done v, e i)),
      rw (p1, p2, b', or_throw, u, or_throw) (λ i. (done (signed_offset w v), e i)),
    )
parameter_lem c h (constant_parameter w v k) =
    let bs = le_bytes (width_bytes w) v in
    let l = length-le_bytes (width_bytes w) v in
    let (p1, h1) = pop_byte 0x02 (prefix w ∷ bs) c h in
    let p2 = constant_bytes w v (advanced 1 c) k h1 in
    let n : 1 + (1 + width_bytes w) ≡ length (0x02 ∷ prefix w ∷ bs) = omega (arith, l) in
    let e = advanced-advanced 1 (1 + width_bytes w) c ∙ ap (λ k. advanced k c) n in
    (
      rw (p1, p2) (λ i. (done v, e i)),
      rw (p1, p2, width_of-prefix w, or_throw) (λ i. (done (signed_offset w v), e i)),
    )

parameter_advanced :
    (n : ℕ) (c : Cpu) {v : ℕ} {w : Width} {bytes : List ℕ}
    → IsParameterCode c.regs v w bytes
    → IsParameterCode (advanced n c).regs v w bytes
parameter_advanced n c (register_parameter width index v w u a) =
    register_parameter width index v w u (access_advanced n width index c ∙ a)
parameter_advanced n c (constant_parameter w v k) = constant_parameter w v k

-- A two's complement number of the width, as the 64 bits of the same number.
abbrev pub sign_extended : Width → ℕ → ℕ
sign_extended w v = if ltb v (modulus w / 2) then v else 2 ^ 64 - modulus w + v

sign_low : (w : Width) (v : ℕ) → v < modulus w / 2 → signed_offset w v ≡ v
unfolding signed_offset check_msb
sign_low bit8 v h = ground arith
sign_low bit16 v h = ground arith
sign_low bit32 v h = ground arith
sign_low bit64 v h = ground arith

sign_high :
    (w : Width) (v : ℕ)
    → modulus w / 2 ≤ v
    → v < modulus w
    → signed_offset w v ≡ 2 ^ 64 - modulus w + v
unfolding signed_offset check_msb
sign_high bit8 v h k =
    let e : v % 256 / 128 % 2 ≡ 1 = omega arith in
    rw (e, mod-eq_of_lt k) (bit_or-low 8 (2 ^ 56 - 1) v k)
sign_high bit16 v h k =
    let e : v % 65536 / 32768 % 2 ≡ 1 = omega arith in
    rw (e, mod-eq_of_lt k) (bit_or-low 16 (2 ^ 48 - 1) v k)
sign_high bit32 v h k =
    let e : v % 4294967296 / 2147483648 % 2 ≡ 1 = omega arith in
    rw (e, mod-eq_of_lt k) (bit_or-low 32 (2 ^ 32 - 1) v k)
sign_high bit64 v h k =
    let e : v % 18446744073709551616 / 9223372036854775808 % 2 ≡ 1 = omega arith in
    rw (e, mod-eq_of_lt k) (bit_or-low 64 0 v k)

signed_offset_lem : (w : Width) (v : ℕ) → v < modulus w → signed_offset w v ≡ sign_extended w v
signed_offset_lem w v k = elim (Bool-cases (ltb v (modulus w / 2))) [
  | inl low ↦ rw low (sign_low w v (lt_of_ltb v (modulus w / 2) low))
  | inr high ↦ rw high (sign_high w v (le_of_ltb v (modulus w / 2) high) k)
]

-- The packed decimal codes of the ratios.
pub data IsRatio : ℕ → ℕ → Type 0 where
  times_1 : IsRatio 0x01 1
  times_2 : IsRatio 0x02 2
  times_4 : IsRatio 0x04 4
  times_8 : IsRatio 0x08 8
  times_16 : IsRatio 0x16 16

ratio_lem : {ratio k : ℕ} → IsRatio ratio k → ratio_of ratio ≡ some k
unfolding ratio_of
ratio_lem times_1 = refl
ratio_lem times_2 = refl
ratio_lem times_4 = refl
ratio_lem times_8 = refl
ratio_lem times_16 = refl

-- The bytes of a memory operand: width, base, two offsets and ratio.
abbrev pub memory_code : Width → List ℕ → List ℕ → List ℕ → ℕ → List ℕ
memory_code w b0 b1 b2 ratio = 0x03 ∷ prefix w ∷ (b0 ++ (b1 ++ (b2 ++ (ratio ∷ []))))

-- The address as the code computes it.
pub decode_operand-memory_code :
    (c : Cpu) (w : Width) (ratio : ℕ) {base off1 off2 k : ℕ} {w0 w1 w2 : Width} {b0 b1 b2 : List ℕ}
    → IsParameterCode c.regs base w0 b0
    → IsParameterCode c.regs off1 w1 b1
    → IsParameterCode c.regs off2 w2 b2
    → ratio_of ratio ≡ some k
    → HasCode c (memory_code w b0 b1 b2 ratio)
    → decode_operand c ≡ (
      done (memory (mul64 (add64 (add64 base off1) (signed_offset w2 off2)) k) (prefix w)),
      advanced (length (memory_code w b0 b1 b2 ratio)) c,
    )
unfolding decode_operand decode_memory
decode_operand-memory_code c w ratio {base} {off1} {off2} {k} {w0} {w1} {w2} {b0} {b1} {b2} q0 q1 q2
      r h =
    let t2 = b2 ++ (ratio ∷ []) in
    let (p1, h1) = pop_byte 0x03 (prefix w ∷ (b0 ++ (b1 ++ t2))) c h in
    let c1 = advanced 1 c in
    let (p2, h2) = pop_byte (prefix w) (b0 ++ (b1 ++ t2)) c1 h1 in
    let c2 = advanced 1 c1 in
    let s0 =
      parameter_lem c2 (first_code b0 (b1 ++ t2) c2 h2)
        (parameter_advanced 1 c1 (parameter_advanced 1 c q0)) in
    let h3 = rest_code b0 (b1 ++ t2) c2 h2 in
    let c3 = advanced (length b0) c2 in
    let s1 =
      parameter_lem c3 (first_code b1 t2 c3 h3)
        (parameter_advanced (length b0) c2 (parameter_advanced 1 c1 (parameter_advanced 1 c q1))) in
    let h4 = rest_code b1 t2 c3 h3 in
    let c4 = advanced (length b1) c3 in
    let s2 = parameter_lem c4 (first_code b2 (ratio ∷ []) c4 h4) (
      parameter_advanced (length b1) c3 (
        parameter_advanced (length b0) c2 (parameter_advanced 1 c1 (parameter_advanced 1 c q2)))) in
    let h5 = rest_code b2 (ratio ∷ []) c4 h4 in
    let c5 = advanced (length b2) c4 in
    let (p6, h6) = pop_byte ratio [] c5 h5 in
    let n : c.regs.instruction_pointer + 1 + 1 + length b0 + length b1 + length b2 + 1
        ≡ c.regs.instruction_pointer + length (memory_code w b0 b1 b2 ratio) =
      omega
        (arith, length-append b0 (b1 ++ t2), length-append b1 t2, length-append b2 (ratio ∷ [])) in
    let o = memory (mul64 (add64 (add64 base off1) (signed_offset w2 off2)) k) (prefix w) in
    rw (p1, p2, s0.0, s1.0, s2.1, p6, r, or_throw, width_of-prefix w)
      (λ i. (done o, record c { regs = record (c.regs) { instruction_pointer = n i } }))

address_lem : (x y z : ℕ) → add64 (add64 x y) z ≡ (x + y + z) % 2 ^ 64
address_lem x y z = omega arith

-- If the code at the instruction pointer lies in the memory and is a memory operand (its prefix, a
-- width, a base and two offsets that are each a register that can be read or a constant, the second
-- fitting its width, and the packed decimal code of 1, 2, 4, 8 or 16), decoding gives the address
-- (base + first offset + second offset as a two's complement number of its width) modulo 2 ^ 64,
-- times the ratio, modulo 2 ^ 64, with that width, and the instruction pointer moves past those
-- bytes.
pub decode_operand-memory :
    (c : Cpu) (w : Width) (ratio : ℕ) {base off1 off2 k : ℕ} {w0 w1 w2 : Width} {b0 b1 b2 : List ℕ}
    → IsParameterCode c.regs base w0 b0
    → IsParameterCode c.regs off1 w1 b1
    → IsParameterCode c.regs off2 w2 b2
    → off2 < modulus w2
    → IsRatio ratio k
    → HasCode c (memory_code w b0 b1 b2 ratio)
    → decode_operand c ≡ (
      done (memory ((base + off1 + sign_extended w2 off2) % 2 ^ 64 * k % 2 ^ 64) (prefix w)),
      advanced (length (memory_code w b0 b1 b2 ratio)) c,
    )
decode_operand-memory c w ratio {base} {off1} {off2} {k} {w0} {w1} {w2} {b0} {b1} {b2} q0 q1 q2 z r
      h =
    let e =
      ap (λ v. mul64 (add64 (add64 base off1) v) k) (signed_offset_lem w2 off2 z)
      ∙ ap (λ v. v * k % 2 ^ 64) (address_lem base off1 (sign_extended w2 off2)) in
    decode_operand-memory_code c w ratio q0 q1 q2 (ratio_lem r) h
    ∙ ap (λ a. (done (memory a (prefix w)), advanced (length (memory_code w b0 b1 b2 ratio)) c)) e
