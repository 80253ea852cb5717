-- ===== src/Registers/Image.antt =====
-- The bytes of the register file as `do_preserve_cpu_state` and `do_iret` copy them: the struct
-- `sysdarft_register_t`, 256 bytes with no padding.
use sysdarft.Base.{
  Bool, IsBytes, IsBytes-append, List, [], ap, arith, false, le_bytes, le_bytes-IsBytes, le_value,
  le_value-le_bytes, length, length-append, slice, slice-append_right, take, take-append, true, ℕ,
  ◌%◌, ◌*◌, ◌++◌, ◌+◌, ◌/◌, ◌<◌, ◌==◌, ◌^◌, ◌∙◌, ◌∷◌, ◌≡◌,
}
use sysdarft.Registers.{Flags, IsFlags, IsRegisters, Registers}

abbrev bit : Bool → ℕ
bit true = 1
bit false = 0

-- The bit fields in order, lowest bit first.
unfoldable pub flags_word : Flags → ℕ
flags_word f =
    bit f.carry
    + 2 * bit f.overflow
    + 4 * bit f.larger_than
    + 8 * bit f.less_than
    + 16 * bit f.equal
    + 32 * bit f.interruption_mask
    + 64 * f.privilege_level
    + 256 * bit f.protected_mode
    + 512 * bit f.paging
    + 1024 * f.reserved

unfoldable pub flags_of_word : ℕ → Flags
flags_of_word w = record {
  carry = w % 2 == 1;
  overflow = w / 2 % 2 == 1;
  larger_than = w / 4 % 2 == 1;
  less_than = w / 8 % 2 == 1;
  equal = w / 16 % 2 == 1;
  interruption_mask = w / 32 % 2 == 1;
  privilege_level = w / 64 % 4;
  protected_mode = w / 256 % 2 == 1;
  paging = w / 512 % 2 == 1;
  reserved = w / 1024;
}

abbrev pub words : List ℕ → List ℕ
words [] = []
words (w ∷ ws) = le_bytes 8 w ++ words ws

abbrev fields : Registers → List ℕ
fields r =
    flags_word r.flags
    ∷ r.stack_base
    ∷ r.stack_pointer
    ∷ r.code_base
    ∷ r.instruction_pointer
    ∷ r.data_base
    ∷ r.data_pointer
    ∷ r.extended_base
    ∷ r.extended_pointer
    ∷ r.stack_preservation
    ∷ r.selector_start
    ∷ r.selector_size
    ∷ r.reserved1
    ∷ r.reserved2
    ∷ r.reserved3
    ∷ r.reserved4
    ∷ []

unfoldable pub image : Registers → List ℕ
image r = r.general ++ words (fields r)

-- The 64-bit field number `k` behind the general registers.
abbrev pub field_at : List ℕ → ℕ → ℕ
field_at bs k = le_value (slice (128 + 8 * k) 8 bs)

unfoldable pub of_image : List ℕ → Registers
unfolding flags_of_word
of_image bs = record {
  general = take 128 bs;
  flags = flags_of_word (field_at bs 0);
  stack_base = field_at bs 1;
  stack_pointer = field_at bs 2;
  code_base = field_at bs 3;
  instruction_pointer = field_at bs 4;
  data_base = field_at bs 5;
  data_pointer = field_at bs 6;
  extended_base = field_at bs 7;
  extended_pointer = field_at bs 8;
  stack_preservation = field_at bs 9;
  selector_start = field_at bs 10;
  selector_size = field_at bs 11;
  reserved1 = field_at bs 12;
  reserved2 = field_at bs 13;
  reserved3 = field_at bs 14;
  reserved4 = field_at bs 15;
}

bit-lt : (b : Bool) → bit b < 2
bit-lt true = omega arith
bit-lt false = omega arith

test-bit : (b : Bool) (n : ℕ) → n ≡ bit b → (n == 1) ≡ b
test-bit true n e = rw e
test-bit false n e = rw e

-- Each field of a word of bits and two wider fields.
module _ (b0 b1 b2 b3 b4 b5 p b8 b9 r : ℕ) (h0 : b0 < 2) (h1 : b1 < 2) (h2 : b2 < 2) (h3 : b3 < 2)
    (h4 : b4 < 2) (h5 : b5 < 2) (hp : p < 4) (h8 : b8 < 2) (h9 : b9 < 2) where
  abbrev packed : ℕ
  packed =
      b0 + 2 * b1 + 4 * b2 + 8 * b3 + 16 * b4 + 32 * b5 + 64 * p + 256 * b8 + 512 * b9 + 1024 * r

  unpack :
      (packed % 2 ≡ b0)
      × (packed / 2 % 2 ≡ b1)
      × (packed / 4 % 2 ≡ b2)
      × (packed / 8 % 2 ≡ b3)
      × (packed / 16 % 2 ≡ b4)
      × (packed / 32 % 2 ≡ b5)
      × (packed / 64 % 4 ≡ p)
      × (packed / 256 % 2 ≡ b8)
      × (packed / 512 % 2 ≡ b9)
      × (packed / 1024 ≡ r)
  unpack = omega arith

-- The flag register comes back from its 64 bits.
pub flags_of_word-flags_word : (f : Flags) → IsFlags f → flags_of_word (flags_word f) ≡ f
unfolding flags_of_word flags_word
flags_of_word-flags_word f h =
    let u =
      unpack (bit f.carry) (bit f.overflow) (bit f.larger_than) (bit f.less_than) (bit f.equal)
        (bit f.interruption_mask) f.privilege_level (bit f.protected_mode) (bit f.paging) f.reserved
        (bit-lt f.carry) (bit-lt f.overflow) (bit-lt f.larger_than) (bit-lt f.less_than)
        (bit-lt f.equal) (bit-lt f.interruption_mask) h.0 (bit-lt f.protected_mode)
        (bit-lt f.paging) in
    λ i. record {
      carry = test-bit f.carry _ u.0 i;
      overflow = test-bit f.overflow _ u.1 i;
      larger_than = test-bit f.larger_than _ u.2 i;
      less_than = test-bit f.less_than _ u.3 i;
      equal = test-bit f.equal _ u.4 i;
      interruption_mask = test-bit f.interruption_mask _ u.5 i;
      privilege_level = u.6 i;
      protected_mode = test-bit f.protected_mode _ u.7 i;
      paging = test-bit f.paging _ u.8 i;
      reserved = u.9 i;
    }

pub flags_word-lt : (f : Flags) → IsFlags f → flags_word f < 2 ^ 64
unfolding flags_word
flags_word-lt f h = omega (
  arith,
  bit-lt f.carry,
  bit-lt f.overflow,
  bit-lt f.larger_than,
  bit-lt f.less_than,
  bit-lt f.equal,
  bit-lt f.interruption_mask,
  bit-lt f.protected_mode,
  bit-lt f.paging,
)

-- A field behind the 128 bytes of general registers.
pub field_at-append :
    (g ws : List ℕ) (k : ℕ) → length g ≡ 128 → field_at (g ++ ws) k ≡ le_value (slice (8 * k) 8 ws)
field_at-append g ws k e =
    let p : 128 + 8 * k ≡ length g + 8 * k = omega arith in rw (p, slice-append_right)

-- The eight bytes of a word, spelled out.
pub word_back : (w : ℕ) → w < 2 ^ 64 → le_value (le_bytes 8 w) ≡ w
word_back w h = le_value-le_bytes 8 w h

-- A register file whose fields fit their C++ types comes back from its 256 bytes: saving and
-- restoring loses nothing.
pub of_image-image : (r : Registers) → IsRegisters r → of_image (image r) ≡ r
unfolding of_image image
of_image-image r h =
    let at = λ (k : ℕ). field_at-append r.general (words (fields r)) k h.size in
    let g : take 128 (r.general ++ words (fields r)) ≡ r.general =
      rw (← h.size) (take-append r.general (words (fields r))) in
    let fl : flags_of_word (field_at (r.general ++ words (fields r)) 0) ≡ r.flags =
      ap flags_of_word (at 0 ∙ word_back (flags_word r.flags) (flags_word-lt r.flags h.flags_fit))
      ∙ flags_of_word-flags_word r.flags h.flags_fit in
    λ i. record {
      general = g i;
      flags = fl i;
      stack_base = (at 1 ∙ word_back r.stack_base h.stack_base_fits) i;
      stack_pointer = (at 2 ∙ word_back r.stack_pointer h.stack_pointer_fits) i;
      code_base = (at 3 ∙ word_back r.code_base h.code_base_fits) i;
      instruction_pointer = (at 4 ∙ word_back r.instruction_pointer h.instruction_pointer_fits) i;
      data_base = (at 5 ∙ word_back r.data_base h.data_base_fits) i;
      data_pointer = (at 6 ∙ word_back r.data_pointer h.data_pointer_fits) i;
      extended_base = (at 7 ∙ word_back r.extended_base h.extended_base_fits) i;
      extended_pointer = (at 8 ∙ word_back r.extended_pointer h.extended_pointer_fits) i;
      stack_preservation = (at 9 ∙ word_back r.stack_preservation h.stack_preservation_fits) i;
      selector_start = (at 10 ∙ word_back r.selector_start h.selector_start_fits) i;
      selector_size = (at 11 ∙ word_back r.selector_size h.selector_size_fits) i;
      reserved1 = (at 12 ∙ word_back r.reserved1 h.reserved1_fits) i;
      reserved2 = (at 13 ∙ word_back r.reserved2 h.reserved2_fits) i;
      reserved3 = (at 14 ∙ word_back r.reserved3 h.reserved3_fits) i;
      reserved4 = (at 15 ∙ word_back r.reserved4 h.reserved4_fits) i;
    }

pub length-image : (r : Registers) → IsRegisters r → length (image r) ≡ 256
unfolding image
length-image r h = omega (arith, length-append r.general (words (fields r)), h.size)

pub words-IsBytes : (ws : List ℕ) → IsBytes (words ws)
words-IsBytes [] = tt
words-IsBytes (w ∷ ws) =
    IsBytes-append (le_bytes 8 w) (words ws) (le_bytes-IsBytes 8 w) (words-IsBytes ws)

pub image-IsBytes : (r : Registers) → IsRegisters r → IsBytes (image r)
unfolding image
image-IsBytes r h = IsBytes-append r.general (words (fields r)) h.bytes (words-IsBytes (fields r))
