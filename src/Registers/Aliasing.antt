-- ===== src/Registers/Aliasing.antt =====
-- How the general registers overlap.
use sysdarft.Base.{
  ap, arith, inl, inr, le_bytes, le_bytes-IsBytes, le_value, length-le_bytes, length-slice_le,
  length-splice, slice-IsBytes, slice-splice_after, slice-splice_before, slice-splice_self,
  splice-IsBytes, ℕ, ◌%◌, ◌*◌, ◌+◌, ◌<◌, ◌∙◌, ◌≡◌, ◌≤◌, ◌⊎◌,
}
use sysdarft.Width.{Width, le_value-le_bytes_width, modulus, width_bound, width_bytes}
use sysdarft.Registers.{Registers, load, store, IsRegisters}

-- The bytes of a general register.
abbrev pub first_byte : Width → ℕ → ℕ
first_byte w i = i * width_bytes w

-- A general register loads what was stored in it, cut to its width.
pub load-store_self :
    (w : Width) (i v : ℕ) (r : Registers)
    → IsRegisters r
    → first_byte w i + width_bytes w ≤ 128
    → load w i (store w i v r) ≡ v % modulus w
unfolding load store
load-store_self w i v r h k =
    let s =
      slice-splice_self (i * width_bytes w) (le_bytes (width_bytes w) v) r.general
        (omega (arith, length-le_bytes (width_bytes w) v, h.size)) in
    ap le_value (rw length-le_bytes at s) ∙ le_value-le_bytes_width w v

-- A store leaves every general register alone, of any width, that shares no byte with the stored
-- one.
pub load-store_apart :
    (w w' : Width) (i j v : ℕ) (r : Registers)
    → (first_byte w' j + width_bytes w' ≤ first_byte w i)
      ⊎ (first_byte w i + width_bytes w ≤ first_byte w' j)
    → load w' j (store w i v r) ≡ load w' j r
unfolding load store
load-store_apart w w' i j v r apart = elim apart [
  | inl before ↦ ap le_value (
      slice-splice_before (j * width_bytes w') (width_bytes w') (i * width_bytes w)
        (le_bytes (width_bytes w) v) r.general before)
  | inr after ↦ ap le_value (
      slice-splice_after (j * width_bytes w') (width_bytes w') (i * width_bytes w)
        (le_bytes (width_bytes w) v) r.general (omega (arith, length-le_bytes (width_bytes w) v)))
]

-- A load fits its width.
pub load-lt : (w : Width) (i : ℕ) (r : Registers) → IsRegisters r → load w i r < modulus w
unfolding load
load-lt w i r h =
    width_bound w _ (slice-IsBytes (i * width_bytes w) (width_bytes w) r.general h.bytes)
      (length-slice_le (i * width_bytes w) (width_bytes w) r.general)

-- A store keeps the register file one.
pub store-IsRegisters :
    (w : Width) (i v : ℕ) (r : Registers) → IsRegisters r → IsRegisters (store w i v r)
unfolding store
store-IsRegisters w i v r h = record {
  size = length-splice (i * width_bytes w) (le_bytes (width_bytes w) v) r.general ∙ h.size;
  bytes =
      splice-IsBytes (i * width_bytes w) (le_bytes (width_bytes w) v) r.general
        (le_bytes-IsBytes (width_bytes w) v) h.bytes;
  flags_fit = h.flags_fit;
  stack_base_fits = h.stack_base_fits;
  stack_pointer_fits = h.stack_pointer_fits;
  code_base_fits = h.code_base_fits;
  instruction_pointer_fits = h.instruction_pointer_fits;
  data_base_fits = h.data_base_fits;
  data_pointer_fits = h.data_pointer_fits;
  extended_base_fits = h.extended_base_fits;
  extended_pointer_fits = h.extended_pointer_fits;
  stack_preservation_fits = h.stack_preservation_fits;
  selector_start_fits = h.selector_start_fits;
  selector_size_fits = h.selector_size_fits;
  reserved1_fits = h.reserved1_fits;
  reserved2_fits = h.reserved2_fits;
  reserved3_fits = h.reserved3_fits;
  reserved4_fits = h.reserved4_fits;
}
