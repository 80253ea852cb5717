-- ===== src/Boot/Requests.antt =====
-- What a round does with the interruptions that devices asked for, and with the Ctrl+Z key.
use sysdarft.Registers.Image.{image}
use sysdarft.Memory.{Memory, write_memory}
use sysdarft.Interrupt.Delivery.{
  CanEnter, do_interruption_delivers, do_interruption_masked, entered, frame,
}
use sysdarft.Boot.{acknowledged, capture, keyboard_interrupt, serve_requests}
use sysdarft.Machine.{Cpu, Outcome, done}
use sysdarft.Base.{List, [], ap, false, if_false, inr, refl, some, true, ℕ, ◌<◌, ◌∙◌, ◌∷◌, ◌≡◌, ◌≤◌}

-- Every code is one that a device may ask for.
abbrev pub AreMaskable : List ℕ → Type 0
AreMaskable [] = Unit
AreMaskable (i ∷ is) = (0x1F < i) × (i ≤ 256) × AreMaskable is

serve_masked :
    (is : List ℕ) (c : Cpu)
    → AreMaskable is
    → c.regs.flags.interruption_mask ≡ true
    → serve_requests is (acknowledged c) ≡ (done tt, acknowledged c)
unfolding serve_requests
serve_masked [] c h k = refl
serve_masked (i ∷ is) c h k =
    rw (do_interruption_masked i (acknowledged c) h.0 h.1 k, serve_masked is c h.2 k)

pub keyboard_quiet : (c : Cpu) → c.keyboard_abort ≡ false → keyboard_interrupt c ≡ (done tt, c)
unfolding keyboard_interrupt
keyboard_quiet c q = if_false c.keyboard_abort _ _ q

pub capture_lem :
    (is : List ℕ) (c : Cpu) {r : Outcome (Unit {0}) × Cpu}
    → c.keyboard_abort ≡ false
    → c.requests ≡ is
    → serve_requests is c ≡ r
    → capture c ≡ r
unfolding capture
capture_lem is c q e s = rw (keyboard_quiet c q) (ap (λ x. serve_requests x c) e ∙ s)

-- If the keyboard asks for nothing, interruptions are not masked, the first pending request is for
-- a code from 0x20 to 0xFF that can be delivered, and the others are for codes from 0x20 to 0x100,
-- then the head of a round delivers exactly the first: its delivery masks the rest, which do
-- nothing, and the sign of a request is cleared.
pub only_first_request :
    (i : ℕ) (is : List ℕ) (c : Cpu)
    → CanEnter c
    → c.keyboard_abort ≡ false
    → c.regs.flags.interruption_mask ≡ false
    → c.requests ≡ i ∷ is
    → 0x1F < i
    → i < 256
    → AreMaskable is
    → (m : Memory) × (write_memory c.mem (frame c) (image c.regs) ≡ some m)
      × (capture c ≡ (done tt, acknowledged (entered i c.regs.flags m c)))
unfolding serve_requests
only_first_request i is c v quiet open_mask r lo hi k =
    let (m, e, d) = do_interruption_delivers i c v hi (inr (lo, open_mask)) in
    (
      m,
      e,
      capture_lem (i ∷ is) c quiet r (rw (d, serve_masked is (entered i c.regs.flags m c) k refl)),
    )

-- If the keyboard asks for nothing, interruptions are masked, and the pending requests are for
-- codes from 0x20 to 0x100, then the head of a round delivers none of them and changes nothing but
-- the sign of a request.
pub masked_requests_lost :
    (i : ℕ) (is : List ℕ) (c : Cpu)
    → c.keyboard_abort ≡ false
    → c.regs.flags.interruption_mask ≡ true
    → c.requests ≡ i ∷ is
    → AreMaskable (i ∷ is)
    → capture c ≡ (done tt, acknowledged c)
unfolding serve_requests
masked_requests_lost i is c quiet mask r k =
    capture_lem (i ∷ is) c quiet r
      (rw (do_interruption_masked i c k.0 k.1 mask, serve_masked is c k.2 mask))
