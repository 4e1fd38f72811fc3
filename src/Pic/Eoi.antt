-- ===== src/Pic/Eoi.antt =====
-- `send_eoi` of student-distrib/i8259.c: which controllers are told that an interrupt ended.
use linux_os.Prelude.{
  ℕ, ◌+◌, ◌-◌, ◌≤◌, ◌<◌, ◌≡◌, refl, true, [], ◌∷◌, ◌++◌, bit_or, arith, ◌==◌, ==_iff, all_below,
  all_below_sound,
}
use linux_os.Io.{Io}
use linux_os.Pic.{Pic, send_eoi}

eoi_table : all_below 8 (λ k. bit_or 0x60 k == 0x60 + k) ≡ true
unfolding all_below
eoi_table = refl

eoi_byte : (k : ℕ) → k < 8 → bit_or 0x60 k ≡ 0x60 + k
eoi_byte k h = (==_iff _ _).0 (all_below_sound 8 _ k eoi_table h)

-- `send_eoi` tells the master of lines 0 to 7 with the specific end-of-interrupt byte of the line,
-- the slave and then the master's line 2 of lines 8 to 15, sends nothing for other numbers, and leaves the masks.
pub send_eoi_lem :
    (s : Pic) (irq : ℕ)
    → (irq < 8 → send_eoi s irq ≡ record s { trace = s.trace ++ (Io.outb (0x60 + irq) 0x20 ∷ []) })
      × (8 ≤ irq
          → irq < 16
          → send_eoi s irq ≡ record s {
            trace = s.trace ++ (Io.outb (0x60 + (irq - 8)) 0xA0 ∷ Io.outb 0x62 0x20 ∷ []);
          })
      × (16 ≤ irq → (send_eoi s irq).trace ≡ s.trace ++ [])
unfolding send_eoi
send_eoi_lem s irq =
    (ground (arith, eoi_byte irq), ground (arith, eoi_byte (irq - 8)), ground arith)
