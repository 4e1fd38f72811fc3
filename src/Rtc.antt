-- ===== src/Rtc.antt =====
-- The real-time clock of student-distrib/rtc.c: its virtual frequency and its interrupt count.
-- The clock's registers are hardware: `cmos r` is what a read of the selected register gives.
pub mod Frequency
pub mod Wait
use linux_os.Prelude.{
  ℕ, zero, suc, ◌+◌, ◌-◌, ◌*◌, ◌/◌, ◌%◌, ◌^◌, Bool, List, [], ◌∷◌, ◌++◌, ltb, leb, ◌==◌, ◌&&◌, not,
  if◌then◌else◌, bit_and, bit_or, u32, minus_one, Option, none, some,
}
use linux_os.Io.{Io, Trace}
use linux_os.Pic.{Pic, enable_irq, send_eoi}

-- The two globals, with the interrupt controllers and what was sent to the clock.
pub record Rtc : Type 0 where
  pub virt_freq : ℕ
  pub rtc_inter_count : ℕ
  pub trace : Trace
  pub pic : Pic

abbrev pub rtc_port : ℕ
rtc_port = 0x70

abbrev pub cmos_port : ℕ
cmos_port = 0x71

abbrev pub status_reg_a : ℕ
status_reg_a = 0x8A

abbrev pub status_reg_b : ℕ
status_reg_b = 0x8B

abbrev pub status_reg_c : ℕ
status_reg_c = 0x8C

abbrev pub rtc_irq_num : ℕ
rtc_irq_num = 8

-- The `switch` of `rtc_set_frequency`: the rate that is sent for a frequency.
unfoldable pub rate_of : ℕ → Option ℕ
rate_of new_frequency =
    if new_frequency == 2
    then some 0x0F
    else if new_frequency == 4
    then some 0x0E
    else if new_frequency == 8
    then some 0x0D
    else if new_frequency == 16
    then some 0x0C
    else if new_frequency == 32
    then some 0x0B
    else if new_frequency == 64
    then some 0x0A
    else if new_frequency == 128
    then some 0x09
    else if new_frequency == 256
    then some 0x08
    else if new_frequency == 512
    then some 0x07
    else if new_frequency == 1024
    then some 0x06
    else none

-- The clock behind its two ports; `cmos` is what its registers hold.
module _ (cmos : ℕ → ℕ) where
  unfoldable pub rtc_set_frequency : Rtc → ℕ → ℕ × Rtc
  rtc_set_frequency s new_frequency = elim (rate_of new_frequency) [
    | none ↦ (minus_one, s)
    | some send_rtc_freq ↦ (
      0,
      record s {
        trace =
            s.trace
            ++ (Io.cli
                ∷ Io.outb status_reg_a rtc_port
                ∷ Io.inb cmos_port
                ∷ Io.outb status_reg_a rtc_port
                ∷ Io.outb (bit_or (bit_and (cmos status_reg_a) 0xF0) send_rtc_freq) cmos_port
                ∷ Io.sti
                ∷ []);
      },
    )
  ]

  unfoldable pub rtc_init : Rtc → Rtc
  unfolding rtc_set_frequency
  rtc_init s =
      let started : Rtc = record s {
        trace =
            s.trace
            ++ (Io.cli
                ∷ Io.outb status_reg_b rtc_port
                ∷ Io.inb cmos_port
                ∷ Io.outb status_reg_b rtc_port
                ∷ Io.outb (bit_or (cmos status_reg_b) 0x40) cmos_port
                ∷ []);
      } in
      let (_, set) = rtc_set_frequency started 1024 in
      record set {
        virt_freq = 2;
        rtc_inter_count = 0;
        pic = enable_irq set.pic rtc_irq_num;
        trace = set.trace ++ (Io.sti ∷ []);
      }

unfoldable pub rtc_handler : Rtc → Rtc
rtc_handler s = record s {
  rtc_inter_count = u32 (s.rtc_inter_count + 1);
  trace = s.trace ++ (Io.outb status_reg_c rtc_port ∷ Io.inb cmos_port ∷ []);
  pic = send_eoi s.pic rtc_irq_num;
}

-- "Check if input is a valid power of 2"; `v - 1` is unsigned.
unfoldable pub is_valid_frequency : ℕ → Bool
is_valid_frequency v = leb v 1024 && leb 2 v && (bit_and v (u32 (v + 4294967295)) == 0)

-- `value` is the `uint32_t` that `buf` points to.
unfoldable pub rtc_write : Rtc → ℕ → ℕ → ℕ × Rtc
unfolding is_valid_frequency
rtc_write s value nbytes =
    if not (nbytes == 4)
    then (minus_one, s)
    else if is_valid_frequency value
    then (0, record s { rtc_inter_count = 0; virt_freq = value })
    else (minus_one, s)

-- The spin of `rtc_read`: `interrupts` clock interrupts are still to come, each of which runs
-- `rtc_handler`; `none` when they are over and the loop still spins.
unfoldable pub spin : ℕ → Rtc → Option Rtc
spin zero s = if ltb s.rtc_inter_count (1024 / s.virt_freq) then none else some s
spin (suc interrupts) s =
    let rest = spin interrupts (rtc_handler s) in
    if ltb s.rtc_inter_count (1024 / s.virt_freq) then rest else some s

unfoldable pub rtc_read : Rtc → ℕ → Option Rtc
rtc_read s interrupts = spin interrupts (record s { rtc_inter_count = 0 })

unfoldable pub rtc_open : Rtc → ℕ × Rtc
rtc_open s = (0, record s { virt_freq = 2 })

unfoldable pub rtc_close : Rtc → ℕ × Rtc
rtc_close s = (0, s)
