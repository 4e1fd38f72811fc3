-- ===== src/Rtc/Wait.antt =====
-- How long `rtc_read` of student-distrib/rtc.c waits, and that its frequency is always usable.
use linux_os.Prelude.{
  some_inv, sym, ℕ, zero, suc, ◌+◌, ◌/◌, ◌≤◌, ◌<◌, ◌≡◌, ◌≢◌, refl, true, false, ltb, arith, none,
  some, u32, inl, inr, ◌∙◌, ◌⊎◌,
}
use native.Mathlib.Decide.{dec_lt}
use linux_os.Rtc.{
  Rtc, rtc_init, rtc_handler, rtc_read, rtc_write, rtc_open, rtc_close, spin, is_valid_frequency,
}
use linux_os.Rtc.Frequency.{IsFrequency, valid_iff, valid-ge}

-- The clock after `n` interrupts.
unfoldable pub ticks : ℕ → Rtc → Rtc
ticks zero s = s
ticks (suc n) s = ticks n (rtc_handler s)

-- The interrupts of one period of the virtual frequency, at 1024 a second.
abbrev pub period : Rtc → ℕ
period s = 1024 / s.virt_freq

handler_lem :
    (s : Rtc)
    → ((rtc_handler s).rtc_inter_count ≡ u32 (s.rtc_inter_count + 1))
      × ((rtc_handler s).virt_freq ≡ s.virt_freq)
unfolding rtc_handler
handler_lem s = (refl, refl)

spin_done : (n : ℕ) (s : Rtc) → period s ≤ s.rtc_inter_count → spin n s ≡ some s
unfolding spin
spin_done zero s h = ground arith
spin_done (suc n) s h =
    let stop : ltb s.rtc_inter_count (period s) ≡ false = ground arith in rw stop

spin_more :
    (n : ℕ) (s : Rtc)
    → s.rtc_inter_count < period s
    → (spin 0 s ≡ none) × (spin (suc n) s ≡ spin n (rtc_handler s))
unfolding spin
spin_more n s h =
    let more : ltb s.rtc_inter_count (period s) ≡ true = ground arith in (rw more, rw more)

handler_count :
    (s : Rtc) (k : ℕ)
    → s.rtc_inter_count + suc k ≡ period s
    → period s ≤ 1024
    → (rtc_handler s).rtc_inter_count + k ≡ period (rtc_handler s)
unfolding rtc_handler
handler_count s k e h = omega arith

spin_enough :
    (k n : ℕ) (s : Rtc)
    → period s ≤ 1024
    → s.rtc_inter_count + k ≡ period s
    → k ≤ n
    → spin n s ≡ some (ticks k s)
unfolding ticks
spin_enough zero n s h e g = spin_done n s (omega arith)
spin_enough (suc k) zero s h e g = absurd (omega arith)
spin_enough (suc k) (suc n) s h e g =
    (spin_more n s (omega arith)).1
    ∙ spin_enough k n (rtc_handler s) (unfold rtc_handler in h) (handler_count s k e h)
        (omega arith)

spin_short :
    (k n : ℕ) (s : Rtc)
    → period s ≤ 1024
    → s.rtc_inter_count + k ≡ period s
    → n < k
    → spin n s ≡ none
spin_short zero n s h e g = absurd (omega arith)
spin_short (suc k) zero s h e g = (spin_more 0 s (omega arith)).0
spin_short (suc k) (suc n) s h e g =
    (spin_more n s (omega arith)).1
    ∙ spin_short k n (rtc_handler s) (unfold rtc_handler in h) (handler_count s k e h) (omega arith)

period-le : (s : Rtc) → s.virt_freq ≢ 0 → period s ≤ 1024
period-le s h = omega arith

-- `rtc_read` returns as soon as 1024 divided by the virtual frequency clock interrupts have come,
-- having handled exactly these; with fewer it does not return. The frequency is not 0.
pub rtc_read_lem :
    (s : Rtc) (interrupts : ℕ)
    → s.virt_freq ≢ 0
    → (1024 / s.virt_freq ≤ interrupts
        → rtc_read s interrupts
          ≡ some (ticks (1024 / s.virt_freq) (record s { rtc_inter_count = 0 })))
      × (interrupts < 1024 / s.virt_freq → rtc_read s interrupts ≡ none)
unfolding rtc_read
rtc_read_lem s n h =
    let start : Rtc = record s { rtc_inter_count = 0 } in
    (
      spin_enough (period s) n start (period-le s h) (omega arith),
      spin_short (period s) n start (period-le s h) (omega arith),
    )

pub virt_freq-ticks : (k : ℕ) (s : Rtc) → (ticks k s).virt_freq ≡ s.virt_freq
unfolding ticks
virt_freq-ticks zero s = refl
virt_freq-ticks (suc k) s = virt_freq-ticks k (rtc_handler s) ∙ (handler_lem s).1

-- What may happen to the clock once it runs, in any order.
pub data Step (s : Rtc) : Rtc → Type 0 where
  interrupt : Step s (rtc_handler s)
  open_file : Step s (rtc_open s).1
  close_file : Step s (rtc_close s).1
  write_file : (value nbytes : ℕ) → Step s (rtc_write s value nbytes).1
  read_file : (interrupts : ℕ) {t : Rtc} → rtc_read s interrupts ≡ some t → Step s t

pub data Reach (s : Rtc) : Rtc → Type 0 where
  here : Reach s s
  next : {t u : Rtc} → Reach s t → Step t u → Reach s u

abbrev pub IsValid : Rtc → Type 0
IsValid s = IsFrequency s.virt_freq

frequency_nonzero : (v : ℕ) → IsFrequency v → v ≢ 0
frequency_nonzero v f = λ e. absurd (omega (arith, valid-ge v ((valid_iff v).1 f)))

write_frequency :
    (s : Rtc) (value nbytes : ℕ)
    → ((rtc_write s value nbytes).1.virt_freq ≡ s.virt_freq)
      ⊎ ((rtc_write s value nbytes).1.virt_freq ≡ value) × (is_valid_frequency value ≡ true)
unfolding rtc_write
write_frequency s value nbytes = ground arith

read_frequency : (s t : Rtc) (n : ℕ) → IsValid s → rtc_read s n ≡ some t → t.virt_freq ≡ s.virt_freq
read_frequency s t n v e =
    let (returns, spins) = rtc_read_lem s n (frequency_nonzero s.virt_freq v) in
    elim (dec_lt n (1024 / s.virt_freq)) [
      | yes few ↦ let never = spins few in cc
      | no enough ↦
          let start : Rtc = record s { rtc_inter_count = 0 } in
          let at_end = returns (omega arith) in
          let same = virt_freq-ticks (1024 / s.virt_freq) start in
          rw (some_inv t _ (sym e ∙ at_end)) same
    ]

Step-IsValid : {s t : Rtc} → Step s t → IsValid s → IsValid t
Step-IsValid interrupt v = unfold rtc_handler in v
Step-IsValid open_file v = unfold rtc_open in (1, omega arith, omega arith, refl)
Step-IsValid close_file v = unfold rtc_close in v
Step-IsValid {s} (write_file value nbytes) v = elim (write_frequency s value nbytes) [
  | inl e ↦ rw e v
  | inr (e, valid) ↦ rw e ((valid_iff value).0 valid)
]
Step-IsValid {s} (read_file n {t = t} e) v = rw (read_frequency s t n v e) v

init-IsValid : (cmos : ℕ → ℕ) (s : Rtc) → IsValid (rtc_init cmos s)
unfolding rtc_init
init-IsValid cmos s = (1, omega arith, omega arith, refl)

-- From the initialised clock on, whatever interrupts, opens, closes, reads and writes come in any
-- order, the virtual frequency is a power of two from 2 to 1024.
pub Reach-IsValid : (cmos : ℕ → ℕ) (s : Rtc) {t : Rtc} → Reach (rtc_init cmos s) t → IsValid t
Reach-IsValid cmos s here = init-IsValid cmos s
Reach-IsValid cmos s (next r step) = Step-IsValid step (Reach-IsValid cmos s r)
