-- ===== src/Rtc/Frequency.antt =====
-- The frequencies that student-distrib/rtc.c accepts.
use linux_os.Prelude.{
  ◌↔◌, ℕ, zero, suc, ◌-◌, ◌/◌, ◌^◌, ◌≤◌, ◌<◌, ◌≡◌, ◌≢◌, inl, inr, refl, Bool, true, ◌&&◌, leb,
  if◌then◌else◌, arith, ◌==◌, all_below, all_below_sound, some, Bool-cases, minus_one,
}
use linux_os.Rtc.{Rtc, rate_of, rtc_write, is_valid_frequency}

-- The frequencies of the clock: the powers of two from 2 to 1024.
abbrev pub IsFrequency : ℕ → Type 0
IsFrequency v = (k : ℕ) × (1 ≤ k) × (k ≤ 10) × (v ≡ 2 ^ k)

-- The exponent of a power of two up to 1024.
exponent : ℕ → ℕ
exponent v =
    if v == 2
    then 1
    else if v == 4
    then 2
    else if v == 8
    then 3
    else if v == 16
    then 4
    else if v == 32
    then 5
    else if v == 64
    then 6
    else if v == 128
    then 7
    else if v == 256
    then 8
    else if v == 512
    then 9
    else if v == 1024
    then 10
    else 0

is_power : ℕ → Bool
is_power v = leb 1 (exponent v) && leb (exponent v) 10 && (v == 2 ^ exponent v)

valid_table : all_below 1025 (λ v. if is_valid_frequency v then is_power v else true) ≡ true
unfolding all_below is_valid_frequency is_power exponent
valid_table = refl

power_table : all_below 11 (λ k. if leb 1 k then is_valid_frequency (2 ^ k) else true) ≡ true
unfolding all_below is_valid_frequency
power_table = refl

valid-le : (v : ℕ) → is_valid_frequency v ≡ true → v < 1025
unfolding is_valid_frequency
valid-le v h = ground arith

pub valid-ge : (v : ℕ) → is_valid_frequency v ≡ true → 2 ≤ v
unfolding is_valid_frequency
valid-ge v h = ground arith

-- The test of `rtc_write` passes exactly for the powers of two from 2 to 1024.
pub valid_iff : (v : ℕ) → (is_valid_frequency v ≡ true) ↔ IsFrequency v
valid_iff v = (to, from)
  where
    to : is_valid_frequency v ≡ true → IsFrequency v
    to h =
        let t = all_below_sound 1025 _ v valid_table (valid-le v h) in
        let p : is_power v ≡ true = rw h at t in
        (
          exponent v,
          unfold is_power in ground arith,
          unfold is_power in ground arith,
          unfold is_power in ground arith,
        )

    from : IsFrequency v → is_valid_frequency v ≡ true
    from (k, lo, hi, e) =
        let t =
          all_below_sound 11 (λ k. if leb 1 k then is_valid_frequency (2 ^ k) else true) k
            power_table (omega arith) in
        rw e (ground arith)

-- `rtc_write` succeeds exactly for four bytes that hold a power of two from 2 to 1024. It then
-- clears the interrupt count and sets the virtual frequency, and otherwise returns -1 and changes
-- nothing.
pub rtc_write_iff :
    (s : Rtc) (value nbytes : ℕ)
    → ((nbytes ≡ 4) × IsFrequency value
        → rtc_write s value nbytes ≡ (0, record s { rtc_inter_count = 0; virt_freq = value }))
      × (¬ ((nbytes ≡ 4) × IsFrequency value) → rtc_write s value nbytes ≡ (minus_one, s))
rtc_write_iff s value nbytes = (accept, refuse)
  where
    accept :
        (nbytes ≡ 4) × IsFrequency value
        → rtc_write s value nbytes ≡ (0, record s { rtc_inter_count = 0; virt_freq = value })
    accept (n, f) = let valid = (valid_iff value).1 f in unfold rtc_write in ground arith

    refuse : ¬ ((nbytes ≡ 4) × IsFrequency value) → rtc_write s value nbytes ≡ (minus_one, s)
    refuse h = elim (Bool-cases (is_valid_frequency value)) [
      | inl valid ↦
          let other : nbytes ≢ 4 = λ n. h (n, (valid_iff value).0 valid) in
          unfold rtc_write in ground arith
      | inr bad ↦ unfold rtc_write in ground arith
    ]

rate_of-power :
    (k : ℕ)
    → 1 ≤ k
    → k ≤ 10
    → (rate_of (2 ^ k) ≡ some (16 - k)) × (32768 / 2 ^ (16 - k - 1) ≡ 2 ^ k)
unfolding rate_of
rate_of-power zero lo hi = absurd (omega arith)
rate_of-power (suc zero) lo hi = (refl, refl)
rate_of-power (suc (suc zero)) lo hi = (refl, refl)
rate_of-power (suc (suc (suc zero))) lo hi = (refl, refl)
rate_of-power (suc (suc (suc (suc zero)))) lo hi = (refl, refl)
rate_of-power (suc (suc (suc (suc (suc zero))))) lo hi = (refl, refl)
rate_of-power (suc (suc (suc (suc (suc (suc zero)))))) lo hi = (refl, refl)
rate_of-power (suc (suc (suc (suc (suc (suc (suc zero))))))) lo hi = (refl, refl)
rate_of-power (suc (suc (suc (suc (suc (suc (suc (suc zero)))))))) lo hi = (refl, refl)
rate_of-power (suc (suc (suc (suc (suc (suc (suc (suc (suc zero))))))))) lo hi = (refl, refl)
rate_of-power (suc (suc (suc (suc (suc (suc (suc (suc (suc (suc zero)))))))))) lo hi = (refl, refl)
rate_of-power (suc (suc (suc (suc (suc (suc (suc (suc (suc (suc (suc (k)))))))))))) lo hi =
    absurd (omega arith)

rate_cases :
    (f r : ℕ)
    → rate_of f ≡ some r
    → (f ≡ 2 ^ exponent f) × (1 ≤ exponent f) × (exponent f ≤ 10) × (r < 16)
unfolding rate_of exponent
rate_cases f r h = ground arith

-- `rtc_set_frequency` knows exactly the frequencies that `rtc_write` accepts, and its rate code is
-- the one at which the clock divides 32768 Hz down to the frequency.
pub rate_of_iff :
    (f : ℕ)
    → (IsFrequency f → (r : ℕ) × (rate_of f ≡ some r) × (32768 / 2 ^ (r - 1) ≡ f))
      × ((r : ℕ) → rate_of f ≡ some r → IsFrequency f × (r < 16))
rate_of_iff f = (to, from)
  where
    to : IsFrequency f → (r : ℕ) × (rate_of f ≡ some r) × (32768 / 2 ^ (r - 1) ≡ f)
    to (k, lo, hi, e) = let (a, b) = rate_of-power k lo hi in (16 - k, rw e a, rw e b)

    from : (r : ℕ) → rate_of f ≡ some r → IsFrequency f × (r < 16)
    from r h = let (e, lo, hi, small) = rate_cases f r h in ((exponent f, lo, hi, e), small)
