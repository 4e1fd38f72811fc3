-- ===== src/Programs/Clock.antt =====
-- The clock as a user program has it: its descriptor at 32 ticks a second.
use linux_os.Prelude.{
  ℕ, zero, suc, ◌≤◌, ◌<◌, ◌≡◌, ◌≢◌, ◌∙◌, refl, ap, false, ◌==◌, ltb, ◌||◌, arith, List, [], ◌∷◌,
  some, ◌/◌,
}
use linux_os.Rtc.{Rtc, rtc_read, rtc_write, rtc_close, is_valid_frequency}
use linux_os.Rtc.Wait.{ticks, rtc_read_lem, virt_freq-ticks}
use linux_os.Kernel.{Kernel, Fops, current, with_fd}
use linux_os.FileCalls.{
  Interrupts, returns, syscall_read, run_read, syscall_write, run_write, syscall_close, run_close,
}
use linux_os.Programs.{write_out}

-- The descriptor `fd` is of the clock.
pub record IsClock (k : Kernel) (fd : ℕ) : Type 0 where
  pub low : 1 < fd
  pub high : fd < 8
  pub used : ((current k).fd fd).flags ≢ 0
  pub table : ((current k).fd fd).fops_table ≡ some Fops.rtc_fops

-- The clock behind `n` reads at 32 a second: 32 interrupts each.
unfoldable pub waited : ℕ → Rtc → Rtc
waited zero s = s
waited (suc n) s = waited n (ticks 32 (record s { rtc_inter_count = 0 }))

pub virt_freq-waited : (n : ℕ) (s : Rtc) → (waited n s).virt_freq ≡ s.virt_freq
unfolding waited
virt_freq-waited zero s = refl
virt_freq-waited (suc n) s =
    virt_freq-waited n (ticks 32 (record s { rtc_inter_count = 0 }))
    ∙ virt_freq-ticks 32 (record s { rtc_inter_count = 0 })

module _ (k : Kernel) (fd : ℕ) (clock : IsClock k fd) where
  clock_range : (ltb 7 fd || fd == 1) ≡ false
  clock_range = ground (arith, clock.low, clock.high)

  clock_from_1 : (ltb 7 fd || ltb fd 1) ≡ false
  clock_from_1 = ground (arith, clock.low, clock.high)

  clock_from_2 : (ltb 7 fd || ltb fd 2) ≡ false
  clock_from_2 = ground (arith, clock.low, clock.high)

  clock_used : (((current k).fd fd).flags == 0) ≡ false
  clock_used = ground (arith, clock.used)

  pub read_tick :
      (now : Interrupts) (buf : ℕ)
      → k.rtc.virt_freq ≡ 32
      → 32 ≤ now.ticks
      → syscall_read now k fd buf 4
        ≡ returns 0 [] (record k { rtc = ticks 32 (record k.rtc { rtc_inter_count = 0 }) })
  unfolding run_read
  read_tick now buf rate enough =
      let d = (current k).fd fd in
      let dispatch : syscall_read now k fd buf 4 ≡ run_read now k fd d buf 4 d.fops_table =
        (unfold syscall_read in rw (clock_range, clock_used) refl) in
      let period : 1024 / k.rtc.virt_freq ≡ 32 = ap (λ v. 1024 / v) rate in
      let waits : rtc_read k.rtc now.ticks
          ≡ some (ticks 32 (record k.rtc { rtc_inter_count = 0 })) =
        (rtc_read_lem k.rtc now.ticks (omega (arith, rate))).0 (omega (arith, period, enough))
        ∙ ap (λ n. some (ticks n (record k.rtc { rtc_inter_count = 0 }))) period in
      dispatch ∙ ap (run_read now k fd d buf 4) clock.table ∙ rw (run_read, waits) refl

  pub set_rate :
      write_out k fd (32 ∷ 0 ∷ 0 ∷ 0 ∷ []) 4
      ≡ returns 0 [] (record k { rtc = record k.rtc { rtc_inter_count = 0; virt_freq = 32 } })
  unfolding run_write
  set_rate =
      let d = (current k).fd fd in
      let bytes : List ℕ = 32 ∷ 0 ∷ 0 ∷ 0 ∷ [] in
      let dispatch : syscall_write k fd bytes 32 4 ≡ run_write k fd d bytes 32 4 d.fops_table =
        (unfold syscall_write in rw (clock_from_1, clock_used) refl) in
      let valid : rtc_write k.rtc 32 4 ≡ (0, record k.rtc { rtc_inter_count = 0; virt_freq = 32 }) =
        (unfold rtc_write is_valid_frequency in refl) in
      dispatch ∙ ap (run_write k fd d bytes 32 4) clock.table ∙ rw (run_write, valid) refl

  pub close_clock :
      syscall_close k fd
      ≡ returns 0 [] (with_fd k fd (record ((current k).fd fd) { file_position = 0; flags = 0 }))
  close_clock =
      let d = (current k).fd fd in
      let dispatch : syscall_close k fd ≡ run_close k fd d d.fops_table =
        (unfold syscall_close in rw (clock_from_2, clock_used) refl) in
      dispatch ∙ ap (run_close k fd d) clock.table ∙ (unfold run_close rtc_close in refl)

-- The clock's registers do not matter to its descriptor.
pub other_rtc-IsClock :
    (k : Kernel) (fd : ℕ) (s : Rtc) → IsClock k fd → IsClock (record k { rtc = s }) fd
other_rtc-IsClock k fd s clock = record {
  low = clock.low;
  high = clock.high;
  used = clock.used;
  table = clock.table;
}
