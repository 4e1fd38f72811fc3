-- ===== src/Fish/Show.antt =====
-- What `main` of fish/fish.c does with the blinking characters, tick by tick of the clock.
use linux_os.Prelude.{ℕ, zero, suc, ◌≤◌, ◌≡◌, ◌∙◌, refl, ap, [], ◌∷◌, some}
use linux_os.Rtc.{Rtc}
use linux_os.Rtc.Wait.{ticks, virt_freq-ticks}
use linux_os.Kernel.{Kernel, current, with_fd}
use linux_os.FileCalls.{Interrupts, syscall_read}
use linux_os.Programs.{write_out}
use linux_os.Programs.Clock.{
  IsClock, waited, virt_freq-waited, read_tick, set_rate, close_clock, other_rtc-IsClock,
}
use linux_os.Console.{answer}
use linux_os.Fish.{Blink, wait_ticks, show_fish}

-- `n` runs of a routine.
unfoldable pub times : {M : Type 0} → (M → M) → ℕ → M → M
times f zero x = x
times f (suc n) x = times f n (f x)

module _ {M : Type 0} (add : Blink → M → M) (stale : Blink) (now : Interrupts) (buf rounds cols : ℕ)
    (tasklet : M → M) (env : ℕ → Interrupts) (garbage : ℕ) (unset : Blink)
    (enough : (i : ℕ) → 32 ≤ (env i).ticks) (fd : ℕ) where
  wait_ticks_lem :
      (n : ℕ) (mp1 : M) (k : Kernel)
      → IsClock k fd
      → k.rtc.virt_freq ≡ 32
      → wait_ticks add stale now buf rounds cols tasklet env garbage unset fd n mp1 k
        ≡ some (times tasklet n mp1, record k { rtc = waited n k.rtc })
  unfolding wait_ticks times waited
  wait_ticks_lem zero mp1 k clock rate = refl
  wait_ticks_lem (suc n) mp1 k clock rate =
      let s = ticks 32 (record k.rtc { rtc_inter_count = 0 }) in
      let tick : answer (syscall_read (env n) k fd garbage 4) ≡ some (0, [], record k { rtc = s }) =
        ap answer (read_tick k fd clock (env n) garbage rate (enough n))
        ∙ (unfold answer in refl) in
      rw tick (
        wait_ticks_lem n (tasklet mp1) (record k { rtc = s }) (other_rtc-IsClock k fd s clock)
          (virt_freq-ticks 32 (record k.rtc { rtc_inter_count = 0 }) ∙ rate))

-- What the show does to the blinking: 100 ticks, the "IM" is added, 100 ticks, it moves 40 columns,
-- 100 ticks, its place is cleared, and 100 ticks.
abbrev pub blinked : {M : Type 0} → (Blink → M → M) → Blink → (M → M) → (ℕ → ℕ → M → M) → M → M
blinked add unset tasklet ioctl mp1 =
    let im = record unset {
      location = 540;
      on_char = b'I';
      off_char = b'M';
      on_length = 7;
      off_length = 6;
    } in
    times tasklet 100 (
      ioctl 540 1
        (times tasklet 100 (ioctl 2621980 3 (times tasklet 100 (add im (times tasklet 100 mp1))))))

-- The clock behind the four waits.
abbrev pub rung : Rtc → Rtc
rung s =
    waited 100
      (waited 100 (waited 100 (waited 100 (record s { rtc_inter_count = 0; virt_freq = 32 }))))

-- With a descriptor of the clock, and at least 32 interrupts of the clock in every read, the show
-- comes to its end: it sets the clock to 32 a second, runs the tasklet exactly 100 times before the
-- "IM" is added, 100 times from there until it is moved, 100 times until it is removed and 100 times
-- more, closes the descriptor, and returns 0.
pub show_fish_lem :
    {M : Type 0} (add : Blink → M → M) (stale : Blink) (now : Interrupts) (buf rounds cols : ℕ)
    (tasklet : M → M) (env : ℕ → Interrupts) (garbage : ℕ) (unset : Blink) (ioctl : ℕ → ℕ → M → M)
    (fd : ℕ) (mp1 : M) (k : Kernel)
    → ((i : ℕ) → 32 ≤ (env i).ticks)
    → IsClock k fd
    → show_fish add stale now buf rounds cols tasklet env garbage unset ioctl fd mp1 k
      ≡ some (record {
        value = 0;
        mp1 = blinked add unset tasklet ioctl mp1;
        kernel =
            with_fd
              (record k { rtc = rung k.rtc })
              fd
              (record ((current k).fd fd) { file_position = 0; flags = 0 });
      })
unfolding show_fish
show_fish_lem add stale now buf rounds cols tasklet env garbage unset ioctl fd mp1 k enough clock =
    let s0 : Rtc = record k.rtc { rtc_inter_count = 0; virt_freq = 32 } in
    let rate : answer (write_out k fd (32 ∷ 0 ∷ 0 ∷ 0 ∷ []) 4)
        ≡ some (0, [], record k { rtc = s0 }) =
      ap answer (set_rate k fd clock) ∙ (unfold answer in refl) in
    let wait =
      wait_ticks_lem add stale now buf rounds cols tasklet env garbage unset enough fd 100 in
    let s1 = waited 100 s0 in
    let s2 = waited 100 s1 in
    let s3 = waited 100 s2 in
    let s4 = waited 100 s3 in
    let r1 : s1.virt_freq ≡ 32 = virt_freq-waited 100 s0 in
    let r2 : s2.virt_freq ≡ 32 = virt_freq-waited 100 s1 ∙ r1 in
    let r3 : s3.virt_freq ≡ 32 = virt_freq-waited 100 s2 ∙ r2 in
    let c0 = other_rtc-IsClock k fd s0 clock in
    let c1 = other_rtc-IsClock k fd s1 clock in
    let c2 = other_rtc-IsClock k fd s2 clock in
    let c3 = other_rtc-IsClock k fd s3 clock in
    let c4 = other_rtc-IsClock k fd s4 clock in
    let closed = ap answer (close_clock (record k { rtc = s4 }) fd c4) in
    rw
      (
        rate,
        wait mp1 (record k { rtc = s0 }) c0 refl,
        wait _ (record k { rtc = s1 }) c1 r1,
        wait _ (record k { rtc = s2 }) c2 r2,
        wait _ (record k { rtc = s3 }) c3 r3,
        closed,
      )
      (unfold answer in refl)
