-- ===== src/Pingpong/Film.antt =====
-- A whole run of syscalls/ece391pingpong.c: what is on the terminal, and the clock behind it.
use native.Mathlib.Nat.{suc-ne-zero}
use linux_os.Prelude.{
  ℕ, suc, ◌+◌, ◌*◌, ◌≤◌, ◌≡◌, ◌≢◌, ◌∙◌, refl, sym, ap, List, [], ◌∷◌, Option, some, true, false,
  ◌==◌, arith, length, replicate,
}
use linux_os.Prelude.Text.{codes}
use linux_os.Rtc.Wait.{ticks, virt_freq-ticks}
use linux_os.Fs.{Dentry, read_dentry_by_name}
use linux_os.Terminal.{terminal_write}
use linux_os.Kernel.{Kernel, FileDescriptor, Fops, current, with_fd}
use linux_os.FileCalls.{Interrupts, find_fd, syscall_open, syscall_read}
use linux_os.FileCalls.Open.{fd-with_fd, find_fd-some}
use linux_os.Programs.{write_out}
use linux_os.Programs.Output.{shown, shown-append, with_line, HasOutput, kept-HasOutput}
use linux_os.Programs.Opening.{open_clock}
use linux_os.Programs.Clock.{IsClock, waited, read_tick, set_rate, other_rtc-IsClock}
use linux_os.Console.{answer, c_text}
use linux_os.Console.Typing.{say_lem}
use linux_os.Pingpong.{World, walled, show_frame, pong, pingpong}
use linux_os.Pingpong.Frames.{between, picture, walled_lem}
use linux_os.Pingpong.Play.{Frame, all_frames, play, pong_lem}
use linux_os.Pingpong.Lines.{line_of, film, Lettered, all-Lettered, picture-line, length-all}

-- A kernel with the clock at 32 ticks a second as `fd`, and the terminal as its output.
record IsReady (k : Kernel) (fd : ℕ) : Type 0 where
  clock : IsClock k fd
  output : HasOutput k
  rate : k.rtc.virt_freq ≡ 32

-- A line is shown, and a tick has come.
abbrev behind : List ℕ → Kernel → Kernel
behind line k = record (with_line line k) { rtc = ticks 32 (record k.rtc { rtc_inter_count = 0 }) }

behind-IsReady : (line : List ℕ) (k : Kernel) (fd : ℕ) → IsReady k fd → IsReady (behind line k) fd
unfolding HasOutput
behind-IsReady line k fd ready = record {
  clock = record {
    low = ready.clock.low;
    high = ready.clock.high;
    used = ready.clock.used;
    table = ready.clock.table;
  };
  output = ready.output;
  rate = virt_freq-ticks 32 (record k.rtc { rtc_inter_count = 0 }) ∙ ready.rate;
}

module _ (fd garbage : ℕ) (env : ℕ → Interrupts) (enough : (i : ℕ) → 32 ≤ (env i).ticks) where
  show_frame_lem :
      (w : World)
      → IsReady w.kernel fd
      → show_frame fd garbage env w
        ≡ some (record w { ticks = w.ticks + 1; kernel = behind (c_text w.buf) w.kernel })
  unfolding show_frame
  show_frame_lem w ready =
      let k1 = with_line (c_text w.buf) w.kernel in
      let clock : IsClock k1 fd = record {
        low = ready.clock.low;
        high = ready.clock.high;
        used = ready.clock.used;
        table = ready.clock.table;
      } in
      let tick : answer (syscall_read (env w.ticks) k1 fd garbage 4)
          ≡ some (0, [], behind (c_text w.buf) w.kernel) =
        ap answer (read_tick k1 fd clock (env w.ticks) garbage ready.rate (enough w.ticks))
        ∙ (unfold answer in refl) in
      rw (say_lem w.buf w.kernel ready.output, tick) refl

  play_lem :
      (fs : List Frame) (w : World)
      → Lettered fs
      → IsReady w.kernel fd
      → (buf : List ℕ) × (play fd garbage env fs w
          ≡ some (record {
            buf = buf;
            ticks = w.ticks + length fs;
            kernel = record w.kernel {
              terminals = shown (film fs) w.kernel.terminals;
              rtc = waited (length fs) w.kernel.rtc;
            };
          }))
  unfolding play film waited
  play_lem [] w ok ready =
      let count : w.ticks ≡ w.ticks + 0 = omega arith in
      (w.buf, (unfold terminal_write in ap (λ n. some (record w { ticks = n })) count))
  play_lem (f ∷ fs) w ok ready =
      let line = line_of f in
      let k1 = behind line w.kernel in
      let w1 : World = record { buf = picture f.letter f.left; ticks = w.ticks + 1; kernel = k1 } in
      let showed : show_frame fd garbage env (record w { buf = picture f.letter f.left })
          ≡ some w1 =
        show_frame_lem (record w { buf = picture f.letter f.left }) ready
        ∙ ap
            (λ l. some (record w {
              buf = picture f.letter f.left;
              ticks = w.ticks + 1;
              kernel = behind l w.kernel;
            }))
            (picture-line f ok.0) in
      let (buf, plays) = play_lem fs w1 ok.1 (behind-IsReady line w.kernel fd ready) in
      let count : w.ticks + 1 + length fs ≡ w.ticks + suc (length fs) = omega arith in
      let rest = shown-append line (film fs) w.kernel.terminals in
      (buf, rw (showed, ← count, rest) plays)

-- The descriptor that is opened on the clock, and the kernel behind the open.
abbrev pub clock_fd : Kernel → ℕ → FileDescriptor
clock_fd k fd = record ((current k).fd fd) { fops_table = some Fops.rtc_fops; flags = 1 }

abbrev opened_clock : Kernel → ℕ → Kernel
opened_clock k fd = with_fd (record k { rtc = record k.rtc { virt_freq = 2 } }) fd (clock_fd k fd)

module _ (k : Kernel) (fd : ℕ) (free : find_fd 6 2 (current k).fd ≡ some fd) where
  opened-IsClock : IsClock (opened_clock k fd) fd
  opened-IsClock =
      let (low, high, _, _) = find_fd-some 6 2 (current k).fd fd free in
      let here : (fd == fd) ≡ true = ground arith in
      let at : (current (opened_clock k fd)).fd fd ≡ clock_fd k fd =
        fd-with_fd (record k { rtc = record k.rtc { virt_freq = 2 } }) fd (clock_fd k fd) fd
        ∙ rw here refl in
      record {
        low = omega (arith, low);
        high = omega (arith, high);
        used = λ e. suc-ne-zero 0 (sym (ap (λ (x : FileDescriptor). x.flags) at) ∙ e);
        table = ap (λ (x : FileDescriptor). x.fops_table) at;
      }

  opened-HasOutput : HasOutput k → HasOutput (opened_clock k fd)
  opened-HasOutput =
      let (low, high, _, _) = find_fd-some 6 2 (current k).fd fd free in
      let other : (1 == fd) ≡ false = ground (arith, low) in
      kept-HasOutput k (opened_clock k fd) (
        fd-with_fd (record k { rtc = record k.rtc { virt_freq = 2 } }) fd (clock_fd k fd) 1
        ∙ rw other refl)

rate-IsReady :
    (k : Kernel) (fd : ℕ)
    → IsClock k fd
    → HasOutput k
    → IsReady (record k { rtc = record k.rtc { rtc_inter_count = 0; virt_freq = 32 } }) fd
unfolding HasOutput
rate-IsReady k fd clock output = record {
  clock = other_rtc-IsClock k fd (record k.rtc { rtc_inter_count = 0; virt_freq = 32 }) clock;
  output = output;
  rate = refl;
}

-- With a file "rtc" of the clock, a free descriptor, the terminal as the output, and at least 32
-- interrupts of the clock in every read, each number of rounds comes to its end. The program has then
-- shown exactly these pictures in this order: in the round `i` the letter number `i` of the alphabet,
-- from A to Z and around, alone between the walls, behind 0 to 75 spaces and then behind 75 to 0. The
-- clock was set to 32 ticks a second and then waited for 152 times in every round, as often as a
-- picture was shown. The buffer of 81 bytes is not initialised.
pub pingpong_lem :
    (rtc garbage rounds fd : ℕ) (env : ℕ → Interrupts) (bytes : List ℕ) (dentry : Dentry)
    (k : Kernel)
    → length bytes ≡ 81
    → rtc ≢ 0
    → HasOutput k
    → find_fd 6 2 (current k).fd ≡ some fd
    → read_dentry_by_name k.fs (codes "rtc") 1 ≡ some dentry
    → dentry.type ≡ 0
    → ((i : ℕ) → 32 ≤ (env i).ticks)
    → (buf : List ℕ) × (pingpong rtc garbage env rounds bytes k
        ≡ some (record {
          buf = buf;
          ticks = 152 * rounds;
          kernel = record (with_fd k fd (clock_fd k fd)) {
            terminals = shown (film (all_frames rounds 0)) k.terminals;
            rtc = waited (152 * rounds) (record k.rtc { rtc_inter_count = 0; virt_freq = 32 });
          };
        }))
unfolding pingpong
pingpong_lem rtc garbage rounds fd env bytes dentry k size given output free found clock enough =
    let k1 = opened_clock k fd in
    let k2 : Kernel = record k1 { rtc = record k.rtc { rtc_inter_count = 0; virt_freq = 32 } } in
    let is_clock = opened-IsClock k fd free in
    let ready = rate-IsReady k1 fd is_clock (opened-HasOutput k fd free output) in
    let opens : answer (syscall_open k rtc (codes "rtc")) ≡ some (fd, [], k1) =
      ap answer (open_clock k rtc fd (codes "rtc") dentry given (suc-ne-zero 113) free found clock)
      ∙ (unfold answer in refl) in
    let rate : answer (write_out k1 fd (32 ∷ 0 ∷ 0 ∷ 0 ∷ []) 4) ≡ some (0, [], k2) =
      ap answer (set_rate k1 fd is_clock) ∙ (unfold answer in refl) in
    let start : World = record { buf = between (replicate 76 32); ticks = 0; kernel = k2 } in
    let walls : record { buf = walled bytes; ticks = 0; kernel = k2 } ≡ start =
      ap (λ b. record { buf = b; ticks = 0; kernel = k2 }) (walled_lem bytes size) in
    let (buf, plays) =
      play_lem fd garbage env enough (all_frames rounds 0) start (all-Lettered rounds 0) ready in
    let end : ℕ → ℕ → Option World = λ n m. some (record {
      buf = buf;
      ticks = n;
      kernel = record k2 {
        terminals = shown (film (all_frames rounds 0)) k.terminals;
        rtc = waited m k2.rtc;
      };
    }) in
    let frames = length (all_frames rounds 0) in
    let ticked : 0 + frames ≡ 152 * rounds = omega (arith, length-all rounds 0) in
    (
      buf,
      rw (opens, rate)
          (ap (pong fd garbage env rounds b'A') walls
            ∙ pong_lem fd garbage env rounds 0 start (replicate 76 32, refl, refl)
            ∙ plays
            ∙ ap (λ n. end n frames) ticked
            ∙ ap (end (152 * rounds)) (length-all rounds 0)),
    )
