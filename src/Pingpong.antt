-- ===== src/Pingpong.antt =====
-- The user program syscalls/ece391pingpong.c: a letter that moves between two walls, one step for each
-- tick of the clock. The loop of the source has no end; here it makes `rounds` rounds.
pub mod Frames
pub mod Play
pub mod Lines
pub mod Film
use linux_os.Prelude.{ℕ, zero, suc, ◌+◌, ◌%◌, List, [], ◌∷◌, Option, some, ◌==◌, if◌then◌else◌, set}
use linux_os.Prelude.Text.{codes, ◌>>=◌}
use linux_os.Kernel.{Kernel}
use linux_os.FileCalls.{Interrupts, syscall_open, syscall_read}
use linux_os.Programs.{write_out}
use linux_os.Console.{answer, say}

-- A loop that stores spaces: `rounds` are left, from `i` on.
unfoldable pub clear_from : ℕ → ℕ → List ℕ → List ℕ
clear_from zero i buf = buf
clear_from (suc rounds) i buf = clear_from rounds (i + 1) (set buf i 32)

-- The buffer of 81 bytes with its walls. BUFMAX - 1 is 80 and START is 1, as the macros expand.
unfoldable pub walled : List ℕ → List ℕ
unfolding clear_from
walled buf = set (set (set (set (clear_from 81 0 buf) 80 0) 79 10) 78 b'|') 1 b'|'

-- STARTLOOP is 2, and LOOPMAX, which expands to 79 + 2 - 2 - 1, is 78.
unfoldable pub draw : ℕ → ℕ → List ℕ → List ℕ
unfolding clear_from
draw curchar j buf = set (clear_from 76 2 buf) j curchar

unfoldable pub next_char : ℕ → ℕ
next_char curchar = if curchar == b'Z' then b'A' else (curchar + 1) % 256

-- What the loops change: the buffer and the kernel, and the number of ticks waited for.
pub record World : Type 0 where
  pub buf : List ℕ
  pub ticks : ℕ
  pub kernel : Kernel

module _ (rtc_fd garbage : ℕ) (env : ℕ → Interrupts) where
  -- The buffer is shown, and a tick is waited for.
  unfoldable pub show_frame : World → Option World
  unfolding say answer
  show_frame w = do
    k1 ← say w.buf w.kernel
    tick ← answer (syscall_read (env w.ticks) k1 rtc_fd garbage 4)
    some (record w { ticks = w.ticks + 1; kernel = tick.2 })

  -- Out to the right: `rounds` positions are left, from `j` on.
  unfoldable pub move_out : ℕ → ℕ → ℕ → World → Option World
  unfolding draw show_frame
  move_out curchar zero j w = some w
  move_out curchar (suc rounds) j w = do
    shown ← show_frame (record w { buf = draw curchar j w.buf })
    move_out curchar rounds (j + 1) shown

  -- Back to the left: `rounds` positions are left, the last one is 2.
  unfoldable pub bounce_back : ℕ → ℕ → World → Option World
  unfolding draw show_frame
  bounce_back curchar zero w = some w
  bounce_back curchar (suc rounds) w = do
    shown ← show_frame (record w { buf = draw curchar (rounds + 2) w.buf })
    bounce_back curchar rounds shown

  unfoldable pub pong : ℕ → ℕ → World → Option World
  unfolding move_out bounce_back next_char
  pong zero curchar w = some w
  pong (suc rounds) curchar w = do
    out ← move_out curchar 76 2 w
    back ← bounce_back curchar 76 out
    pong rounds (next_char curchar) back

-- `rtc` is the address of the string "rtc", `garbage` that of the word that the clock is read into.
unfoldable pub pingpong : ℕ → ℕ → (ℕ → Interrupts) → ℕ → List ℕ → Kernel → Option World
unfolding walled pong answer
pingpong rtc garbage env rounds buf k = do
  opened ← answer (syscall_open k rtc (codes "rtc"))
  set_rate ← answer (write_out opened.2 opened.0 (32 ∷ 0 ∷ 0 ∷ 0 ∷ []) 4)
  pong opened.0 garbage env rounds b'A'
      (record { buf = walled buf; ticks = 0; kernel = set_rate.2 })
