-- ===== src/Fish.antt =====
-- The user program fish/fish.c. The blinking itself is fish/blink.S: its state `M` and what its
-- routines do with it are parameters.
pub mod Bytes
pub mod Show
use linux_os.Prelude.{
  ℕ, zero, suc, ◌+◌, ◌*◌, ◌%◌, Bool, true, false, not, List, [], ◌∷◌, Option, none, some, ◌==◌, ltb,
  ◌&&◌, ◌||◌, if◌then◌else◌, Memory, update, minus_one, set,
}
use linux_os.Prelude.Text.{codes, ◌>>=◌}
use linux_os.Strings.{head_or}
use linux_os.Kernel.{Kernel}
use linux_os.FileCalls.{Interrupts, syscall_open, syscall_close, syscall_read}
use linux_os.TaskCalls.{syscall_vidmap}
use linux_os.Programs.{write_out}
use linux_os.Console.{Answer, answer}

-- fish/blink.h. A pointer is an address, 0 for NULL.
pub record Blink : Type 0 where
  pub location : ℕ
  pub on_char : ℕ
  pub off_char : ℕ
  pub on_length : ℕ
  pub off_length : ℕ
  pub countdown : ℕ
  pub status : ℕ
  pub next : ℕ

-- The loop of `ece391_memset`: `n` bytes are left.
unfoldable pub ece391_memset : Memory → ℕ → ℕ → ℕ → Memory
ece391_memset m memory c zero = m
ece391_memset m memory c (suc n) = ece391_memset (update m memory (c % 256)) (memory + 1) c n

unfoldable pub ece391_memcpy : Memory → ℕ → ℕ → ℕ → Memory
ece391_memcpy m dest src zero = m
ece391_memcpy m dest src (suc n) = ece391_memcpy (update m dest (m src)) (dest + 1) (src + 1) n

-- The index of the first free entry of `blink_array`, or NULL.
unfoldable pub mp1_malloc : List Blink → Option ℕ
mp1_malloc [] = none
mp1_malloc (b ∷ array) =
    let rest = mp1_malloc array in
    if b.location == 0 then some 0 else elim rest [ none ↦ none | some i ↦ some (i + 1) ]

-- A structure of zeros is free.
unfoldable pub mp1_free : List Blink → ℕ → List Blink
mp1_free array i = set array i (record {
  location = 0;
  on_char = 0;
  off_char = 0;
  on_length = 0;
  off_length = 0;
  countdown = 0;
  status = 0;
  next = 0;
})

-- `pointer` is the address of `vmem_base_addr`; NULL is `none`.
unfoldable pub mp1_set_video_mode : ℕ → Kernel → Option ℕ × Kernel
mp1_set_video_mode pointer k =
    let (ret, base, k') = syscall_vidmap k pointer in
    ((if ret == minus_one then none else base), k')

-- One of the two pictures: the last character and whether its end was read.
pub record Reader : Type 0 where
  pub ch : ℕ
  pub eof : Bool

-- The state of the loops of `add_frames`.
pub record Drawing {ℓ} (M : Type ℓ) : Type ℓ where
  pub r0 : Reader
  pub r1 : Reader
  pub mp1 : M
  pub kernel : Kernel

-- `c0` and `c1` stand at one address `buf`, since only NULL matters for a read.
module _ (now : Interrupts) (buf : ℕ) where
  -- A character of a picture, if its line goes on. A failed read leaves the character.
  unfoldable pub read_char : ℕ → Reader → Kernel → Option (Reader × Kernel)
  unfolding answer
  read_char fd r k =
      let more : Option (Reader × Kernel) = (do
        got ← answer (syscall_read now k fd buf 1)
        some (
          if got.0 == 0
              then record { ch = 10; eof = true }
              else record r { ch = elim got.1 [ [] ↦ r.ch | c ∷ cs ↦ c ] },
          got.2,
        )) in
      if r.ch == 10 then some (r, k) else more

-- The character that blinks: a space behind the end of the line.
unfoldable pub shown_char : ℕ → ℕ
shown_char c = if c == 10 then 32 else c

-- The test and the structure for a place; `countdown`, `status` and `next` are not set by the source,
-- and `stale` is what they hold.
unfoldable pub is_drawn : ℕ → ℕ → Bool
is_drawn c0 c1 = not (c0 == 32) && not (c0 == 10) || not (c1 == 32) && not (c1 == 10)

unfoldable pub blink_at : Blink → ℕ → ℕ → ℕ → ℕ → Blink
unfolding shown_char
blink_at stale row col c0 c1 = record stale {
  location = (row * 80 + col + 40) % 65536;
  on_char = shown_char c0;
  off_char = shown_char c1;
  on_length = 15;
  off_length = 15;
}

module _ {M : Type 0} (add : Blink → M → M) (stale : Blink) (now : Interrupts)
    (buf fd0 fd1 : ℕ) where
  -- The loop over the columns of a row: `rounds` at most, from `col` on.
  unfoldable pub draw_row : ℕ → ℕ → ℕ → Drawing M → Option (Drawing M)
  unfolding read_char is_drawn blink_at
  draw_row zero row col d = none
  draw_row (suc rounds) row col d = do
    first ← read_char now buf fd0 d.r0 d.kernel
    second ← read_char now buf fd1 d.r1 first.1
    let c0 = first.0.ch
    let c1 = second.0.ch
    let drawn = if is_drawn c0 c1 then add (blink_at stale row col c0 c1) d.mp1 else d.mp1
    let next =
        draw_row rounds row (col + 1)
          (record { r0 = first.0; r1 = second.0; mp1 = drawn; kernel = second.1 })
    if (c0 == 10) && (c1 == 10)
        then some (record { r0 = first.0; r1 = second.0; mp1 = d.mp1; kernel = second.1 })
        else next

  -- Behind a row: at its end a picture is closed, and otherwise its next line starts with a
  -- character that is no newline.
  unfoldable pub end_row : ℕ → Reader → Kernel → Option (Reader × Kernel)
  end_row fd r k =
      if r.eof
      then (do closed ← answer (syscall_close k fd); some (record r { ch = 10 }, closed.2))
      else some (record r { ch = b'0' }, k)

  unfoldable pub draw_rows : ℕ → ℕ → ℕ → Drawing M → Option (Drawing M)
  unfolding draw_row end_row
  draw_rows zero cols row d = none
  draw_rows (suc rounds) cols row d =
      let more = (do
        drawn ← draw_row cols row 0 d
        first ← end_row fd0 drawn.r0 drawn.kernel
        second ← end_row fd1 drawn.r1 first.1
        draw_rows rounds cols (row + 1)
            (record { r0 = first.0; r1 = second.0; mp1 = drawn.mp1; kernel = second.1 })) in
      if d.r0.eof && d.r1.eof then some d else more

-- A negative descriptor.
abbrev pub is_negative : ℕ → Bool
is_negative fd = ltb 2147483647 fd

-- What the program ends with.
pub record Ended (M : Type 0) : Type 0 where
  pub value : ℕ
  pub mp1 : M
  pub kernel : Kernel

module _ {M : Type 0} (add : Blink → M → M) (stale : Blink) (now : Interrupts)
    (buf rounds cols : ℕ) where
  -- `add_frames`, with what follows it: a picture that cannot be opened halts the program.
  unfoldable pub add_frames :
      ℕ → ℕ → (M → Kernel → Option (Ended M)) → M → Kernel → Option (Ended M)
  unfolding draw_rows
  add_frames f0 f1 next mp1 k = do
    first ← answer (syscall_open k f0 (codes "frame0.txt"))
    let start : Reader = record { ch = b'0'; eof = false }
    let opened : Option (Ended M) = (do
      second ← answer (syscall_open first.2 f1 (codes "frame1.txt"))
      let drawn : Option (Ended M) = (do
        d ←
            draw_rows add stale now buf first.0 second.0 rounds cols 0
              (record { r0 = start; r1 = start; mp1 = mp1; kernel = second.2 })
        next d.mp1 d.kernel)
      if is_negative second.0
          then some (record { value = minus_one; mp1 = mp1; kernel = second.2 })
          else drawn)
    if is_negative first.0
        then some (record { value = minus_one; mp1 = mp1; kernel = first.2 })
        else opened

  -- The waits of `main`: `n` ticks of the clock, with the tasklet behind each. `unset` is what the
  -- structure of `main` holds before it is filled.
  module _ (tasklet : M → M) (env : ℕ → Interrupts) (garbage : ℕ) (unset : Blink) where
    unfoldable pub wait_ticks : ℕ → ℕ → M → Kernel → Option (M × Kernel)
    wait_ticks rtc_fd zero mp1 k = some (mp1, k)
    wait_ticks rtc_fd (suc n) mp1 k = do
      tick ← answer (syscall_read (env n) k rtc_fd garbage 4)
      wait_ticks rtc_fd n (tasklet mp1) tick.2

    -- `main` behind `add_frames`. RTC_ADD is 0, RTC_REMOVE 1 and RTC_SYNC 3.
    unfoldable pub show_fish : (ℕ → ℕ → M → M) → ℕ → M → Kernel → Option (Ended M)
    unfolding wait_ticks
    show_fish ioctl rtc_fd mp1 k = do
      rate ← answer (write_out k rtc_fd (32 ∷ 0 ∷ 0 ∷ 0 ∷ []) 4)
      w1 ← wait_ticks rtc_fd 100 mp1 rate.2
      let blinking = record unset {
        location = 540;
        on_char = b'I';
        off_char = b'M';
        on_length = 7;
        off_length = 6;
      }
      w2 ← wait_ticks rtc_fd 100 (add blinking w1.0) w1.1
      w3 ← wait_ticks rtc_fd 100 (ioctl (40 * 65536 + 540) 3 w2.0) w2.1
      w4 ← wait_ticks rtc_fd 100 (ioctl 540 1 w3.0) w3.1
      closed ← answer (syscall_close w4.1 rtc_fd)
      some (record { value = 0; mp1 = w4.0; kernel = closed.2 })

    -- `main`; `mp1` has a `blink_array` of zeros. `base` is the address of `vmem_base_addr`, `rtc`
    -- that of the name "rtc".
    unfoldable pub fish : (ℕ → ℕ → M → M) → ℕ → ℕ → ℕ → ℕ → M → Kernel → Option (Ended M)
    unfolding mp1_set_video_mode add_frames show_fish
    fish ioctl base rtc f0 f1 mp1 k =
        let mode = mp1_set_video_mode base k in
        let ran : Option (Ended M) = (do
          opened ← answer (syscall_open mode.1 rtc (codes "rtc"))
          add_frames f0 f1 (show_fish ioctl opened.0) mp1 opened.2) in
        elim mode.0 [
          | none ↦ some (record { value = minus_one; mp1 = mp1; kernel = mode.1 })
          | some address ↦ ran
        ]
