-- ===== src/Terminal.antt =====
-- The terminals of student-distrib/keyboard.c: the three line buffers and the routines that the
-- keyboard interrupt and the file operations of stdin and stdout run on them.
pub mod Line
pub mod Limits
use linux_os.Prelude.{
  ℕ, zero, suc, ◌+◌, ◌-◌, ◌*◌, Bool, List, [], ◌∷◌, ◌++◌, Option, none, some, ltb, leb, ◌==◌, not,
  ◌||◌, if◌then◌else◌, u32, update,
}
use linux_os.Screen.{Screen, clear, reset_position, back_space, putc, set_screen_pos}

abbrev pub keyboard_max_buffer : ℕ
keyboard_max_buffer = 128

-- `terminal_t`. The size is never negative: `terminal_backspace` tests for 0 first.
pub record Term : Type 0 where
  pub keyboard_buffer : ℕ → ℕ
  pub cursor_pos_x : ℕ
  pub cursor_pos_y : ℕ
  pub keyboard_buffer_size : ℕ
  pub allow_terminal_read : ℕ
  pub terminal_buffer : ℕ → ℕ

-- The array `terminal`, the one on display and the screen.
pub record Terminals : Type 0 where
  pub terminal : ℕ → Term
  pub display_terminal_id : ℕ
  pub screen : Screen

abbrev pub displayed : Terminals → Term
displayed s = s.terminal s.display_terminal_id

abbrev pub with_displayed : Terminals → Term → Terminals
with_displayed s t = record s { terminal = update s.terminal s.display_terminal_id t }

unfoldable pub clear_screen : Terminals → Terminals
clear_screen s = record s { screen = reset_position (clear s.screen) }

unfoldable pub terminal_backspace : Terminals → Terminals
terminal_backspace s =
    let t = displayed s in
    let erased : Term = record t {
      keyboard_buffer = update t.keyboard_buffer t.keyboard_buffer_size 0;
      keyboard_buffer_size = t.keyboard_buffer_size - 1;
    } in
    if t.keyboard_buffer_size == 0
    then s
    else record (with_displayed s erased) { screen = back_space (putc 32 (back_space s.screen)) }

-- The loop of `terminal_open` over the buffer: `rounds` are left, from `i` on.
unfoldable pub clear_buffer : ℕ → ℕ → (ℕ → ℕ) → ℕ → ℕ
clear_buffer zero i buffer = buffer
clear_buffer (suc rounds) i buffer = clear_buffer rounds (i + 1) (update buffer i 0)

-- One round of its outer loop, which always resets the displayed terminal.
unfoldable pub reset_displayed : Terminals → Terminals
reset_displayed s =
    let t = displayed s in
    with_displayed s (record t {
      allow_terminal_read = 0;
      cursor_pos_x = 0;
      cursor_pos_y = 0;
      keyboard_buffer_size = 0;
      keyboard_buffer = clear_buffer keyboard_max_buffer 0 t.keyboard_buffer;
    })

unfoldable pub terminal_open : Terminals → ℕ × Terminals
unfolding reset_displayed
terminal_open s =
    (0, reset_displayed (reset_displayed (reset_displayed (record s { display_terminal_id = 0 }))))

unfoldable pub terminal_close : Terminals → ℕ × Terminals
terminal_close s = (0, s)

unfoldable pub terminal_buf_add : ℕ → Terminals → Terminals
terminal_buf_add c s =
    let t = displayed s in
    let added : Term = record t {
      keyboard_buffer = update t.keyboard_buffer t.keyboard_buffer_size c;
      keyboard_buffer_size = t.keyboard_buffer_size + 1;
    } in
    let shown : Terminals = record s { screen = putc c s.screen } in
    if leb (keyboard_max_buffer - 2) t.keyboard_buffer_size
    then s
    else if c == 10
    then with_displayed shown (record added { allow_terminal_read = 1 })
    else with_displayed shown added

-- The loop of `terminal_read`: `rounds` bytes may still be copied, from index `i` on. The result is
-- what is placed at `buf + i`, the number of bytes counted and the buffer left.
pub record Copied : Type 0 where
  pub out : List ℕ
  pub numbytes : ℕ
  pub buffer : ℕ → ℕ

unfoldable pub copy_line : ℕ → ℕ → (ℕ → ℕ) → Copied
copy_line zero i buffer = record { out = []; numbytes = 0; buffer = buffer }
copy_line (suc rounds) i buffer =
    let rest = copy_line rounds (i + 1) (update buffer i 0) in
    if buffer i == 0
    then record { out = 0 ∷ []; numbytes = 0; buffer = update buffer i 0 }
    else record { out = buffer i ∷ rest.out; numbytes = rest.numbytes + 1; buffer = rest.buffer }

-- `terminal_read` behind its spin, with interrupts off.
unfoldable pub take_line : ℕ → Terminals → Copied × Terminals
take_line nbytes s =
    let t = displayed s in
    let line = copy_line nbytes 0 t.keyboard_buffer in
    (
      line,
      with_displayed s (record t {
        keyboard_buffer = line.buffer;
        keyboard_buffer_size = 0;
        allow_terminal_read = 0;
      }),
    )

-- `memcpy` of the 4000 bytes of a screen from one array to another.
unfoldable pub copy_terminal : (ℕ → ℕ) → (ℕ → ℕ) → ℕ → ℕ
copy_terminal dest src i = if ltb i 4000 then src i else dest i

unfoldable pub cpy_screen_pos : Terminals → Terminals
cpy_screen_pos s =
    with_displayed s
      (record (displayed s) { cursor_pos_x = s.screen.screen_x; cursor_pos_y = s.screen.screen_y })

-- The screen is saved to the terminal on display, and the new terminal's is shown.
unfoldable pub swap_screens : ℕ → Terminals → Terminals
unfolding cpy_screen_pos copy_terminal
swap_screens tid s =
    let placed = cpy_screen_pos s in
    let saved = with_displayed placed (record (displayed placed) {
      terminal_buffer = copy_terminal (displayed placed).terminal_buffer s.screen.video;
    }) in
    let chosen : Terminals = record saved { display_terminal_id = tid } in
    let t = displayed chosen in
    record chosen {
      screen =
          set_screen_pos t.cursor_pos_x t.cursor_pos_y
            (record s.screen { video = copy_terminal s.screen.video t.terminal_buffer });
    }

-- What a keyboard interrupt does to the terminals while a read spins: a character, the backspace, the
-- clear of the screen, or a switch to a terminal, which returns.
pub data Key : Type 0 where
  char : ℕ → Key
  erase : Key
  wipe : Key
  show : ℕ → Key

unfoldable pub key_event : Key → Terminals → Terminals
key_event (char c) s = terminal_buf_add c s
key_event erase s = terminal_backspace s
key_event wipe s = clear_screen s
key_event (show tid) s = if s.display_terminal_id == tid || ltb 2 tid then s else swap_screens tid s

-- Characters that are typed.
abbrev pub typing : List ℕ → List Key
typing [] = []
typing (c ∷ cs) = char c ∷ typing cs

-- `terminal_read`. Its spin ends when the terminal then displayed allows the read; `keys` are the
-- keyboard interrupts that come meanwhile, and `none` says that it still spins.
unfoldable pub terminal_read : ℕ → List Key → Terminals → Option (Copied × Terminals)
unfolding key_event
terminal_read nbytes [] s =
    if (displayed s).allow_terminal_read == 0 then none else some (take_line nbytes s)
terminal_read nbytes (key ∷ keys) s =
    let rest = terminal_read nbytes keys (key_event key s) in
    if (displayed s).allow_terminal_read == 0 then rest else some (take_line nbytes s)

-- `terminal_write` of the bytes at `buf`: the number returned does not count newlines.
unfoldable pub terminal_write : List ℕ → Terminals → ℕ × Terminals
terminal_write [] s = (0, s)
terminal_write (c ∷ buf) s =
    let (n, t) = terminal_write buf (record s { screen = putc c s.screen }) in
    ((if c == 10 then n else n + 1), t)
