-- ===== src/Screen.antt =====
-- The text screen of student-distrib/lib.c: the cursor and the video memory, as `putc` leaves them.
-- `screen_x` and `screen_y` are `int`s by their bit patterns. `video k` is the byte at the address
-- `video_mem + k`, `k` modulo 2 ^ 32; the screen is the first 4000 of them.
pub mod Cursor
pub mod Text
pub mod Rows
use linux_os.Prelude.{
  ℕ, zero, suc, ◌+◌, ◌-◌, ◌*◌, ◌%◌, Bool, ◌||◌, ◌&&◌, List, [], ◌∷◌, ltb, ◌==◌, if◌then◌else◌, u32,
  update,
}

abbrev pub num_cols : ℕ
num_cols = 80

abbrev pub num_rows : ℕ
num_rows = 25

abbrev pub attrib : ℕ
attrib = 0x7

pub record Screen : Type 0 where
  pub screen_x : ℕ
  pub screen_y : ℕ
  pub video : ℕ → ℕ

-- The loop of `clear`: `rounds` cells are left, from `i` on.
unfoldable pub clear_cells : ℕ → ℕ → (ℕ → ℕ) → ℕ → ℕ
clear_cells zero i video = video
clear_cells (suc rounds) i video =
    clear_cells rounds (i + 1) (update (update video (2 * i) 32) (2 * i + 1) attrib)

unfoldable pub clear : Screen → Screen
clear s = record s { video = clear_cells (num_rows * num_cols) 0 s.video }

-- The `memmove` of `scroll_up` by one row, and its loop over the last row.
unfoldable pub move_rows : (ℕ → ℕ) → ℕ → ℕ
move_rows video k =
    if ltb k (num_cols * (num_rows - 1) * 2) then video (k + num_cols * 2) else video k

unfoldable pub clear_line : ℕ → ℕ → (ℕ → ℕ) → ℕ → ℕ
clear_line zero i video = video
clear_line (suc rounds) i video =
    clear_line rounds (i + 1) (update video ((num_cols * (num_rows - 1) + i) * 2) 32)

unfoldable pub scroll_up : Screen → Screen
unfolding move_rows
scroll_up s = record s {
  video = clear_line num_cols 0 (move_rows s.video);
  screen_x = 0;
  screen_y = 24;
}

unfoldable pub set_screen_pos : ℕ → ℕ → Screen → Screen
set_screen_pos x y s = record s { screen_x = x; screen_y = y }

unfoldable pub back_space : Screen → Screen
back_space s = record s { screen_x = u32 (s.screen_x + 4294967295) }

unfoldable pub reset_position : Screen → Screen
reset_position s = record s { screen_x = 0; screen_y = 0 }

-- The offset of the cell at the cursor.
unfoldable pub cell : Screen → ℕ
cell s = u32 ((num_cols * s.screen_y + s.screen_x) * 2)

unfoldable pub store_cell : ℕ → Screen → Screen
unfolding cell
store_cell c s = record s { video = update (update s.video (cell s) c) (u32 (cell s + 1)) attrib }

unfoldable pub putc : ℕ → Screen → Screen
unfolding store_cell
putc c s =
    let stored = store_cell c s in
    if c == 10 || c == 13
    then (if s.screen_y == num_rows - 1
        then scroll_up s
        else record s { screen_y = u32 (s.screen_y + 1); screen_x = 0 })
    else if s.screen_x == num_cols - 1
    then (if s.screen_y == num_rows - 1
        then scroll_up (record stored { screen_x = 0 })
        else record stored { screen_x = 0; screen_y = u32 (s.screen_y + 1) })
    else record stored { screen_x = u32 (s.screen_x + 1) }

-- `puts` of a string, and the number of bytes written.
unfoldable pub puts : List ℕ → Screen → Screen × ℕ
puts [] s = (s, 0)
puts (c ∷ str) s = let (t, n) = puts str (putc c s) in if c == 0 then (s, 0) else (t, n + 1)

unfoldable pub get_ypos : Screen → ℕ
get_ypos s = s.screen_y

-- The loop of `test_interrupts`: `rounds` cells are left, from `i` on; a character is a byte.
unfoldable pub count_cells : ℕ → ℕ → (ℕ → ℕ) → ℕ → ℕ
count_cells zero i video = video
count_cells (suc rounds) i video =
    count_cells rounds (i + 1) (update video (2 * i) ((video (2 * i) + 1) % 256))

unfoldable pub test_interrupts : Screen → Screen
unfolding count_cells
test_interrupts s = record s { video = count_cells (num_rows * num_cols) 0 s.video }
