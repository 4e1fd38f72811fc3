-- ===== src/Screen/Text.antt =====
-- Characters on the screen of student-distrib/lib.c, by row and column.
use linux_os.Prelude.{
  ◌∙◌, ap, ℕ, zero, suc, ◌+◌, ◌*◌, ◌%◌, ◌≤◌, ◌<◌, ◌≡◌, ◌≢◌, ◌⊎◌, refl, ltb, leb, ◌==◌, ◌&&◌,
  if◌then◌else◌, arith, update,
}
use linux_os.Screen.{Screen, clear, clear_cells, scroll_up, putc}
use linux_os.Screen.Cursor.{IsValid, scroll_up_lem, scroll_up_position}

abbrev pub char_at : Screen → ℕ → ℕ → ℕ
char_at s row col = s.video ((80 * row + col) * 2)

-- From a cursor on the screen and before the last column, a character other than newline and
-- carriage return is stored at the cursor, which moves on by one column; every other cell of the
-- screen keeps its character.
pub putc_lem :
    (c : ℕ) (s : Screen) (row col : ℕ)
    → IsValid s
    → c ≢ 10
    → c ≢ 13
    → s.screen_x < 79
    → row < 25
    → col < 80
    → let t = putc c s in
      (t.screen_x ≡ s.screen_x + 1)
      × (t.screen_y ≡ s.screen_y)
      × (char_at t s.screen_y s.screen_x ≡ c)
      × ((row ≢ s.screen_y) ⊎ (col ≢ s.screen_x) → char_at t row col ≡ char_at s row col)
unfolding putc
putc_lem c s row col v n r x hr hc = (ground arith, ground arith, ground arith, ground arith)

-- From a cursor on the screen a newline or a carriage return moves the cursor to the start of the
-- next row and changes no character; on the last row it moves each row up by one instead.
pub putc_newline :
    (c : ℕ) (s : Screen) (row col : ℕ)
    → IsValid s
    → (c ≡ 10) ⊎ (c ≡ 13)
    → let t = putc c s in
      (t.screen_x ≡ 0)
      × (s.screen_y < 24 → (t.screen_y ≡ s.screen_y + 1) × (char_at t row col ≡ char_at s row col))
      × (s.screen_y ≡ 24
          → row < 24
          → col < 80
          → (t.screen_y ≡ 24) × (char_at t row col ≡ char_at s (row + 1) col))
unfolding putc
putc_newline c s row col v n =
    let below : (80 * row + col) * 2 + 160 ≡ (80 * (row + 1) + col) * 2 = omega arith in
    let moved : row < 24 → col < 80 → char_at (scroll_up s) row col ≡ char_at s (row + 1) col =
      λ hr hc. (scroll_up_lem s ((80 * row + col) * 2)).0 (omega arith) ∙ ap s.video below in
    (
      ground (arith, scroll_up_position s),
      λ h. ground arith,
      λ h hr hc. ground (arith, scroll_up_position s, moved hr hc),
    )

clear_cells_lem :
    (n i : ℕ) (video : ℕ → ℕ) (k : ℕ)
    → clear_cells n i video k
      ≡ (if leb (2 * i) k && ltb k (2 * (i + n)) then (if k % 2 == 0 then 32 else 7) else video k)
unfolding clear_cells
clear_cells_lem zero i video k = ground arith
clear_cells_lem (suc n) i video k =
    ground (arith, clear_cells_lem n (i + 1) (update (update video (2 * i) 32) (2 * i + 1) 7) k)

-- `clear` blanks all cells of the screen, leaves the bytes outside and does not move the cursor.
pub clear_lem :
    (s : Screen) (row col k : ℕ)
    → (row < 25 → col < 80 → char_at (clear s) row col ≡ 32)
      × (4000 ≤ k → (clear s).video k ≡ s.video k)
      × ((clear s).screen_x ≡ s.screen_x)
      × ((clear s).screen_y ≡ s.screen_y)
unfolding clear
clear_lem s row col k = (
  ground (arith, clear_cells_lem 2000 0 s.video ((80 * row + col) * 2)),
  ground (arith, clear_cells_lem 2000 0 s.video k),
  refl,
  refl,
)
