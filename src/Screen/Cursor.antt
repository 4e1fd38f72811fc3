-- ===== src/Screen/Cursor.antt =====
-- `putc` of student-distrib/lib.c keeps the cursor on the screen and writes on the screen alone.
use linux_os.Prelude.{
  refl, ◌%◌, ℕ, zero, suc, ◌+◌, ◌*◌, ◌≤◌, ◌<◌, ◌≡◌, ltb, leb, ◌==◌, ◌&&◌, if◌then◌else◌, arith,
  update, List, [], ◌∷◌,
}
use linux_os.Screen.{Screen, store_cell, clear_line, move_rows, scroll_up, putc, puts}

pub record IsValid (s : Screen) : Type 0 where
  pub column : s.screen_x < 80
  pub row : s.screen_y < 25

pub scroll_up_position : (s : Screen) → ((scroll_up s).screen_x ≡ 0) × ((scroll_up s).screen_y ≡ 24)
unfolding scroll_up
scroll_up_position s = (refl, refl)

scroll_up-IsValid : (s : Screen) → IsValid (scroll_up s)
unfolding scroll_up
scroll_up-IsValid s = omega arith

-- `putc` keeps the cursor on the screen, whatever the character.
pub putc-IsValid : (c : ℕ) (s : Screen) → IsValid s → IsValid (putc c s)
unfolding putc scroll_up
putc-IsValid c s v = ground arith

pub puts-IsValid : (str : List ℕ) (s : Screen) → IsValid s → IsValid (puts str s).0
unfolding puts
puts-IsValid [] s v = v
puts-IsValid (c ∷ str) s v = ground (arith, puts-IsValid str (putc c s) (putc-IsValid c s v))

clear_line_lem :
    (n i : ℕ) (video : ℕ → ℕ) (k : ℕ)
    → clear_line n i video k
      ≡ (if leb (3840 + 2 * i) k && ltb k (3840 + 2 * (i + n)) && (k % 2 == 0) then 32 else video k)
unfolding clear_line
clear_line_lem zero i video k = ground arith
clear_line_lem (suc n) i video k =
    ground (arith, clear_line_lem n (i + 1) (update video ((1920 + i) * 2) 32) k)

-- `scroll_up` moves every row but the first up by one, blanks the characters of the last row and
-- leaves what lies outside the screen.
pub scroll_up_lem :
    (s : Screen) (k : ℕ)
    → (k < 3840 → (scroll_up s).video k ≡ s.video (k + 160))
      × (3840 ≤ k → k < 4000 → k % 2 ≡ 0 → (scroll_up s).video k ≡ 32)
      × (4000 ≤ k → (scroll_up s).video k ≡ s.video k)
unfolding scroll_up
scroll_up_lem s k = (
  ground (arith, clear_line_lem 80 0 (move_rows s.video) k),
  ground (arith, clear_line_lem 80 0 (move_rows s.video) k),
  ground (arith, clear_line_lem 80 0 (move_rows s.video) k),
)

-- From a cursor on the screen `putc` writes no byte outside the 4000 bytes of the screen.
pub putc_outside :
    (c : ℕ) (s : Screen) (k : ℕ) → IsValid s → 4000 ≤ k → (putc c s).video k ≡ s.video k
unfolding putc
putc_outside c s k v h = ground (
  arith,
  (scroll_up_lem s k).2 h,
  (scroll_up_lem (record (store_cell c s) { screen_x = 0 }) k).2 h,
)
