-- ===== src/Screen/Rows.antt =====
-- `scroll_up` of student-distrib/lib.c moves its rows by `memmove`.
use linux_os.Prelude.{ℕ, ◌+◌, ◌-◌, ◌*◌, ◌≡◌, ◌∙◌, sym, arith, ap}
use linux_os.MemOps.{memmove}
use linux_os.MemOps.Copy.{moved, memmove_lem}
use linux_os.Screen.{move_rows, num_cols, num_rows}

-- The rows that `scroll_up` moves are those that `memmove` by one row leaves.
pub move_rows-eq-memmove :
    (video : ℕ → ℕ) (k : ℕ)
    → move_rows video k ≡ (memmove video 0 (num_cols * 2) (num_cols * (num_rows - 1) * 2)).0 k
unfolding move_rows
move_rows-eq-memmove video k =
    rows ∙ sym ((memmove_lem video 0 (num_cols * 2) (num_cols * (num_rows - 1) * 2)).0 k)
  where
    place : k - 0 + 160 ≡ k + 160
    place = omega arith

    rows : move_rows video k ≡ moved video 0 160 3840 k
    rows = let source = ap video place in ground arith
