-- ===== src/Syserr/Opens.antt =====
-- The tests of syscalls/ece391syserr.c that open files, the one of system call numbers, and its menu.
use linux_os.Prelude.{
  ℕ, zero, suc, ◌+◌, List, [], Option, some, ◌==◌, leb, ◌&&◌, if◌then◌else◌, minus_one, get_or,
}
use linux_os.Prelude.Text.{codes, ◌>>=◌}
use linux_os.Fs.{is_positive}
use linux_os.Kernel.{Kernel}
use linux_os.FileCalls.{Outcome, returns, Interrupts, syscall_open, syscall_close}
use linux_os.Programs.{Run, placed, complain}
use linux_os.Console.{answer, say, ask}
use linux_os.Syserr.{
  neg_fd, big_fd, expect_error, verdict, err_neg_fd, err_big_fd, err_unopened, err_stdin_out,
  err_vidmap,
}

-- `err_open_lots`: the loop of opens, `rounds` of which are left; `cnt` have failed. `dot` is the
-- address of the name.
unfoldable pub open_lots : ℕ → ℕ → ℕ → Kernel → Option (ℕ × Kernel)
open_lots dot zero cnt k = some (cnt, k)
open_lots dot (suc rounds) cnt k = do
  opened ← answer (syscall_open k dot (codes "."))
  open_lots dot rounds (if opened.0 == minus_one then cnt + 1 else cnt) opened.2

-- The loop of closes, from `i` on.
unfoldable pub close_up : ℕ → ℕ → Kernel → Option Kernel
close_up zero i k = some k
close_up (suc rounds) i k = do closed ← answer (syscall_close k i); close_up rounds (i + 1) closed.2

unfoldable pub err_open_lots : ℕ → Kernel → Run
unfolding open_lots close_up
err_open_lots dot k = do
  opened ← open_lots dot 7 0 k
  closed ← close_up 6 2 opened.1
  if opened.0 == 1
      then complain (codes "err_open_lots: PASS\n") 0 closed
      else complain (codes "err_open_lots: FAIL\n") 2 closed

-- `err_open`: the names stand at `a1`, `a2` and `a3`.
unfoldable pub err_open : ℕ → ℕ → ℕ → Kernel → Run
err_open a1 a2 a3 k = verdict (codes "err_open: PASS\n") (codes "err_open: FAIL\n") (
    expect_error (codes "empty string fail\n") (λ k'. syscall_open k' a3 [])
      (expect_error (codes "'shel' fail\n") (λ k'. syscall_open k' a2 (codes "shel"))
        (expect_error (codes "'helloo' fail\n") (λ k'. syscall_open k' a1 (codes "helloo"))
          (some (0, k)))))

-- The entry of the kernel for a system call, student-distrib/syscall_handler.S: numbers from 1 to 10,
-- as signed numbers, are looked up in its table, `valid`.
unfoldable pub call_sys : (ℕ → Kernel → Outcome) → ℕ → Kernel → Outcome
call_sys valid num k = if is_positive num && leb num 10 then valid num k else returns minus_one [] k

-- `NEG_NUM` and `BIG_NUM` are the same numbers as `NEG_FD` and `BIG_FD`.
unfoldable pub err_syscall_num : (ℕ → Kernel → Outcome) → Kernel → Run
unfolding call_sys
err_syscall_num valid k =
    verdict (codes "err_syscall_num: PASS\n") (codes "err_syscall_num: FAIL\n") (
      expect_error (codes "neg num syscall fail\n") (call_sys valid 0) (
        expect_error (codes "big num syscall fail\n") (call_sys valid neg_fd)
          (expect_error (codes "syscall 0 fail\n") (call_sys valid big_fd) (some (0, k)))))

-- One more test in the sum of the values.
unfoldable pub add_test : (Kernel → Run) → Run → Run
add_test test run = do before ← run; after ← test before.1; some (before.0 + after.0, after.1)

abbrev pub menu_prompt : List ℕ
menu_prompt = codes "Choose from tests 1-8. 0 to run all: "

-- The addresses that a run of the program uses: the name ".", the three names of `err_open`, and the
-- buffer of the tests.
pub record Places : Type 0 where
  pub dot : ℕ
  pub helloo : ℕ
  pub shel : ℕ
  pub empty : ℕ
  pub buf : ℕ

-- `now` are the interrupts in the tests, which hold `bytes` in their buffer.
module _ (valid : ℕ → Kernel → Outcome) (at : Places) (now : Interrupts) (bytes : List ℕ) where
  unfoldable pub all_tests : Kernel → Run
  unfolding add_test err_open_lots err_open err_syscall_num
  all_tests k = add_test (err_syscall_num valid) (
      add_test (err_stdin_out now at.buf bytes) (
        add_test err_vidmap (
          add_test (err_unopened now at.buf bytes) (
            add_test (err_open at.helloo at.shel at.empty) (
              add_test (err_open_lots at.dot) (
                add_test (err_big_fd now at.buf bytes)
                  (add_test (err_neg_fd now at.buf bytes) (some (0, k)))))))))

  unfoldable pub overall : Kernel → Run
  unfolding all_tests
  overall k = do
    sum ← all_tests k
    if sum.0 == 0
        then complain (codes "\nOverall Tests: PASS\n") sum.0 sum.1
        else complain (codes "\nOverall Tests: FAIL\n") sum.0 sum.1

  -- The switch on the first character.
  unfoldable pub select_test : ℕ → Kernel → Run
  unfolding overall
  select_test c k =
      if c == b'0'
      then overall k
      else if c == b'1'
      then err_neg_fd now at.buf bytes k
      else if c == b'2'
      then err_big_fd now at.buf bytes k
      else if c == b'3'
      then err_open_lots at.dot k
      else if c == b'4'
      then err_open at.helloo at.shel at.empty k
      else if c == b'5'
      then err_unopened now at.buf bytes k
      else if c == b'6'
      then err_vidmap k
      else if c == b'7'
      then err_stdin_out now at.buf bytes k
      else if c == b'8'
      then err_syscall_num valid k
      else complain (codes "Invalid test number. Choose from tests 1-8 or 0") 0 k

  -- `main`: `typing` are the interrupts of its read into the buffer at `line`.
  unfoldable pub syserr : Interrupts → ℕ → List ℕ → Kernel → Run
  unfolding select_test
  syserr typing line held k = do
    k1 ← say menu_prompt k
    chosen ← ask typing line 127 k1
    if chosen.0 == minus_one
        then complain (codes "Can't read test #\n") 2 chosen.2
        else select_test (get_or (placed chosen.1 held) 0 0) chosen.2
