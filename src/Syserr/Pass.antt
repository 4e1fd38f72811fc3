-- ===== src/Syserr/Pass.antt =====
-- The error tests of syscalls/ece391syserr.c pass on the kernel.
use linux_os.Prelude.{
  ℕ, zero, suc, ◌+◌, ◌≤◌, ◌<◌, ◌≡◌, ◌∙◌, inl, inr, ap, refl, List, [], some, false, ◌==◌, ltb, take,
  arith, Bool-cases,
}
use linux_os.Kernel.{Kernel, current}
use linux_os.TaskCalls.{syscall_vidmap}
use linux_os.FileCalls.{
  Outcome, fails, Interrupts, syscall_read, syscall_write, syscall_close, run_write,
}
use linux_os.FileCalls.Close.{bad_fd_refused}
use linux_os.Support.{ece391_strlen}
use linux_os.Programs.{Run, write_out, word_at, ece391_fdputs, ends_with}
use linux_os.Programs.Output.{with_line, HasOutput}
use linux_os.Syserr.{
  neg_fd, big_fd, neg_fd_pass, neg_fd_fail, big_fd_pass, big_fd_fail, unopened_pass, unopened_fail,
  vidmap_pass, vidmap_fail, stdin_out_pass, stdin_out_fail, read_fail, write_fail, close_fail,
  null_pointer, kernel_pointer, write_stdin, read_stdout, close_unopened, read_unopened,
  write_unopened, checked, expect_error, for_each, verdict, vidmap_call, bad_fd_calls, err_neg_fd,
  err_big_fd, err_unopened, err_stdin_out, err_vidmap,
}

pub expect-fails :
    (message : List ℕ) (call : Kernel → Outcome) (fail : ℕ) (k : Kernel)
    → call k ≡ fails k
    → expect_error message call (some (fail, k)) ≡ some (fail, k)
unfolding expect_error checked
expect-fails message call fail k e = rw e refl

for_each-same :
    (step : ℕ → Run → Run) (run : Run) (rounds i : ℕ)
    → ((j : ℕ) → i ≤ j → j < i + rounds → step j run ≡ run)
    → for_each rounds i step run ≡ run
unfolding for_each
for_each-same step run zero i same = refl
for_each-same step run (suc rounds) i same =
    ap (for_each rounds (i + 1) step) (same i (omega arith) (omega arith))
    ∙ for_each-same step run rounds (i + 1) (λ j lo hi. same j (omega arith) (omega arith))

pub verdict-pass :
    (pass failed : List ℕ) (k : Kernel)
    → HasOutput k
    → take (ece391_strlen pass) pass ≡ pass
    → verdict pass failed (some (0, k)) ≡ some (0, with_line pass k)
unfolding verdict ends_with ece391_fdputs syscall_write run_write HasOutput
verdict-pass pass failed k (used, table) whole =
    let in_use : (((current k).fd 1).flags == 0) ≡ false = ground arith in
    rw (in_use, table, whole) refl

module _ (now : Interrupts) (buf : ℕ) (bytes : List ℕ) (k : Kernel) where
  bad_fd_calls-same : (fd : ℕ) → 7 < fd → bad_fd_calls now buf bytes fd (some (0, k)) ≡ some (0, k)
  unfolding bad_fd_calls
  bad_fd_calls-same fd high =
      let (closes, reads, writes) =
        bad_fd_refused now k fd buf 31 (word_at bytes) (take 31 bytes) in
      rw
        (
          expect-fails read_fail (λ k'. syscall_read now k' fd buf 31) 0 k (reads (inl high)),
          expect-fails write_fail (λ k'. write_out k' fd bytes 31) 0 k (writes (inl high)),
          expect-fails close_fail (λ k'. syscall_close k' fd) 0 k (closes (inl high)),
        )
        refl

  close_all-same :
      ((j : ℕ) → 2 ≤ j → j < 8 → ((current k).fd j).flags ≡ 0)
      → (j : ℕ) → j < 8
      → syscall_close k j ≡ fails k
  close_all-same free j high = (bad_fd_refused now k j buf 31 0 []).0 (elim (Bool-cases (ltb j 2)) [
    | inl low ↦ inr (inl (ground arith))
    | inr open_range ↦ inr (inr (free j (ground arith) high))
  ])

  -- In a task with the terminal as its output, and with no descriptor open from 2 on, the five tests
  -- on bad descriptors and pointers end with 0: each shows its line "PASS", and neither the
  -- descriptors nor anything else of the kernel has changed.
  pub err_tests-pass :
      HasOutput k
      → ((j : ℕ) → 2 ≤ j → j < 8 → ((current k).fd j).flags ≡ 0)
      → (err_neg_fd now buf bytes k ≡ some (0, with_line neg_fd_pass k))
        × (err_big_fd now buf bytes k ≡ some (0, with_line big_fd_pass k))
        × (err_unopened now buf bytes k ≡ some (0, with_line unopened_pass k))
        × (err_stdin_out now buf bytes k ≡ some (0, with_line stdin_out_pass k))
        × (err_vidmap k ≡ some (0, with_line vidmap_pass k))
  err_tests-pass output free = (neg, big, unopened, stdin_out, vidmap)
    where
      ends :
          (pass failed : List ℕ) (run : Run)
          → run ≡ some (0, k)
          → take (ece391_strlen pass) pass ≡ pass
          → verdict pass failed run ≡ some (0, with_line pass k)
      ends pass failed run e whole =
          ap (verdict pass failed) e ∙ verdict-pass pass failed k output whole

      neg : err_neg_fd now buf bytes k ≡ some (0, with_line neg_fd_pass k)
      neg =
          unfold err_neg_fd in
          ends neg_fd_pass neg_fd_fail _ (bad_fd_calls-same neg_fd (omega arith))
            (unfold ece391_strlen in refl)

      big : err_big_fd now buf bytes k ≡ some (0, with_line big_fd_pass k)
      big =
          unfold err_big_fd in
          ends big_fd_pass big_fd_fail _ (bad_fd_calls-same big_fd (omega arith))
            (unfold ece391_strlen in refl)

      unopened : err_unopened now buf bytes k ≡ some (0, with_line unopened_pass k)
      unopened =
          unfold err_unopened in
          ends unopened_pass unopened_fail _
            (ap
                (λ run.
                  for_each 6 2 (λ i. expect_error write_unopened (λ k'. write_out k' i bytes 31))
                    (for_each 6 2
                      (λ i. expect_error read_unopened (λ k'. syscall_read now k' i buf 31)) run))
                (for_each-same _ (some (0, k)) 8 0 (λ j lo hi.
                  expect-fails close_unopened (λ k'. syscall_close k' j) 0 k
                    (close_all-same free j hi)))
              ∙ ap (for_each 6 2 (λ i. expect_error write_unopened (λ k'. write_out k' i bytes 31)))
                  (for_each-same _ (some (0, k)) 6 2 (λ j lo hi.
                    expect-fails read_unopened (λ k'. syscall_read now k' j buf 31) 0 k
                      ((bad_fd_refused now k j buf 31 0 []).1 (inr (inr (free j lo hi))))))
              ∙ for_each-same _ (some (0, k)) 6 2 (λ j lo hi.
                expect-fails write_unopened (λ k'. write_out k' j bytes 31) 0 k
                  ((bad_fd_refused now k j buf 31 (word_at bytes) (take 31 bytes)).2
                    (inr (inr (free j lo hi))))))
            (unfold ece391_strlen in refl)

      stdin_out : err_stdin_out now buf bytes k ≡ some (0, with_line stdin_out_pass k)
      stdin_out =
          unfold err_stdin_out in
          ends stdin_out_pass stdin_out_fail _
            (ap (expect_error read_stdout (λ k'. syscall_read now k' 1 buf 31)) (
                expect-fails write_stdin (λ k'. write_out k' 0 bytes 31) 0 k
                  ((bad_fd_refused now k 0 buf 31 (word_at bytes) (take 31 bytes)).2
                    (inr (inl refl))))
              ∙ expect-fails read_stdout (λ k'. syscall_read now k' 1 buf 31) 0 k
                  ((bad_fd_refused now k 1 buf 31 0 []).1 (inr (inl refl))))
            (unfold ece391_strlen in refl)

      vidmap : err_vidmap k ≡ some (0, with_line vidmap_pass k)
      vidmap =
          unfold err_vidmap in
          ends vidmap_pass vidmap_fail _
            (ap (expect_error kernel_pointer (vidmap_call 0x400000))
                (expect-fails null_pointer (vidmap_call 0) 0 k (unfold syscall_vidmap in refl))
              ∙ expect-fails kernel_pointer (vidmap_call 0x400000) 0 k
                  (unfold syscall_vidmap in refl))
            (unfold ece391_strlen in refl)
