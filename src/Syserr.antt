-- ===== src/Syserr.antt =====
-- The tests of syscalls/ece391syserr.c that call the kernel with bad descriptors and pointers.
pub mod Pass
pub mod Opens
pub mod Slots
pub mod Lots
pub mod Names
pub mod Menu
use linux_os.Prelude.{ℕ, zero, suc, ◌+◌, List, [], ◌∷◌, none, some, ◌==◌, if◌then◌else◌, minus_one}
use linux_os.Kernel.{Kernel}
use linux_os.FileCalls.{Outcome, returns, spins, faults, Interrupts, syscall_read, syscall_close}
use linux_os.TaskCalls.{syscall_vidmap}
use linux_os.Programs.{Run, write_out, ece391_fdputs, ends_with}

-- The patterns of -1073741823 and 1073741823.
abbrev pub neg_fd : ℕ
neg_fd = 3221225473

abbrev pub big_fd : ℕ
big_fd = 1073741823

abbrev pub read_fail : List ℕ
read_fail = b'r' ∷ b'e' ∷ b'a' ∷ b'd' ∷ 32 ∷ b'f' ∷ b'a' ∷ b'i' ∷ b'l' ∷ 10 ∷ []

abbrev pub write_fail : List ℕ
write_fail = b'w' ∷ b'r' ∷ b'i' ∷ b't' ∷ b'e' ∷ 32 ∷ b'f' ∷ b'a' ∷ b'i' ∷ b'l' ∷ 10 ∷ []

abbrev pub close_fail : List ℕ
close_fail = b'c' ∷ b'l' ∷ b'o' ∷ b's' ∷ b'e' ∷ 32 ∷ b'f' ∷ b'a' ∷ b'i' ∷ b'l' ∷ 10 ∷ []

abbrev pub neg_fd_pass : List ℕ
neg_fd_pass =
    b'e' ∷ b'r' ∷ b'r' ∷ b'_' ∷ b'n' ∷ b'e' ∷ b'g' ∷ b'_' ∷ b'f' ∷ b'd' ∷ b':' ∷ 32 ∷ b'P' ∷ b'A'
    ∷ b'S' ∷ b'S' ∷ 10 ∷ []

abbrev pub neg_fd_fail : List ℕ
neg_fd_fail =
    b'e' ∷ b'r' ∷ b'r' ∷ b'_' ∷ b'n' ∷ b'e' ∷ b'g' ∷ b'_' ∷ b'f' ∷ b'd' ∷ b':' ∷ 32 ∷ b'F' ∷ b'A'
    ∷ b'I' ∷ b'L' ∷ 10 ∷ []

abbrev pub big_fd_pass : List ℕ
big_fd_pass =
    b'e' ∷ b'r' ∷ b'r' ∷ b'_' ∷ b'b' ∷ b'i' ∷ b'g' ∷ b'_' ∷ b'f' ∷ b'd' ∷ b':' ∷ 32 ∷ b'P' ∷ b'A'
    ∷ b'S' ∷ b'S' ∷ 10 ∷ []

abbrev pub big_fd_fail : List ℕ
big_fd_fail =
    b'e' ∷ b'r' ∷ b'r' ∷ b'_' ∷ b'b' ∷ b'i' ∷ b'g' ∷ b'_' ∷ b'f' ∷ b'd' ∷ b':' ∷ 32 ∷ b'F' ∷ b'A'
    ∷ b'I' ∷ b'L' ∷ 10 ∷ []

abbrev pub close_unopened : List ℕ
close_unopened =
    b'c' ∷ b'l' ∷ b'o' ∷ b's' ∷ b'e' ∷ 32 ∷ b'u' ∷ b'n' ∷ b'o' ∷ b'p' ∷ b'e' ∷ b'n' ∷ b'e' ∷ b'd'
    ∷ 32 ∷ b'o' ∷ b'r' ∷ 32 ∷ b'i' ∷ b'n' ∷ b'v' ∷ b'a' ∷ b'l' ∷ b'i' ∷ b'd' ∷ 32 ∷ b'f' ∷ b'd' ∷ 32
    ∷ b'f' ∷ b'a' ∷ b'i' ∷ b'l' ∷ 10 ∷ []

abbrev pub read_unopened : List ℕ
read_unopened =
    b'r' ∷ b'e' ∷ b'a' ∷ b'd' ∷ 32 ∷ b'f' ∷ b'r' ∷ b'o' ∷ b'm' ∷ 32 ∷ b'u' ∷ b'n' ∷ b'o' ∷ b'p'
    ∷ b'e' ∷ b'n' ∷ b'e' ∷ b'd' ∷ 32 ∷ b'f' ∷ b'd' ∷ 32 ∷ b'f' ∷ b'a' ∷ b'i' ∷ b'l' ∷ 10 ∷ []

abbrev pub write_unopened : List ℕ
write_unopened =
    b'w' ∷ b'r' ∷ b'i' ∷ b't' ∷ b'e' ∷ 32 ∷ b't' ∷ b'o' ∷ 32 ∷ b'u' ∷ b'n' ∷ b'o' ∷ b'p' ∷ b'e'
    ∷ b'n' ∷ b'e' ∷ b'd' ∷ 32 ∷ b'f' ∷ b'd' ∷ 32 ∷ b'f' ∷ b'a' ∷ b'i' ∷ b'l' ∷ 10 ∷ []

abbrev pub unopened_pass : List ℕ
unopened_pass =
    b'e' ∷ b'r' ∷ b'r' ∷ b'_' ∷ b'u' ∷ b'n' ∷ b'o' ∷ b'p' ∷ b'e' ∷ b'n' ∷ b'e' ∷ b'd' ∷ b':' ∷ 32
    ∷ b'P' ∷ b'A' ∷ b'S' ∷ b'S' ∷ 10 ∷ []

abbrev pub unopened_fail : List ℕ
unopened_fail =
    b'e' ∷ b'r' ∷ b'r' ∷ b'_' ∷ b'u' ∷ b'n' ∷ b'o' ∷ b'p' ∷ b'e' ∷ b'n' ∷ b'e' ∷ b'd' ∷ b':' ∷ 32
    ∷ b'F' ∷ b'A' ∷ b'I' ∷ b'L' ∷ 10 ∷ []

abbrev pub null_pointer : List ℕ
null_pointer =
    b'N' ∷ b'u' ∷ b'l' ∷ b'l' ∷ 32 ∷ b'p' ∷ b'o' ∷ b'i' ∷ b'n' ∷ b't' ∷ b'e' ∷ b'r' ∷ 32 ∷ b'f'
    ∷ b'a' ∷ b'i' ∷ b'l' ∷ 10 ∷ []

abbrev pub kernel_pointer : List ℕ
kernel_pointer =
    b'K' ∷ b'e' ∷ b'r' ∷ b'n' ∷ b'e' ∷ b'l' ∷ 32 ∷ b'p' ∷ b'o' ∷ b'i' ∷ b'n' ∷ b't' ∷ b'e' ∷ b'r'
    ∷ 32 ∷ b'f' ∷ b'a' ∷ b'i' ∷ b'l' ∷ 32 ∷ b'f' ∷ b'a' ∷ b'i' ∷ b'l' ∷ 10 ∷ []

abbrev pub vidmap_pass : List ℕ
vidmap_pass =
    b'e' ∷ b'r' ∷ b'r' ∷ b'_' ∷ b'v' ∷ b'i' ∷ b'd' ∷ b'm' ∷ b'a' ∷ b'p' ∷ b':' ∷ 32 ∷ b'P' ∷ b'A'
    ∷ b'S' ∷ b'S' ∷ 10 ∷ []

abbrev pub vidmap_fail : List ℕ
vidmap_fail =
    b'e' ∷ b'r' ∷ b'r' ∷ b'_' ∷ b'v' ∷ b'i' ∷ b'd' ∷ b'm' ∷ b'a' ∷ b'p' ∷ b':' ∷ 32 ∷ b'F' ∷ b'A'
    ∷ b'I' ∷ b'L' ∷ 10 ∷ []

abbrev pub write_stdin : List ℕ
write_stdin =
    b'w' ∷ b'r' ∷ b'i' ∷ b't' ∷ b'e' ∷ 32 ∷ b't' ∷ b'o' ∷ 32 ∷ b's' ∷ b't' ∷ b'd' ∷ b'i' ∷ b'n' ∷ 32
    ∷ b'f' ∷ b'a' ∷ b'i' ∷ b'l' ∷ 10 ∷ []

abbrev pub read_stdout : List ℕ
read_stdout =
    b'r' ∷ b'e' ∷ b'a' ∷ b'd' ∷ 32 ∷ b'f' ∷ b'r' ∷ b'o' ∷ b'm' ∷ 32 ∷ b's' ∷ b't' ∷ b'd' ∷ b'o'
    ∷ b'u' ∷ b't' ∷ 32 ∷ b'f' ∷ b'a' ∷ b'i' ∷ b'l' ∷ 10 ∷ []

abbrev pub stdin_out_pass : List ℕ
stdin_out_pass =
    b'e' ∷ b'r' ∷ b'r' ∷ b'_' ∷ b's' ∷ b't' ∷ b'd' ∷ b'i' ∷ b'n' ∷ b'_' ∷ b'o' ∷ b'u' ∷ b't' ∷ b':'
    ∷ 32 ∷ b'P' ∷ b'A' ∷ b'S' ∷ b'S' ∷ 10 ∷ []

abbrev pub stdin_out_fail : List ℕ
stdin_out_fail =
    b'e' ∷ b'r' ∷ b'r' ∷ b'_' ∷ b's' ∷ b't' ∷ b'd' ∷ b'i' ∷ b'n' ∷ b'_' ∷ b'o' ∷ b'u' ∷ b't' ∷ b':'
    ∷ 32 ∷ b'F' ∷ b'A' ∷ b'I' ∷ b'L' ∷ 10 ∷ []

-- A call that is expected to return -1; otherwise the message is shown and `fail` is 2.
unfoldable pub checked : List ℕ → ℕ → Outcome → Run
checked message fail (returns r out k) =
    let bad = ends_with 2 (ece391_fdputs k 1 message) in
    if r == minus_one then some (fail, k) else bad
checked message fail spins = none
checked message fail faults = none

unfoldable pub expect_error : List ℕ → (Kernel → Outcome) → Run → Run
expect_error message call none = none
expect_error message call (some (fail, k)) = checked message fail (call k)

-- A loop over descriptors: `rounds` are left, from `i` on.
unfoldable pub for_each : ℕ → ℕ → (ℕ → Run → Run) → Run → Run
for_each zero i step run = run
for_each (suc rounds) i step run = for_each rounds (i + 1) step (step i run)

-- The line at the end of a test, and its value.
unfoldable pub verdict : List ℕ → List ℕ → Run → Run
verdict pass failed none = none
verdict pass failed (some (fail, k)) =
    ends_with fail (ece391_fdputs k 1 (if fail == 0 then pass else failed))

abbrev pub vidmap_call : ℕ → Kernel → Outcome
vidmap_call screen_start k = let (ret, _, k') = syscall_vidmap k screen_start in returns ret [] k'

-- `buf` is the address of the buffer, `bytes` what it holds.
module _ (now : Interrupts) (buf : ℕ) (bytes : List ℕ) where
  -- The three calls with a descriptor out of range.
  unfoldable pub bad_fd_calls : ℕ → Run → Run
  bad_fd_calls fd run =
      expect_error close_fail (λ k. syscall_close k fd)
        (expect_error write_fail (λ k. write_out k fd bytes 31)
          (expect_error read_fail (λ k. syscall_read now k fd buf 31) run))

  unfoldable pub err_neg_fd : Kernel → Run
  err_neg_fd k = verdict neg_fd_pass neg_fd_fail (bad_fd_calls neg_fd (some (0, k)))

  unfoldable pub err_big_fd : Kernel → Run
  err_big_fd k = verdict big_fd_pass big_fd_fail (bad_fd_calls big_fd (some (0, k)))

  unfoldable pub err_unopened : Kernel → Run
  err_unopened k = verdict unopened_pass unopened_fail (
      for_each 6 2 (λ i. expect_error write_unopened (λ k'. write_out k' i bytes 31))
        (for_each 6 2 (λ i. expect_error read_unopened (λ k'. syscall_read now k' i buf 31))
          (for_each 8 0 (λ i. expect_error close_unopened (λ k'. syscall_close k' i))
            (some (0, k)))))

  unfoldable pub err_stdin_out : Kernel → Run
  err_stdin_out k = verdict stdin_out_pass stdin_out_fail (
      expect_error read_stdout (λ k'. syscall_read now k' 1 buf 31)
        (expect_error write_stdin (λ k'. write_out k' 0 bytes 31) (some (0, k))))

unfoldable pub err_vidmap : Kernel → Run
err_vidmap k = verdict vidmap_pass vidmap_fail (
    expect_error kernel_pointer (vidmap_call 0x400000)
      (expect_error null_pointer (vidmap_call 0) (some (0, k))))
