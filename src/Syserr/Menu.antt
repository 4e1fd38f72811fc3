-- ===== src/Syserr/Menu.antt =====
-- All tests of syscalls/ece391syserr.c, as its menu runs them.

use linux_os.Prelude.{
  ℕ, ◌+◌, ◌≤◌, ◌<◌, ◌≡◌, ◌≢◌, ◌∙◌, refl, sym, ap, List, [], ◌∷◌, ◌++◌, some, none, false, ◌==◌,
  arith, minus_one, length,
}
use linux_os.Prelude.Text.{codes}
use linux_os.Strings.Compare.{All}
use linux_os.Fs.{FileSystem, Dentry, read_dentry_by_name}
use linux_os.Terminal.{terminal_write, Terminals, Copied, displayed, typing, terminal_read}
use linux_os.Terminal.Line.{IsLineChar}
use linux_os.Kernel.{Kernel, current}
use linux_os.FileCalls.{Outcome, Interrupts}
use linux_os.Support.{ece391_strlen}
use linux_os.Programs.{Run}
use linux_os.Programs.Output.{shown, shown-append, with_line}
use linux_os.Console.Typing.{HasInput, say_whole, terminals-HasOutput, ask_behind}
use linux_os.Syserr.{
  neg_fd_pass, big_fd_pass, unopened_pass, vidmap_pass, stdin_out_pass, err_neg_fd, err_big_fd,
  err_unopened, err_stdin_out, err_vidmap,
}
use linux_os.Syserr.Pass.{err_tests-pass}
use linux_os.Syserr.Lots.{Ready, Passes, complain_lem, line-Ready, err_open_lots_lem}
use linux_os.Syserr.Opens.{
  err_open_lots, err_open, err_syscall_num, add_test, menu_prompt, Places, all_tests, overall,
  select_test, syserr,
}
use linux_os.Syserr.Names.{err_open_lem, err_syscall_num_lem}

-- One of the tests that leave all but the terminals alone.
line-Passes :
    (fs : FileSystem) (line : List ℕ) (test : Kernel → Run) (k : Kernel)
    → Ready fs k
    → test k ≡ some (0, with_line line k)
    → Passes fs line test k
line-Passes fs line test k r e = (with_line line k, e, line-Ready fs line k r, refl)

-- A sum of tests that all pass.
abbrev Sums : FileSystem → List ℕ → Run → Kernel → Type 0
Sums fs lines run k =
    (k' : Kernel) × (run ≡ some (0, k')) × Ready fs k' × (k'.terminals ≡ shown lines k.terminals)

add_test_lem :
    (fs : FileSystem) (lines line : List ℕ) (test : Kernel → Run) (run : Run) (k : Kernel)
    → Sums fs lines run k
    → ((j : Kernel) → Ready fs j → Passes fs line test j)
    → Sums fs (lines ++ line) (add_test test run) k
unfolding add_test
add_test_lem fs lines line test run k (k1, before, r1, t1) passes =
    let (k2, after, r2, t2) = passes k1 r1 in
    (
      k2,
      rw (before, after) refl,
      r2,
      t2 ∙ ap (shown line) t1 ∙ sym (shown-append lines line k.terminals),
    )

-- The lines of the tests, in the order of the menu.
abbrev pub all_lines : List ℕ
all_lines =
    neg_fd_pass
    ++ big_fd_pass
    ++ codes "err_open_lots: PASS\n"
    ++ codes "err_open: PASS\n"
    ++ unopened_pass
    ++ vidmap_pass
    ++ stdin_out_pass
    ++ codes "err_syscall_num: PASS\n"
    ++ codes "\nOverall Tests: PASS\n"

zero_char : IsLineChar b'0'
zero_char = (omega arith, omega arith)

module _ (fs : FileSystem) (valid : ℕ → Kernel → Outcome) (at : Places) (now : Interrupts)
    (bytes : List ℕ) (dentry : Dentry) (dot : at.dot ≢ 0) (helloo : at.helloo ≢ 0)
    (shel : at.shel ≢ 0) (found : read_dentry_by_name fs (codes ".") 1 ≡ some dentry)
    (directory : dentry.type ≡ 1) (no_helloo : read_dentry_by_name fs (codes "helloo") 1 ≡ none)
    (no_shel : read_dentry_by_name fs (codes "shel") 1 ≡ none) where
  sum_lem :
      (k : Kernel)
      → Ready fs k
      → Sums fs
          (neg_fd_pass
            ++ big_fd_pass
            ++ codes "err_open_lots: PASS\n"
            ++ codes "err_open: PASS\n"
            ++ unopened_pass
            ++ vidmap_pass
            ++ stdin_out_pass
            ++ codes "err_syscall_num: PASS\n")
          (all_tests valid at now bytes k)
          k
  unfolding all_tests
  sum_lem k r =
      add_test_lem fs _ _ (err_syscall_num valid) _ k
        (add_test_lem fs _ _ (err_stdin_out now at.buf bytes) _ k
          (add_test_lem fs _ _ err_vidmap _ k
            (add_test_lem fs _ _ (err_unopened now at.buf bytes) _ k
              (add_test_lem fs _ _ (err_open at.helloo at.shel at.empty) _ k
                (add_test_lem fs _ _ (err_open_lots at.dot) _ k
                  (add_test_lem fs _ _ (err_big_fd now at.buf bytes) _ k
                    (add_test_lem fs [] neg_fd_pass (err_neg_fd now at.buf bytes) (some (0, k)) k
                      (k, refl, r, (unfold terminal_write in refl))
                      (λ j s.
                        line-Passes fs neg_fd_pass (err_neg_fd now at.buf bytes) j s
                          (err_tests-pass now at.buf bytes j s.output s.free).0))
                    (λ j s.
                      line-Passes fs big_fd_pass (err_big_fd now at.buf bytes) j s
                        (err_tests-pass now at.buf bytes j s.output s.free).1))
                  (λ j s. err_open_lots_lem fs at.dot dentry j dot found directory s))
                (λ j s.
                  err_open_lem fs at.helloo at.shel at.empty j helloo shel no_helloo no_shel s))
              (λ j s.
                line-Passes fs unopened_pass (err_unopened now at.buf bytes) j s
                  (err_tests-pass now at.buf bytes j s.output s.free).2))
            (λ j s.
              line-Passes fs vidmap_pass err_vidmap j s
                (err_tests-pass now at.buf bytes j s.output s.free).4))
          (λ j s.
            line-Passes fs stdin_out_pass (err_stdin_out now at.buf bytes) j s
              (err_tests-pass now at.buf bytes j s.output s.free).3))
        (λ j s. err_syscall_num_lem fs valid j s)

  overall_lem : (k : Kernel) → Ready fs k → Passes fs all_lines (overall valid at now bytes) k
  unfolding overall
  overall_lem k r =
      let (k8, sum, r8, t8) = sum_lem k r in
      let line = codes "\nOverall Tests: PASS\n" in
      let told = complain_lem line 0 k8 r8.output (unfold ece391_strlen in refl) in
      (
        with_line line k8,
        rw sum told,
        line-Ready fs line k8 r8,
        ap (shown line) t8 ∙ sym (shown-append _ line k.terminals),
      )

-- A task with the terminal as input and output and no other descriptor in use, in a file system with
-- a directory "." and without the names "helloo" and "shel": the menu is shown, a line that starts
-- with 0 is typed, and all eight tests are run; each shows its line "PASS", the last line says that
-- all passed, and `main` ends with 0 and with the descriptors free again.
pub syserr_lem :
    (valid : ℕ → Kernel → Outcome) (at : Places) (now : Interrupts) (bytes held cs : List ℕ)
    (line_addr ticks : ℕ) (dentry : Dentry) (k : Kernel)
    → at.dot ≢ 0
    → at.helloo ≢ 0
    → at.shel ≢ 0
    → read_dentry_by_name k.fs (codes ".") 1 ≡ some dentry
    → dentry.type ≡ 1
    → read_dentry_by_name k.fs (codes "helloo") 1 ≡ none
    → read_dentry_by_name k.fs (codes "shel") 1 ≡ none
    → HasInput k
    → Ready k.fs k
    → (displayed k.terminals).keyboard_buffer_size ≡ 0
    → ((i : ℕ) → (displayed k.terminals).keyboard_buffer i ≡ 0)
    → (displayed k.terminals).allow_terminal_read ≡ 0
    → All IsLineChar cs
    → length cs < 125
    → (line : Copied) × (t : Terminals) × (k' : Kernel) × (terminal_read 127
          (typing (b'0' ∷ (cs ++ (10 ∷ []))))
          (shown menu_prompt k.terminals)
        ≡ some (line, t))
      × (syserr valid at now bytes
            (record { keys = b'0' ∷ (cs ++ (10 ∷ [])); ticks = ticks })
            line_addr
            held
            k
          ≡ some (0, k'))
      × (k'.terminals ≡ shown all_lines t)
      × ((j : ℕ) → 2 ≤ j → j < 8 → ((current k').fd j).flags ≡ 0)
unfolding syserr select_test
syserr_lem valid at now bytes held cs line_addr ticks dentry k dot helloo shel found directory
      no_helloo no_shel input r size zeros waits ok short =
    let asks = say_whole menu_prompt k r.output (unfold ece391_strlen in refl) in
    let (line, t, reads, asked) =
      ask_behind menu_prompt (record { keys = b'0' ∷ (cs ++ (10 ∷ [])); ticks = ticks }) line_addr
        127 (b'0' ∷ cs) k input refl size zeros waits (zero_char, ok) (omega arith) (omega arith) in
    let k1 : Kernel = record k { terminals = t } in
    let ready : Ready k.fs k1 = record {
      disk = refl;
      output = terminals-HasOutput t k r.output;
      free = r.free;
    } in
    let (k', passes, ready', shows) =
      overall_lem k.fs valid at now bytes dentry dot helloo shel found directory no_helloo no_shel
        k1 ready in
    let good : (length (b'0' ∷ cs) + 1 == minus_one) ≡ false = ground arith in
    (line, t, k', reads, rw asks (rw asked (rw good passes)), shows, ready'.free)
