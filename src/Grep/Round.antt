-- ===== src/Grep/Round.antt =====
-- The rounds of `do_one_file` of syscalls/ece391grep.c: behind a read, and at the close.
use linux_os.Prelude.{
  ℕ, suc, ◌+◌, ◌≤◌, ◌<◌, ◌≡◌, ◌≢◌, ◌∙◌, refl, ap, Bool, true, false, not, List, [], ◌∷◌, some, ◌==◌,
  ltb, ◌&&◌, ◌||◌, arith, length, length-append, get_or, set, drop, minus_one,
}
use linux_os.Strings.Compare.{All}
use linux_os.Fs.{file_close}
use linux_os.Terminal.Line.{IsLineChar}
use linux_os.Kernel.{FileDescriptor, Kernel, Fops, current, with_fd}
use linux_os.FileCalls.{returns, syscall_close, run_close}
use linux_os.FileCalls.Open.{fd-with_fd}
use linux_os.Support.Text.{IsText}
use linux_os.Programs.{Run, placed}
use linux_os.Programs.Output.{with_line, HasOutput}
use linux_os.Programs.Descriptor.{Holds}
use linux_os.Console.{answer, c_text}
use linux_os.Grep.{Scanned, found, to_newline, scan_lines, close_file, scan_read}
use linux_os.Grep.Lines.{spelled, report_of}
use linux_os.Grep.Scan.{scan_lines_lem}

length-spelled : (lines : List (List ℕ)) → length lines ≤ length (spelled lines)
length-spelled [] = omega arith
length-spelled (line ∷ lines) =
    omega (arith, length-append {0} line (10 ∷ spelled lines), length-spelled lines)

not_last : (b : Bool) → b && (not true && not (0 == 0)) ≡ false
not_last true = refl
not_last false = refl

-- The scan behind a read of nothing.
pub scan_empty :
    (pattern fname bytes : List ℕ) (rounds : ℕ) (k : Kernel)
    → scan_lines pattern fname (suc rounds) 0 bytes 0 0 k
      ≡ some (record { bytes = set bytes 0 0; last = 0; kernel = k })
unfolding scan_lines found to_newline
scan_empty pattern fname bytes rounds k = rw (not_last (not (get_or bytes 0 0 == 10))) refl

close_lem :
    (k : Kernel) (fd inode p : ℕ)
    → Holds Fops.file_fops k fd inode p
    → syscall_close k fd
      ≡ returns 0 [] (
          with_fd k fd (record ((current k).fd fd) {
            inode = (file_close ((current k).fd fd).inode).0;
            file_position = 0;
            flags = 0;
          }))
close_lem k fd inode p on =
    let d = (current k).fd fd in
    let range : (ltb 7 fd || ltb fd 2) ≡ false = ground (arith, on.low, on.high) in
    let in_use : (d.flags == 0) ≡ false = ground (arith, on.used) in
    let dispatch : syscall_close k fd ≡ run_close k fd d d.fops_table =
      (unfold syscall_close in rw (range, in_use) refl) in
    dispatch ∙ ap (run_close k fd d) on.table ∙ (unfold run_close in refl)

-- The close of the file ends with 0, and leaves the terminals.
pub close_file_lem :
    (k : Kernel) (fd inode p : ℕ)
    → Holds Fops.file_fops k fd inode p
    → (k' : Kernel) × (close_file fd k ≡ some (0, k'))
      × (k'.terminals ≡ k.terminals)
      × (((current k').fd fd).flags ≡ 0)
unfolding close_file
close_file_lem k fd inode p on =
    let d : FileDescriptor = record ((current k).fd fd) {
      inode = (file_close ((current k).fd fd).inode).0;
      file_position = 0;
      flags = 0;
    } in
    let closed : answer (syscall_close k fd) ≡ some (0, [], with_fd k fd d) =
      ap answer (close_lem k fd inode p on) ∙ (unfold answer in refl) in
    let here : (fd == fd) ≡ true = ground arith in
    let freed : (current (with_fd k fd d)).fd fd ≡ d = fd-with_fd k fd d fd ∙ rw here refl in
    (with_fd k fd d, rw closed refl, refl, ap (λ (x : FileDescriptor). x.flags) freed)

module _ (pattern fname : List ℕ) (next : List ℕ → ℕ → Kernel → Run) (fd : ℕ) (bytes : List ℕ)
    (k : Kernel) where
  -- Behind the scan of what a read has put at the start of the buffer.
  scan_goes :
      (cnt : ℕ) (out : List ℕ) (s : Scanned)
      → cnt ≢ 0
      → cnt ≤ 1024
      → scan_lines pattern fname (suc cnt) cnt (placed out bytes) cnt 0 k ≡ some s
      → scan_read pattern fname next fd bytes 0 (cnt, out, k) ≡ next s.bytes s.last s.kernel
  unfolding scan_read
  scan_goes cnt out s some_read small scanned =
      let more : (cnt == 0) ≡ false = ground arith in
      let good : (cnt == minus_one) ≡ false = ground arith in
      let all : 0 + cnt ≡ cnt = omega arith in rw (good, all, scanned, more) refl

  pub scan_ends :
      (s : Scanned)
      → scan_lines pattern fname 1 0 (placed [] bytes) 0 0 k ≡ some s
      → scan_read pattern fname next fd bytes 0 (0, [], k) ≡ close_file fd s.kernel
  unfolding scan_read
  scan_ends s scanned = rw scanned refl

  -- A read of whole lines.
  pub read_lines :
      (line : List ℕ) (lines : List (List ℕ))
      → HasOutput k
      → IsText pattern
      → 0 < length pattern
      → All (All IsLineChar) (line ∷ lines)
      → length (spelled (line ∷ lines)) ≤ 1024
      → (held : List ℕ) × (scan_read pattern fname next fd bytes 0
            (length (spelled (line ∷ lines)), spelled (line ∷ lines), k)
          ≡ next held 0 (with_line (report_of pattern (c_text fname) (line ∷ lines)) k))
  read_lines line lines output p some_pattern ok fits =
      let out = spelled (line ∷ lines) in
      let (held, scanned) =
        scan_lines_lem pattern fname p some_pattern (length out) (suc (length out)) (length out) []
          line lines (drop (length out) bytes) k output ok (omega arith)
          (omega (arith, length-spelled (line ∷ lines))) in
      (
        held,
        scan_goes (length out) out _ (omega (arith, length-spelled (line ∷ lines))) fits scanned,
      )
