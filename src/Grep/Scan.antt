-- ===== src/Grep/Scan.antt =====
-- The loop over the lines of syscalls/ece391grep.c, on a buffer of whole lines.
use mathlib.Core.List.{append_assoc, append-nil}
use linux_os.Prelude.{
  ℕ, zero, suc, ◌+◌, ◌-◌, ◌<◌, ◌≡◌, ◌∙◌, refl, ap, true, false, inl, inr, Bool-cases, List, [], ◌∷◌,
  ◌++◌, some, leb, if◌then◌else◌, arith, length, length-append,
}
use linux_os.Strings.Compare.{All}
use linux_os.Terminal.Line.{IsLineChar}
use linux_os.Terminal.{terminal_write}
use linux_os.Kernel.{Kernel}
use linux_os.Support.Text.{IsText}
use linux_os.Programs.Output.{with_line, HasOutput}
use linux_os.Console.{c_text}
use linux_os.Console.Typing.{say-HasOutput}
use linux_os.Console.Shell.{typed-IsText}
use linux_os.Grep.{found, show_line, scan_lines}
use linux_os.Grep.Match.{occurs, found-occurs}
use linux_os.Grep.Lines.{
  spelled, shown_of, report_of, with_line-append, show_line_lem, drop-append, to_newline_lem,
  at_newline, cut_line,
}

module _ (pattern fname : List ℕ) (p : IsText pattern) (some_pattern : 0 < length pattern) where
  -- What is said of one line.
  told_lem :
      (line rest : List ℕ) (k : Kernel)
      → HasOutput k
      → IsText line
      → (if found pattern (length line) (line ++ (0 ∷ rest))
          then show_line fname (line ++ (0 ∷ rest)) k
          else some k)
        ≡ some (with_line (shown_of pattern (c_text fname) line) k)
  told_lem line rest k output text =
      rw (found-occurs pattern line rest p some_pattern text)
        (elim (Bool-cases (occurs pattern line)) [
          | inl e ↦ rw e (show_line_lem fname line rest k output text)
          | inr e ↦ rw e (unfold terminal_write in refl)
        ])

  -- One line that ends with its newline.
  scan_one :
      (rounds cnt last : ℕ) (before line rest : List ℕ) (k : Kernel)
      → HasOutput k
      → All IsLineChar line
      → length before + length line < last
      → let cut = before ++ (line ++ (0 ∷ rest)) in
        let told = with_line (shown_of pattern (c_text fname) line) k in
        let next = length before + length line + 1 in
        scan_lines pattern fname
          (suc rounds)
          cnt
          (before ++ (line ++ (10 ∷ rest)))
          last
          (length before)
          k
        ≡ (if leb last next
            then some (record { bytes = cut; last = 0; kernel = told })
            else scan_lines pattern fname rounds cnt cut last next told)
  unfolding scan_lines
  scan_one rounds cnt last before line rest k output ok inside =
      let size : length before + length line - length before ≡ length line = omega arith in
      rw
        (
          drop-append before (line ++ (10 ∷ rest)),
          to_newline_lem line rest (last - length before) ok (omega arith),
          at_newline before line rest,
          cut_line before line rest,
          drop-append before (line ++ (0 ∷ rest)),
          size,
          told_lem line rest k output (typed-IsText line ok),
        )
        refl

  report_one :
      (name line : List ℕ) → report_of pattern name (line ∷ []) ≡ shown_of pattern name line
  unfolding report_of
  report_one name line = append-nil (shown_of pattern name line)

  report_more :
      (name line : List ℕ) (lines : List (List ℕ)) (k : Kernel)
      → with_line (report_of pattern name lines) (with_line (shown_of pattern name line) k)
        ≡ with_line (report_of pattern name (line ∷ lines)) k
  unfolding report_of
  report_more name line lines k =
      with_line-append (shown_of pattern name line) (report_of pattern name lines) k

  -- A buffer of whole lines, behind a part that is done: exactly the lines that hold the pattern are
  -- shown, and nothing of the buffer is kept for the next read.
  pub scan_lines_lem :
      (cnt rounds last : ℕ) (before line : List ℕ) (lines : List (List ℕ)) (rest : List ℕ)
      (k : Kernel)
      → HasOutput k
      → All (All IsLineChar) (line ∷ lines)
      → last ≡ length before + length (spelled (line ∷ lines))
      → length lines < rounds
      → (bytes : List ℕ) × (scan_lines pattern fname rounds cnt
            (before ++ (spelled (line ∷ lines) ++ rest))
            last
            (length before)
            k
          ≡ some (record {
            bytes = bytes;
            last = 0;
            kernel = with_line (report_of pattern (c_text fname) (line ∷ lines)) k;
          }))
  scan_lines_lem cnt zero last before line lines rest k output ok e enough = absurd (omega arith)
  scan_lines_lem cnt (suc rounds) last before line [] rest k output ok e enough =
      let size = length-append {0} line (10 ∷ []) in
      let ends : leb last (length before + length line + 1) ≡ true = ground (arith, size) in
      (
        before ++ (line ++ (0 ∷ rest)),
        rw (append_assoc line (10 ∷ []) rest) (
            scan_one rounds cnt last before line rest k output ok.0 (omega (arith, size))
            ∙ rw (ends, report_one (c_text fname) line) refl),
      )
  scan_lines_lem cnt (suc rounds) last before line (next ∷ lines) rest k output ok e enough =
      let more = spelled (next ∷ lines) in
      let size = length-append {0} line (10 ∷ more) in
      let after = length-append {0} next (10 ∷ spelled lines) in
      let goes : leb last (length before + length line + 1) ≡ false = ground (arith, size, after) in
      let start : length (before ++ (line ++ (0 ∷ []))) ≡ length before + length line + 1 =
        omega
          (arith, length-append {0} before (line ++ (0 ∷ [])), length-append {0} line (0 ∷ [])) in
      let told = with_line (shown_of pattern (c_text fname) line) k in
      let (bytes, scanned) =
        scan_lines_lem cnt rounds last (before ++ (line ++ (0 ∷ []))) next lines rest told
          (say-HasOutput (shown_of pattern (c_text fname) line) k output) ok.1
          (omega (arith, start, size)) (omega arith) in
      let moved : (before ++ (line ++ (0 ∷ []))) ++ (more ++ rest)
          ≡ before ++ (line ++ (0 ∷ (more ++ rest))) =
        append_assoc before (line ++ (0 ∷ [])) (more ++ rest)
        ∙ ap (λ s. before ++ s) (append_assoc line (0 ∷ []) (more ++ rest)) in
      (
        bytes,
        rw (append_assoc line (10 ∷ more) rest) (
            scan_one rounds cnt last before line (more ++ rest) k output ok.0
              (omega (arith, size, after))
            ∙ rw (goes, ← start, ← moved)
                (scanned
                  ∙ ap (λ e. some (record { bytes = bytes; last = 0; kernel = e }))
                      (report_more (c_text fname) line (next ∷ lines) k))),
      )
