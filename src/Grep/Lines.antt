-- ===== src/Grep/Lines.antt =====
-- The scan of syscalls/ece391grep.c over a buffer of whole lines.
use mathlib.Core.List.{append_assoc}
use linux_os.Prelude.{
  ℕ, zero, suc, ◌+◌, ◌<◌, ◌≡◌, ◌∙◌, refl, sym, ap, List, [], ◌∷◌, ◌++◌, some, if◌then◌else◌, arith,
  length, length-append, get_or, set, drop,
}
use linux_os.Strings.Compare.{All}
use linux_os.Terminal.Line.{IsLineChar}
use linux_os.Kernel.{Kernel}
use linux_os.Support.{ece391_strlen}
use linux_os.Support.Text.{IsText}
use linux_os.Programs.Output.{with_line, shown-append, HasOutput}
use linux_os.Console.{c_text}
use linux_os.Console.Typing.{say_lem, say_whole, say-HasOutput, c_text_lem, set-append}
use linux_os.Console.Shell.{get_or-append}
use linux_os.Grep.{to_newline, show_line}
use linux_os.Grep.Match.{occurs}

-- Lines, each with its newline.
abbrev pub spelled : List (List ℕ) → List ℕ
spelled [] = []
spelled (line ∷ lines) = line ++ (10 ∷ spelled lines)

-- What grep shows of them.
abbrev pub shown_of : List ℕ → List ℕ → List ℕ → List ℕ
shown_of pattern name line =
    if occurs pattern line then name ++ (b':' ∷ (line ++ (10 ∷ []))) else []

unfoldable pub report_of : List ℕ → List ℕ → List (List ℕ) → List ℕ
report_of pattern name [] = []
report_of pattern name (line ∷ lines) = shown_of pattern name line ++ report_of pattern name lines

pub with_line-append :
    (a b : List ℕ) (k : Kernel) → with_line b (with_line a k) ≡ with_line (a ++ b) k
with_line-append a b k = ap (λ t. record k { terminals = t }) (sym (shown-append a b k.terminals))

pub show_line_lem :
    (fname line rest : List ℕ) (k : Kernel)
    → HasOutput k
    → IsText line
    → show_line fname (line ++ (0 ∷ rest)) k
      ≡ some (with_line (c_text fname ++ (b':' ∷ (line ++ (10 ∷ [])))) k)
unfolding show_line
show_line_lem fname line rest k output text =
    let k1 = with_line (c_text fname) k in
    let o1 = say-HasOutput (c_text fname) k output in
    let k2 = with_line (b':' ∷ []) k1 in
    let o2 = say-HasOutput (b':' ∷ []) k1 o1 in
    let k3 = with_line line k2 in
    let o3 = say-HasOutput line k2 o2 in
    let colon = say_whole (b':' ∷ []) k1 o1 (unfold ece391_strlen in refl) in
    let middle =
      say_lem (line ++ (0 ∷ rest)) k2 o2
      ∙ ap (λ b. some (with_line b k2)) (c_text_lem line rest text) in
    let newline = say_whole (10 ∷ []) k3 o3 (unfold ece391_strlen in refl) in
    rw (say_lem fname k output) (
      rw colon (
        rw middle (
          rw newline (
            ap (λ e. some e)
              (with_line-append line (10 ∷ []) k2
                ∙ with_line-append (b':' ∷ []) (line ++ (10 ∷ [])) k1
                ∙ with_line-append (c_text fname) (b':' ∷ (line ++ (10 ∷ []))) k)))))

pub drop-append : (a b : List ℕ) → drop (length a) (a ++ b) ≡ b
drop-append [] b = refl
drop-append (c ∷ a) b = drop-append a b

pub to_newline_lem :
    (line rest : List ℕ) (rounds : ℕ)
    → All IsLineChar line
    → length line < rounds
    → to_newline rounds (line ++ (10 ∷ rest)) ≡ length line
unfolding to_newline
to_newline_lem line rest zero ok le = absurd (omega arith)
to_newline_lem [] rest (suc rounds) ok le = refl
to_newline_lem (c ∷ line) rest (suc rounds) ok le =
    ground (arith, to_newline_lem line rest rounds ok.1)

-- The place of a line in the buffer: what stands before it, the line and what is behind it.
module _ (before line rest : List ℕ) where
  pub at_newline : get_or (before ++ (line ++ (10 ∷ rest))) (length before + length line) 0 ≡ 10
  at_newline =
      rw (← append_assoc before line (10 ∷ rest), ← length-append {0} before line)
        (get_or-append (before ++ line) 10 rest)

  pub cut_line :
      set (before ++ (line ++ (10 ∷ rest))) (length before + length line) 0
      ≡ before ++ (line ++ (0 ∷ rest))
  cut_line =
      rw
        (
          ← append_assoc before line (10 ∷ rest),
          ← length-append {0} before line,
          ← append_assoc before line (0 ∷ rest),
        )
        (set-append (before ++ line) 10 0 rest)
