-- ===== src/Console/Shell.antt =====
-- The shell, syscalls/ece391shell.c: which lines it runs, what it reports and when it ends.
use mathlib.Core.List.{append_assoc}
use linux_os.Prelude.{
  ℕ, zero, suc, ◌+◌, ◌-◌, ◌≤◌, ◌<◌, ◌≡◌, ◌≢◌, ◌∙◌, inl, inr, refl, sym, ap, List, [], ◌∷◌, ◌++◌,
  Option, some, true, false, ◌==◌, if◌then◌else◌, arith, length, get_or, drop, minus_one,
  Bool-cases,
}
use linux_os.Prelude.Int.{is_zero}
use linux_os.Prelude.Text.{codes, ◌>>=◌}
use linux_os.Strings.{head_or, strlen}
use linux_os.Strings.Compare.{All, text}
use linux_os.Fs.{is_positive}
use linux_os.Terminal.{terminal_write, Copied}
use linux_os.Terminal.Line.{IsLineChar}
use linux_os.Kernel.{Kernel}
use linux_os.Support.{ece391_strlen, ece391_strcmp}
use linux_os.Support.Same.{strcmp_iff, strlen-same}
use linux_os.Programs.{placed, Run}
use linux_os.Programs.Output.{with_line, HasOutput}
use linux_os.Support.Text.{IsText}
use linux_os.Console.{c_text, report, shell_command}
use linux_os.Console.Typing.{say_whole, strlen_held, c_text_lem, set-append}

-- What the shell says of a value of `execute`.
abbrev pub message : ℕ → List ℕ
message rval =
    if rval == minus_one
    then codes "no such command\n"
    else if rval == 256
    then codes "program terminated by exception\n"
    else if rval == 0
    then []
    else codes "program terminated abnormally\n"

-- A line that was read: its characters, Enter and a 0.
abbrev pub line_of : List ℕ → (ℕ → ℕ) → Copied
line_of cs buffer = record {
  out = (cs ++ (10 ∷ [])) ++ (0 ∷ []);
  numbytes = length cs + 1;
  buffer = buffer;
}

-- A line that names a program.
abbrev pub IsCommand : List ℕ → Type 0
IsCommand cs = All IsLineChar cs × (0 < length cs) × (length cs < 126) × (cs ≢ codes "exit")

pub typed-IsText : (s : List ℕ) → All IsLineChar s → IsText s
typed-IsText [] h = tt
typed-IsText (c ∷ s) h = (h.0.1, typed-IsText s h.1)

placed_line :
    (cs bytes : List ℕ)
    → placed ((cs ++ (10 ∷ [])) ++ (0 ∷ [])) bytes
      ≡ cs ++ (10 ∷ (0 ∷ drop (length ((cs ++ (10 ∷ [])) ++ (0 ∷ []))) bytes))
placed_line cs bytes = append_assoc (cs ++ (10 ∷ [])) (0 ∷ []) _ ∙ append_assoc cs (10 ∷ []) _

pub get_or-append : (s : List ℕ) (c : ℕ) (rest : List ℕ) → get_or (s ++ (c ∷ rest)) (length s) 0 ≡ c
get_or-append [] c rest = refl
get_or-append (d ∷ s) c rest = get_or-append s c rest

text_held : (n : ℕ) (s rest : List ℕ) → IsText s → length s ≤ n → text n (s ++ (0 ∷ rest)) ≡ s
unfolding text
text_held zero [] rest h le = refl
text_held (suc n) [] rest h le = refl
text_held zero (c ∷ s) rest h le = absurd (omega arith)
text_held (suc n) (c ∷ s) rest h le =
    let goes : (c == 0) ≡ false = ground arith in
    rw goes (ap (λ r. c ∷ r) (text_held n s rest h.1 (omega arith)))

not_exit :
    (s rest : List ℕ)
    → IsText s
    → length s < 126
    → s ≢ codes "exit"
    → is_zero (ece391_strcmp (s ++ (0 ∷ rest)) (codes "exit")) ≡ false
not_exit s rest h short other =
    let size : strlen (s ++ (0 ∷ rest)) < 127 =
      omega (arith, strlen-same (s ++ (0 ∷ rest)), strlen_held s rest h) in
    let same = strcmp_iff 127 (s ++ (0 ∷ rest)) (codes "exit") size in
    elim (Bool-cases (is_zero (ece391_strcmp (s ++ (0 ∷ rest)) (codes "exit")))) [
      | inl e ↦
          absurd
            (other (sym (text_held 127 s rest h (omega arith)) ∙ same.0 e ∙ (unfold text in refl)))
      | inr e ↦ e
    ]

goes_on : (s rest : List ℕ) → IsText s → 0 < length s → (head_or (s ++ (0 ∷ rest)) == 0) ≡ false
goes_on [] rest h pos = absurd (omega arith)
goes_on (c ∷ s) rest h pos = ground arith

report_lem :
    (rval : ℕ) (k : Kernel) → HasOutput k → report rval k ≡ some (with_line (message rval) k)
unfolding report
report_lem rval k output = elim (Bool-cases (rval == minus_one)) [
  | inl e ↦ rw e (say_whole _ k output (unfold ece391_strlen in refl))
  | inr e1 ↦ elim (Bool-cases (rval == 256)) [
    | inl e ↦ rw (e1, e) (say_whole _ k output (unfold ece391_strlen in refl))
    | inr e2 ↦ elim (Bool-cases (rval == 0)) [
      | inl e ↦ rw (e1, e2, e) (unfold terminal_write in refl)
      | inr e ↦ rw (e1, e2, e) (say_whole _ k output (unfold ece391_strlen in refl))
    ]
  ]
]

module _ (execute : List ℕ → Kernel → Option (ℕ × Kernel)) where
  -- What the shell holds of a line, and what it does with it.
  command_held :
      (next : List ℕ → Kernel → Run) (cs bytes : List ℕ) (k : Kernel)
      → length cs < 126
      → let rest = 0 ∷ drop (length ((cs ++ (10 ∷ [])) ++ (0 ∷ []))) bytes in
        let held = cs ++ (0 ∷ rest) in
        shell_command execute next bytes (length cs + 1, (cs ++ (10 ∷ [])) ++ (0 ∷ []), k) ≡ (
          if is_zero (ece391_strcmp held (codes "exit"))
          then some (0, k)
          else if head_or held == 0
          then next held k
          else do done ← execute (c_text held) k; k1 ← report done.0 done.1; next held k1)
  unfolding shell_command
  command_held next cs bytes k short =
      let good : (length cs + 1 == minus_one) ≡ false = ground arith in
      let positive : is_positive (length cs + 1) ≡ true = ground arith in
      let before : length cs + 1 - 1 ≡ length cs = omega arith in
      let rest = 0 ∷ drop (length ((cs ++ (10 ∷ [])) ++ (0 ∷ []))) bytes in
      rw
        (
          good,
          placed_line cs bytes,
          positive,
          before,
          get_or-append cs 10 rest,
          set-append cs 10 0 rest,
        )
        refl

  -- The three kinds of lines.
  pub command_exit :
      (next : List ℕ → Kernel → Run) (bytes : List ℕ) (k : Kernel)
      → shell_command execute next bytes (5, (codes "exit" ++ (10 ∷ [])) ++ (0 ∷ []), k)
        ≡ some (0, k)
  command_exit next bytes k =
      let exits : (rest : List ℕ)
          → is_zero (ece391_strcmp (codes "exit" ++ (0 ∷ rest)) (codes "exit")) ≡ true =
        (λ rest. unfold ece391_strcmp in refl) in
      command_held next (codes "exit") bytes k (omega arith)
      ∙ rw (exits (0 ∷ drop (length ((codes "exit" ++ (10 ∷ [])) ++ (0 ∷ []))) bytes)) refl

  pub command_blank :
      (next : List ℕ → Kernel → Run) (bytes : List ℕ) (k : Kernel)
      → shell_command execute next bytes (1, ([] ++ (10 ∷ [])) ++ (0 ∷ []), k)
        ≡ next (0 ∷ (0 ∷ drop 2 bytes)) k
  command_blank next bytes k =
      let other : is_zero (ece391_strcmp (0 ∷ (0 ∷ drop 2 bytes)) (codes "exit")) ≡ false =
        (unfold ece391_strcmp in refl) in
      command_held next [] bytes k (omega arith) ∙ rw other refl

  pub command_runs :
      (next : List ℕ → Kernel → Run) (cs bytes : List ℕ) (k k2 : Kernel) (rval : ℕ)
      → IsCommand cs
      → execute cs k ≡ some (rval, k2)
      → HasOutput k2
      → shell_command execute next bytes (length cs + 1, (cs ++ (10 ∷ [])) ++ (0 ∷ []), k)
        ≡ next
            (cs ++ (0 ∷ (0 ∷ drop (length ((cs ++ (10 ∷ [])) ++ (0 ∷ []))) bytes)))
            (with_line (message rval) k2)
  command_runs next cs bytes k k2 rval (ok, pos, short, other) ran output =
      let rest = 0 ∷ drop (length ((cs ++ (10 ∷ [])) ++ (0 ∷ []))) bytes in
      command_held next cs bytes k short
      ∙ rw
          (
            not_exit cs rest (typed-IsText cs ok) short other,
            goes_on cs rest (typed-IsText cs ok) pos,
            c_text_lem cs rest (typed-IsText cs ok),
            ran,
            report_lem rval k2 output,
          )
          refl
