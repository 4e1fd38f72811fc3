-- ===== src/Console/Typing.antt =====
-- What a program says on the terminal, and the line that it reads.
use mathlib.Core.List.{append_assoc}
use linux_os.Terminal.Line.{IsLineChar, terminal_read_lem}
use linux_os.Prelude.{
  ap₂, ℕ, suc, ◌+◌, ◌<◌, ◌≡◌, ◌≢◌, ◌∙◌, refl, ap, List, [], ◌∷◌, ◌++◌, some, false, ◌==◌, arith,
  length, set, drop,
}
use linux_os.Strings.Compare.{All}
use linux_os.Screen.{putc}
use linux_os.Terminal.{Terminals, Term, Copied, displayed, typing, terminal_read, terminal_write}
use linux_os.Kernel.{Kernel, Fops, current}
use linux_os.FileCalls.{Interrupts, syscall_read, run_read, syscall_write, run_write}
use linux_os.Support.{ece391_strlen}
use linux_os.Programs.{placed, ece391_fdputs}
use linux_os.Programs.Output.{with_line, shown, HasOutput}
use linux_os.Support.Text.{IsText, strlen_text, take_all}
use linux_os.Console.{answer, say, ask, c_text}

-- The task's input is the terminal's.
unfoldable pub HasInput : Kernel → Type 0
HasInput k = (((current k).fd 0).flags ≢ 0) × (((current k).fd 0).fops_table ≡ some Fops.stdin_fops)

-- The terminals are all that changes.
pub say_lem : (s : List ℕ) (k : Kernel) → HasOutput k → say s k ≡ some (with_line (c_text s) k)
unfolding say answer ece391_fdputs syscall_write run_write HasOutput
say_lem s k (used, table) =
    let in_use : (((current k).fd 1).flags == 0) ≡ false = ground arith in rw (in_use, table) refl

-- For a text without a 0, such as a constant.
pub say_whole :
    (s : List ℕ) (k : Kernel) → HasOutput k → c_text s ≡ s → say s k ≡ some (with_line s k)
say_whole s k output whole = say_lem s k output ∙ ap (λ b. some (with_line b k)) whole

pub ask_lem :
    (now : Interrupts) (buf nbytes : ℕ) (k : Kernel) (line : Copied) (t : Terminals)
    → HasInput k
    → terminal_read nbytes (typing now.keys) k.terminals ≡ some (line, t)
    → ask now buf nbytes k ≡ some (line.numbytes, line.out, record k { terminals = t })
unfolding ask answer syscall_read run_read HasInput
ask_lem now buf nbytes k line t (used, table) e =
    let in_use : (((current k).fd 0).flags == 0) ≡ false = ground arith in
    rw (in_use, table) (rw (e, run_read) refl)

pub say-HasOutput : (s : List ℕ) (k : Kernel) → HasOutput k → HasOutput (with_line s k)
unfolding HasOutput
say-HasOutput s k h = h

pub terminals-HasOutput :
    (t : Terminals) (k : Kernel) → HasOutput k → HasOutput (record k { terminals = t })
unfolding HasOutput
terminals-HasOutput t k h = h

pub terminals-HasInput :
    (t : Terminals) (k : Kernel) → HasInput k → HasInput (record k { terminals = t })
unfolding HasInput
terminals-HasInput t k h = h

-- The output does not touch the line buffers.
pub shown-displayed : (s : List ℕ) (t : Terminals) → displayed (shown s t) ≡ displayed t
unfolding terminal_write
shown-displayed [] t = refl
shown-displayed (c ∷ s) t = shown-displayed s (record t { screen = putc c t.screen })

pub strlen_held : (s rest : List ℕ) → IsText s → ece391_strlen (s ++ (0 ∷ rest)) ≡ length s
unfolding ece391_strlen
strlen_held [] rest h = refl
strlen_held (c ∷ s) rest h =
    let goes : (c == 0) ≡ false = ground arith in rw goes (ap suc (strlen_held s rest h.1))

pub c_text_lem : (s rest : List ℕ) → IsText s → c_text (s ++ (0 ∷ rest)) ≡ s
unfolding ece391_strlen
c_text_lem [] rest h = refl
c_text_lem (c ∷ s) rest h =
    let goes : (c == 0) ≡ false = ground arith in rw goes (ap (λ r. c ∷ r) (c_text_lem s rest h.1))

pub c_text-text : (s : List ℕ) → IsText s → c_text s ≡ s
c_text-text s h = rw (strlen_text s h) (take_all s)

pub set-append :
    (s : List ℕ) (c v : ℕ) (rest : List ℕ) → set (s ++ (c ∷ rest)) (length s) v ≡ s ++ (v ∷ rest)
set-append [] c v rest = refl
set-append (d ∷ s) c v rest = ap (λ r. d ∷ r) (set-append s c v rest)

-- The buffer behind a read of a line: the NUL that the program stores is at its end.
pub held_line :
    (s bytes : List ℕ) (n : ℕ)
    → n ≡ length s
    → set (placed (s ++ (0 ∷ [])) bytes) n 0 ≡ s ++ (0 ∷ drop (length (s ++ (0 ∷ []))) bytes)
held_line s bytes n e =
    rw (e, append_assoc s (0 ∷ []) (drop (length (s ++ (0 ∷ []))) bytes))
      (set-append s 0 0 (drop (length (s ++ (0 ∷ []))) bytes))

pub line-IsText : (s : List ℕ) → All IsLineChar s → IsText (s ++ (10 ∷ []))
line-IsText [] h = (ground arith, tt)
line-IsText (c ∷ s) h = (h.0.1, line-IsText s h.1)

-- What a program says after a line that it holds.
pub held_text :
    (s bytes : List ℕ) (n : ℕ)
    → IsText s
    → n ≡ length s
    → c_text (set (placed (s ++ (0 ∷ [])) bytes) n 0) ≡ s
held_text s bytes n text e = ap (λ b. c_text b) (held_line s bytes n e) ∙ c_text_lem s _ text

-- A line is typed on a terminal with an empty line: what `ask` gives.
pub ask_typed :
    (now : Interrupts) (buf nbytes : ℕ) (cs : List ℕ) (k : Kernel)
    → HasInput k
    → now.keys ≡ cs ++ (10 ∷ [])
    → (displayed k.terminals).keyboard_buffer_size ≡ 0
    → ((i : ℕ) → (displayed k.terminals).keyboard_buffer i ≡ 0)
    → (displayed k.terminals).allow_terminal_read ≡ 0
    → All IsLineChar cs
    → length cs < 126
    → length cs + 1 < nbytes
    → (line : Copied) × (t : Terminals) × (terminal_read nbytes (typing now.keys) k.terminals
        ≡ some (line, t))
      × (ask now buf nbytes k
          ≡ some (length cs + 1, (cs ++ (10 ∷ [])) ++ (0 ∷ []), record k { terminals = t }))
ask_typed now buf nbytes cs k input keys size zeros waits ok short room =
    let (line, t, reads, outs, count, _, _) =
      terminal_read_lem nbytes cs k.terminals size zeros waits ok short room in
    let typed : terminal_read nbytes (typing now.keys) k.terminals ≡ some (line, t) =
      ap (λ ks. terminal_read nbytes (typing ks) k.terminals) keys ∙ reads in
    (
      line,
      t,
      typed,
      ask_lem now buf nbytes k line t input typed
          ∙ ap₂ (λ n out. some (n, out, record k { terminals = t })) count outs,
    )

-- The same behind a question.
pub ask_behind :
    (prompt : List ℕ) (now : Interrupts) (buf nbytes : ℕ) (cs : List ℕ) (k : Kernel)
    → HasInput k
    → now.keys ≡ cs ++ (10 ∷ [])
    → (displayed k.terminals).keyboard_buffer_size ≡ 0
    → ((i : ℕ) → (displayed k.terminals).keyboard_buffer i ≡ 0)
    → (displayed k.terminals).allow_terminal_read ≡ 0
    → All IsLineChar cs
    → length cs < 126
    → length cs + 1 < nbytes
    → (line : Copied) × (t : Terminals) × (terminal_read nbytes
          (typing now.keys)
          (shown prompt k.terminals)
        ≡ some (line, t))
      × (ask now buf nbytes (with_line prompt k)
          ≡ some (length cs + 1, (cs ++ (10 ∷ [])) ++ (0 ∷ []), record k { terminals = t }))
ask_behind prompt now buf nbytes cs k input keys size zeros waits ok short room =
    let same = shown-displayed prompt k.terminals in
    ask_typed now buf nbytes cs (with_line prompt k)
      (terminals-HasInput (shown prompt k.terminals) k input) keys
      (ap (λ (d : Term). d.keyboard_buffer_size) same ∙ size)
      (λ i. ap (λ (d : Term). d.keyboard_buffer i) same ∙ zeros i)
      (ap (λ (d : Term). d.allow_terminal_read) same ∙ waits) ok short room
