-- ===== src/Console/Hello.antt =====
-- `hello` of syscalls/ece391hello.c, from the keys typed to the answer on the screen.
use linux_os.Support.{ece391_strlen}
use linux_os.Console.Typing.{held_text, line-IsText, ask_behind}
use linux_os.Prelude.{
  sym, ℕ, ◌+◌, ◌≤◌, ◌<◌, ◌≡◌, refl, ap, List, [], ◌∷◌, ◌++◌, some, false, ◌==◌, arith, length,
  length-append, set, minus_one,
}
use linux_os.Prelude.Text.{codes}
use linux_os.Strings.Compare.{All}
use linux_os.Terminal.{Terminals, Copied, displayed, typing, terminal_read}
use linux_os.Terminal.Line.{IsLineChar}
use linux_os.Kernel.{Kernel}
use linux_os.Programs.{placed}
use linux_os.Programs.Output.{with_line, shown, shown-append, HasOutput}
use linux_os.Support.Text.{IsText}
use linux_os.Console.{name_prompt, greet, hello}
use linux_os.Console.Typing.{HasInput, say_whole, say_lem, say-HasOutput, terminals-HasOutput}

-- The answer to a name.
greet_lem :
    (s bytes : List ℕ) (n : ℕ) (k : Kernel)
    → HasOutput k
    → IsText s
    → n ≡ length s
    → length s ≤ 1023
    → greet bytes (n, s ++ (0 ∷ []), k) ≡ some (0, with_line s (with_line (codes "Hello, ") k))
unfolding greet
greet_lem s bytes n k output text e small =
    let held = set (placed (s ++ (0 ∷ [])) bytes) n 0 in
    let good : (n == minus_one) ≡ false = ground arith in
    let hello_said = say_whole (codes "Hello, ") k output (unfold ece391_strlen in refl) in
    let name_said =
      say_lem held (with_line (codes "Hello, ") k) (say-HasOutput (codes "Hello, ") k output) in
    rw (good, hello_said)
      (rw name_said (
        ap (λ b. some (0, with_line b (with_line (codes "Hello, ") k)))
          (held_text s bytes n text e)))

-- On a terminal with an empty line, a name of up to 125 characters and Enter are typed: `hello` shows
-- its question, then reads the line, and then shows "Hello, ", the name and a new line; it ends with
-- 0, and nothing but the terminals has changed.
pub hello_lem :
    (buf ticks : ℕ) (bytes name : List ℕ) (k : Kernel)
    → HasInput k
    → HasOutput k
    → (displayed k.terminals).keyboard_buffer_size ≡ 0
    → ((i : ℕ) → (displayed k.terminals).keyboard_buffer i ≡ 0)
    → (displayed k.terminals).allow_terminal_read ≡ 0
    → All IsLineChar name
    → length name < 126
    → (line : Copied) × (t : Terminals) × (terminal_read 1023
          (typing (name ++ (10 ∷ [])))
          (shown name_prompt k.terminals)
        ≡ some (line, t))
      × (hello (record { keys = name ++ (10 ∷ []); ticks = ticks }) buf bytes k
          ≡ some (0, record k { terminals = shown (codes "Hello, " ++ (name ++ (10 ∷ []))) t }))
hello_lem buf ticks bytes name k input output size zeros waits ok short =
    let (line, t, reads, asked) =
      ask_behind name_prompt (record { keys = name ++ (10 ∷ []); ticks = ticks }) buf 1023 name k
        input refl size zeros waits ok short (omega arith) in
    let k2 = record k { terminals = t } in
    let answered =
      greet_lem (name ++ (10 ∷ [])) bytes (length name + 1) k2 (terminals-HasOutput t k output)
        (line-IsText name ok) (omega (arith, length-append {0} name (10 ∷ [])))
        (omega (arith, length-append {0} name (10 ∷ []))) in
    let asks = say_whole name_prompt k output (unfold ece391_strlen in refl) in
    (
      line,
      t,
      reads,
      unfold hello in
          rw asks (
            rw asked (
              rw answered (
                ap (λ u. some (0, record k { terminals = u }))
                  (sym (shown-append (codes "Hello, ") (name ++ (10 ∷ [])) t))))),
    )
