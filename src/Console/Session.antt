-- ===== src/Console/Session.antt =====
-- A session of the shell, syscalls/ece391shell.c, from its start to `exit`.

use linux_os.Prelude.{
  ap₂, ◌<◌, ℕ, zero, suc, ◌+◌, ◌≡◌, ◌∙◌, refl, sym, ap, List, [], ◌∷◌, ◌++◌, Option, some, length,
}
use linux_os.Prelude.Text.{codes}
use linux_os.Terminal.{Terminals, displayed, typing, terminal_read}
use linux_os.Terminal.Line.{IsLineChar, terminal_read_lem}
use linux_os.Strings.Compare.{All}
use linux_os.Kernel.{Kernel}
use linux_os.FileCalls.{Interrupts}
use linux_os.Support.{ece391_strlen}
use linux_os.Programs.Output.{with_line, shown, HasOutput}
use linux_os.Console.{shell_prompt, shell_command, shell_loop, shell}
use linux_os.Console.Typing.{
  HasInput, say_whole, ask_lem, say-HasOutput, terminals-HasOutput, terminals-HasInput,
}
use linux_os.Console.Shell.{message, line_of, IsCommand, command_exit, command_blank, command_runs}

module _ (execute : List ℕ → Kernel → Option (ℕ × Kernel)) (env : ℕ → Interrupts) where
  -- A session, from the kernel at a prompt to the kernel that the shell leaves: the lines that are
  -- read, one in each round, and what the programs do that they name.
  pub data Session : ℕ → Kernel → Kernel → Type 0 where
    leaves :
        {rounds : ℕ} {k k' : Kernel} (buffer : ℕ → ℕ) (t : Terminals)
        → terminal_read 1023 (typing (env rounds).keys) (shown shell_prompt k.terminals)
          ≡ some (line_of (codes "exit") buffer, t)
        → k' ≡ record k { terminals = t }
        → Session (suc rounds) k k'
    blank :
        {rounds : ℕ} {k k' : Kernel} (buffer : ℕ → ℕ) (t : Terminals)
        → terminal_read 1023 (typing (env rounds).keys) (shown shell_prompt k.terminals)
          ≡ some (line_of [] buffer, t)
        → Session rounds (record k { terminals = t }) k'
        → Session (suc rounds) k k'
    runs :
        {rounds : ℕ} {k k' : Kernel} (buffer : ℕ → ℕ) (t : Terminals) (cs : List ℕ) (rval : ℕ)
        (k2 : Kernel)
        → terminal_read 1023 (typing (env rounds).keys) (shown shell_prompt k.terminals)
          ≡ some (line_of cs buffer, t)
        → IsCommand cs
        → execute cs (record k { terminals = t }) ≡ some (rval, k2)
        → HasInput k2
        → HasOutput k2
        → Session rounds (with_line (message rval) k2) k'
        → Session (suc rounds) k k'

  -- One round up to the command.
  round_lem :
      (buf rounds : ℕ) (bytes cs : List ℕ) (k : Kernel) (buffer : ℕ → ℕ) (t : Terminals)
      → HasInput k
      → HasOutput k
      → terminal_read 1023 (typing (env rounds).keys) (shown shell_prompt k.terminals)
        ≡ some (line_of cs buffer, t)
      → shell_loop execute buf env (suc rounds) bytes k
        ≡ shell_command execute
            (shell_loop execute buf env rounds)
            bytes
            (length cs + 1, (cs ++ (10 ∷ [])) ++ (0 ∷ []), record k { terminals = t })
  unfolding shell_loop
  round_lem buf rounds bytes cs k buffer t input output reads =
      let k1 = with_line shell_prompt k in
      let asks = say_whole shell_prompt k output (unfold ece391_strlen in refl) in
      let asked =
        ask_lem (env rounds) buf 1023 k1 (line_of cs buffer) t
          (terminals-HasInput k1.terminals k input) reads in
      rw asks (rw asked refl)

  shell_loop_lem :
      (buf rounds : ℕ) (bytes : List ℕ) (k k' : Kernel)
      → HasInput k
      → HasOutput k
      → Session rounds k k'
      → shell_loop execute buf env rounds bytes k ≡ some (0, k')
  shell_loop_lem buf zero bytes k k' input output session = elim session [ ]
  shell_loop_lem buf (suc rounds) bytes k k' input output (leaves buffer t reads end) =
      round_lem buf rounds bytes (codes "exit") k buffer t input output reads
      ∙ command_exit execute (shell_loop execute buf env rounds) bytes (record k { terminals = t })
      ∙ ap (λ e. some (0, e)) (sym end)
  shell_loop_lem buf (suc rounds) bytes k k' input output (blank buffer t reads rest) =
      round_lem buf rounds bytes [] k buffer t input output reads
      ∙ command_blank execute (shell_loop execute buf env rounds) bytes (record k { terminals = t })
      ∙ shell_loop_lem buf rounds _ (record k { terminals = t }) k' (terminals-HasInput t k input)
          (terminals-HasOutput t k output) rest
  shell_loop_lem buf (suc rounds) bytes k k' input output
        (runs buffer t cs rval k2 reads command ran input2 output2 rest) =
      round_lem buf rounds bytes cs k buffer t input output reads
      ∙ command_runs execute (shell_loop execute buf env rounds) cs bytes
          (record k { terminals = t }) k2 rval command ran output2
      ∙ shell_loop_lem buf rounds _ (with_line (message rval) k2) k'
          (terminals-HasInput (shown (message rval) k2.terminals) k2 input2)
          (say-HasOutput (message rval) k2 output2) rest

  -- The shell of a session greets, and then in every round shows its prompt and reads a line: an
  -- empty line does nothing, and any other line but "exit" is given to `execute` without its Enter,
  -- and the value is reported: -1 as no such command, 256 as an exception, another value that is not
  -- 0 as an abnormal end. At "exit" it ends with 0 and the kernel of the session.
  pub shell_lem :
      (buf rounds : ℕ) (bytes : List ℕ) (k k' : Kernel)
      → HasInput k
      → HasOutput k
      → Session rounds (with_line (codes "Starting 391 Shell\n") k) k'
      → shell execute buf env rounds bytes k ≡ some (0, k')
  unfolding shell
  shell_lem buf rounds bytes k k' input output session =
      let start = codes "Starting 391 Shell\n" in
      rw (say_whole start k output (unfold ece391_strlen in refl)) (
        shell_loop_lem buf rounds bytes (with_line start k) k'
          (terminals-HasInput (shown start k.terminals) k input) (say-HasOutput start k output)
          session)

-- A line that is typed on a terminal with an empty line is such a line.
pub typed_line :
    (nbytes : ℕ) (cs : List ℕ) (s : Terminals)
    → (displayed s).keyboard_buffer_size ≡ 0
    → ((i : ℕ) → (displayed s).keyboard_buffer i ≡ 0)
    → (displayed s).allow_terminal_read ≡ 0
    → All IsLineChar cs
    → length cs < 126
    → length cs + 1 < nbytes
    → (buffer : ℕ → ℕ) × (t : Terminals) × (terminal_read nbytes (typing (cs ++ (10 ∷ []))) s
        ≡ some (line_of cs buffer, t))
typed_line nbytes cs s size zeros waits ok short room =
    let (line, t, reads, outs, count, _, _) =
      terminal_read_lem nbytes cs s size zeros waits ok short room in
    (
      line.buffer,
      t,
      reads
          ∙ ap₂ (λ out n. some (record { out = out; numbytes = n; buffer = line.buffer }, t)) outs
              count,
    )
