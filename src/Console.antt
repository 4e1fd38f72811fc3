-- ===== src/Console.antt =====
-- User programs that talk on the terminal: syscalls/ece391hello.c, syscalls/ece391testprint.c,
-- syscalls/ece391counter.c and syscalls/ece391shell.c. As in Programs.antt a program is a function of
-- the kernel's state, `bytes` is what its buffer holds and `buf` its address.
pub mod Typing
pub mod Hello
pub mod Counter
pub mod Shell
pub mod Session
use linux_os.Prelude.{
  ℕ, zero, suc, ◌+◌, ◌-◌, Bool, List, [], ◌∷◌, ◌++◌, Option, none, some, ◌==◌, ltb, ◌||◌, ◌&&◌,
  if◌then◌else◌, minus_one, get_or, set, take,
}
use linux_os.Prelude.Int.{is_zero}
use linux_os.Prelude.Text.{codes, ◌>>=◌}
use linux_os.Strings.{head_or}
use linux_os.Fs.{is_positive}
use linux_os.Kernel.{Kernel}
use linux_os.FileCalls.{Outcome, returns, spins, faults, Interrupts, syscall_read}
use linux_os.Support.{ece391_strlen, ece391_strcmp, ece391_itoa}
use linux_os.Programs.{Run, placed, ece391_fdputs, complain}

-- What a call returned: the value, the bytes placed in the buffer and the kernel.
abbrev pub Answer : Type 0
Answer = ℕ × List ℕ × Kernel

unfoldable pub answer : Outcome → Option Answer
answer (returns r out k) = some (r, out, k)
answer spins = none
answer faults = none

-- An `ece391_fdputs` whose result is not looked at.
unfoldable pub say : List ℕ → Kernel → Option Kernel
unfolding answer
say s k = do told ← answer (ece391_fdputs k 1 s); some told.2

-- A read of a line of at most `nbytes` characters from the terminal.
unfoldable pub ask : Interrupts → ℕ → ℕ → Kernel → Option Answer
unfolding answer
ask now buf nbytes k = answer (syscall_read now k 0 buf nbytes)

abbrev pub name_prompt : List ℕ
name_prompt = codes "Hi, what's your name? "

-- `hello`: the answer to the question.
unfoldable pub greet : List ℕ → Answer → Run
unfolding say
greet bytes (cnt, out, k) =
    let held = set (placed out bytes) cnt 0 in
    let greeted : Run = (do k1 ← say (codes "Hello, ") k; k2 ← say held k1; some (0, k2)) in
    if cnt == minus_one then complain (codes "Can't read name from keyboard.\n") 3 k else greeted

unfoldable pub hello : Interrupts → ℕ → List ℕ → Kernel → Run
unfolding say ask greet
hello now buf bytes k = do k1 ← say name_prompt k; name ← ask now buf 1023 k1; greet bytes name

unfoldable pub testprint : Kernel → Run
unfolding say
testprint k = do
  k1 ← say (codes "Hello, if this ran, the program was correct. Yay!\n") k
  some (0, k1)

-- `counter`: the text that a buffer holds, up to its first 0.
abbrev pub c_text : List ℕ → List ℕ
c_text bytes = take (ece391_strlen bytes) bytes

-- The loop: `rounds` numbers are left, `i` is the last one shown.
unfoldable pub count_on : ℕ → ℕ → List ℕ → Kernel → Run
unfolding say
count_on zero i bytes k = some (0, k)
count_on (suc rounds) i bytes k =
    let held = placed (ece391_itoa (i + 1) 10 ++ (0 ∷ [])) bytes in
    let next = count_on rounds (i + 1) held in do k1 ← say held k; k2 ← say (10 ∷ []) k1; next k2

-- The switch on the first character; `max` is 0 before it.
unfoldable pub max_of : ℕ → ℕ
max_of c = if c == b'0' then 100 else if c == b'1' then 10000 else if c == b'2' then 100000 else 0

unfoldable pub choose : List ℕ → Answer → Run
unfolding say count_on max_of
choose bytes (cnt, out, k) =
    let held = set (placed out bytes) cnt 0 in
    let len = ece391_strlen held in
    let c = head_or held in
    let wrong : Run = (do k1 ← say (codes "Wrong Choice!\n") k; some (0, k1)) in
    if cnt == minus_one
    then complain (codes "Can't read the number from keyboard.\n") 3 k
    else if ltb 2 len || ((len == 2) && (ltb c b'0' || ltb b'2' c))
    then wrong
    else count_on (max_of c) 0 held k

abbrev pub counter_prompt : List ℕ
counter_prompt = codes "Enter the Test Number: (0): 100, (1): 10000, (2): 100000\n"

unfoldable pub counter : Interrupts → ℕ → List ℕ → Kernel → Run
unfolding say ask choose
counter now buf bytes k = do
  k1 ← say counter_prompt k
  number ← ask now buf 1023 k1
  choose bytes number

abbrev pub shell_prompt : List ℕ
shell_prompt = codes "391OS> "

-- The shell's message behind a value of `execute`.
unfoldable pub report : ℕ → Kernel → Option Kernel
unfolding say
report rval k =
    if rval == minus_one
    then say (codes "no such command\n") k
    else if rval == 256
    then say (codes "program terminated by exception\n") k
    else if rval == 0
    then some k
    else say (codes "program terminated abnormally\n") k

-- `execute` is the system call as the shell sees it: the value and the kernel when the program that
-- it starts, any program, has halted.
module _ (execute : List ℕ → Kernel → Option (ℕ × Kernel)) where
  unfoldable pub shell_command : (List ℕ → Kernel → Run) → List ℕ → Answer → Run
  unfolding report
  shell_command next bytes (cnt, out, k) =
      let line = placed out bytes in
      let last = is_positive cnt && (get_or line (cnt - 1) 0 == 10) in
      let held = set line (if last then cnt - 1 else cnt) 0 in
      let rest = next held k in
      let ran : Run = (do
        done ← execute (c_text held) k
        k1 ← report done.0 done.1
        next held k1) in
      if cnt == minus_one
      then complain (codes "read from keyboard failed\n") 3 k
      else if is_zero (ece391_strcmp held (codes "exit"))
      then some (0, k)
      else if head_or held == 0
      then rest
      else ran

module _ (execute : List ℕ → Kernel → Option (ℕ × Kernel)) (buf : ℕ) (env : ℕ → Interrupts) where
  unfoldable pub shell_loop : ℕ → List ℕ → Kernel → Run
  unfolding say ask shell_command
  shell_loop zero bytes k = none
  shell_loop (suc rounds) bytes k = do
    k1 ← say shell_prompt k
    line ← ask (env rounds) buf 1023 k1
    shell_command execute (shell_loop rounds) bytes line

  unfoldable pub shell : ℕ → List ℕ → Kernel → Run
  unfolding say shell_loop
  shell rounds bytes k = do k1 ← say (codes "Starting 391 Shell\n") k; shell_loop rounds bytes k1
