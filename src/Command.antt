-- ===== src/Command.antt =====
-- How `syscall_execute` of student-distrib/system_call.c reads its command line: the name of the
-- program and its argument.
pub mod Words
use linux_os.Prelude.{
  ℕ, zero, suc, ◌+◌, ◌-◌, Bool, true, false, List, [], ◌∷◌, Option, none, some, ◌==◌, ltb, ◌||◌,
  ◌&&◌, not, if◌then◌else◌,
}
use linux_os.Strings.{head_or, strlen}

-- The leading spaces, and the spaces behind the name.
unfoldable pub skip_spaces : List ℕ → List ℕ
skip_spaces [] = []
skip_spaces (c ∷ s) = let rest = skip_spaces s in if c == 32 then rest else c ∷ s

-- The characters that end the name.
abbrev pub ends_name : ℕ → Bool
ends_name c = c == 32 || c == 10 || c == 0

-- What a loop that copies from the command took, and the command from where it stopped.
pub record Taken : Type 0 where
  pub word : List ℕ
  pub left : List ℕ

-- The loop for the name: `room` characters still fit.
unfoldable pub take_name : ℕ → List ℕ → Taken
take_name zero s = record { word = []; left = s }
take_name (suc room) [] = record { word = []; left = [] }
take_name (suc room) (c ∷ s) =
    let rest = take_name room s in
    if ends_name c
    then record { word = []; left = c ∷ s }
    else record { word = c ∷ rest.word; left = rest.left }

-- The loop for the argument.
unfoldable pub take_argument : ℕ → List ℕ → List ℕ
take_argument zero s = []
take_argument (suc room) [] = []
take_argument (suc room) (c ∷ s) =
    let rest = take_argument room s in if c == 10 || c == 0 then [] else c ∷ rest

pub record Command : Type 0 where
  pub task_name : List ℕ
  pub argument : List ℕ

-- `none` is the return of -1 for a name that is too long.
unfoldable pub parse_command : List ℕ → Option Command
parse_command command =
    let name = take_name 32 (skip_spaces command) in
    let too_long = not (ltb (strlen name.word) 32) && not (ends_name (head_or name.left)) in
    if too_long
    then none
    else some
        (record { task_name = name.word; argument = take_argument 128 (skip_spaces name.left) })

-- The loop that looks for a character other than a space in the name.
unfoldable pub not_blank : List ℕ → Bool
not_blank [] = false
not_blank (c ∷ s) =
    let rest = not_blank s in if c == 0 then false else not (c == 32) || c == 10 || rest
