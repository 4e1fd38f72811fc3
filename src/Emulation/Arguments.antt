-- ===== src/Emulation/Arguments.antt =====
-- How `ece391_getargs` of syscalls/ece391emulate.c puts the strings from the host together.
use linux_os.Prelude.{
  Bool, ◌==◌, if◌then◌else◌, ℕ, ◌+◌, ◌-◌, ◌≤◌, ◌<◌, ◌≡◌, refl, ap, List, [], ◌∷◌, ◌++◌, true, false,
  ltb, arith, length, length-append, length-take, take, replicate,
}
use linux_os.Strings.Compare.{All}
use linux_os.Command.Words.{IsNameChar}
use linux_os.Support.{ece391_strlen}
use linux_os.Support.Text.{IsText, strlen_text, strlen_small, take_all}
use linux_os.Emulation.{close_args, store_copy, store_args, ece391_getargs, command_args}
use linux_os.Emulation.Words.{Spaced, IsWord, EndsLine, spell, words_of, command_args_lem}

-- The strings with one space between two of them.
abbrev pub joined : List (List ℕ) → List ℕ
joined [] = []
joined (arg ∷ []) = arg
joined (arg ∷ (next ∷ args)) = arg ++ (32 ∷ joined (next ∷ args))

append_assoc_zero :
    (a : List ℕ) (b : List ℕ) → (a ++ (32 ∷ b)) ++ (0 ∷ []) ≡ a ++ (32 ∷ (b ++ (0 ∷ [])))
append_assoc_zero [] b = refl
append_assoc_zero (c ∷ a) b = ap (λ r. c ∷ r) (append_assoc_zero a b)

-- Enough room: the text and its NUL.
store_args_fits :
    (args : List (List ℕ)) (nbytes : ℕ)
    → All IsText args
    → length (joined args) < nbytes
    → store_args args nbytes ≡ record { bytes = joined args ++ (0 ∷ []); good = true }
unfolding store_args close_args store_copy
store_args_fits [] nbytes h fits = let room : ltb nbytes 1 ≡ false = ground arith in rw room refl
store_args_fits (arg ∷ []) nbytes h fits =
    let len = strlen_text arg h.0 in
    let short : ltb nbytes (length arg) ≡ false = ground arith in
    let room : ltb (nbytes - length arg) 1 ≡ false = ground arith in
    rw (len, short, room, take_all arg) refl
store_args_fits (arg ∷ (next ∷ args)) nbytes h fits =
    let len = strlen_text arg h.0 in
    let whole = length-append {0} arg (32 ∷ joined (next ∷ args)) in
    let short : ltb nbytes (length arg) ≡ false = ground (arith, whole) in
    let room : ltb (nbytes - length arg) 1 ≡ false = ground (arith, whole) in
    let ih = store_args_fits (next ∷ args) (nbytes - length arg - 1) h.1 (omega (arith, whole)) in
    rw (append_assoc_zero arg (joined (next ∷ args)), len, short, room, ih, take_all arg) refl

-- Not enough room: -1.
store_args_long :
    (args : List (List ℕ)) (nbytes : ℕ)
    → All IsText args
    → nbytes ≤ length (joined args)
    → (store_args args nbytes).good ≡ false
unfolding store_args close_args store_copy
store_args_long [] nbytes h long = ground arith
store_args_long (arg ∷ []) nbytes h long = ground (arith, strlen_text arg h.0)
store_args_long (arg ∷ (next ∷ args)) nbytes h long = ground (
  arith,
  strlen_text arg h.0,
  length-append {0} arg (32 ∷ joined (next ∷ args)),
  store_args_long (next ∷ args) (nbytes - length arg - 1) h.1,
)

-- How many bytes a copy stores.
length-store_copy :
    (arg : List ℕ) (bytes : List ℕ) (g : Bool)
    → length (store_copy arg (record { bytes = bytes; good = g })).bytes
      ≡ ece391_strlen arg + (if length bytes == 0 then 1 else length bytes)
unfolding store_copy
length-store_copy arg [] g = omega (
  arith,
  length-append {0} (take (ece391_strlen arg) arg) (0 ∷ []),
  length-take {0} (ece391_strlen arg) arg,
  strlen_small arg,
)
length-store_copy arg (c ∷ cs) g = ground (
  arith,
  length-append {0} (take (ece391_strlen arg) arg) (c ∷ cs),
  length-take {0} (ece391_strlen arg) arg,
  strlen_small arg,
)

-- Whatever the strings are, at most one byte is stored behind the `nbytes` of the buffer, and none
-- when the call succeeds.
pub store_args_bound :
    (args : List (List ℕ)) (nbytes : ℕ)
    → length (store_args args nbytes).bytes
      ≤ nbytes + (if (store_args args nbytes).good then 0 else 1)
unfolding store_args close_args
store_args_bound [] nbytes = ground arith
store_args_bound (arg ∷ []) nbytes =
    ground (arith, length-store_copy arg [] false, length-store_copy arg (0 ∷ []) true)
store_args_bound (arg ∷ (next ∷ args)) nbytes =
    let room = nbytes - ece391_strlen arg - 1 in
    let rest = store_args (next ∷ args) room in
    ground (
      arith,
      length-store_copy arg [] false,
      length-store_copy arg (32 ∷ rest.bytes) rest.good,
      store_args_bound (next ∷ args) room,
    )

word-IsText : (w : List ℕ) → All IsNameChar w → IsText w
word-IsText [] a = tt
word-IsText (c ∷ w) a = (a.0.2, word-IsText w a.1)

words-IsText : (ws : List Spaced) → All IsWord ws → All IsText (words_of ws)
words-IsText [] a = tt
words-IsText (w ∷ ws) a = (word-IsText w.word a.0.0, words-IsText ws a.1)

-- A command of a name and words, split by `ece391_execute`, is read back by `ece391_getargs` of the
-- program: the words with one space between two of them and a NUL, when these fit in the buffer.
pub getargs-execute :
    (name : List ℕ) (ws : List Spaced) (trailing : ℕ) (rest : List ℕ) (nbytes : ℕ)
    → All IsNameChar name
    → All IsWord ws
    → EndsLine rest
    → length (joined (words_of ws)) < nbytes
    → ece391_getargs (command_args (name ++ spell ws (replicate trailing 32 ++ rest))) nbytes
      ≡ record { bytes = joined (words_of ws) ++ (0 ∷ []); good = true }
unfolding ece391_getargs
getargs-execute name ws trailing rest nbytes n a end fits =
    rw (command_args_lem name ws trailing rest n a end)
      (store_args_fits (words_of ws) nbytes (words-IsText ws a) fits)

-- With less room it fails.
getargs-execute_long :
    (name : List ℕ) (ws : List Spaced) (trailing : ℕ) (rest : List ℕ) (nbytes : ℕ)
    → All IsNameChar name
    → All IsWord ws
    → EndsLine rest
    → nbytes ≤ length (joined (words_of ws))
    → (ece391_getargs (command_args (name ++ spell ws (replicate trailing 32 ++ rest))) nbytes).good
      ≡ false
unfolding ece391_getargs
getargs-execute_long name ws trailing rest nbytes n a end long =
    rw (command_args_lem name ws trailing rest n a end)
      (store_args_long (words_of ws) nbytes (words-IsText ws a) long)
