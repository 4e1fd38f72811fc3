-- ===== src/Command/Words.antt =====
-- The command line of student-distrib/system_call.c: a name, spaces and an argument are read back.
use linux_os.Prelude.{
  ℕ, zero, suc, ◌≤◌, ◌<◌, ◌≡◌, ◌≢◌, ◌⊎◌, inl, inr, refl, List, [], ◌∷◌, ◌++◌, none, some, Bool,
  true, false, ltb, ◌&&◌, not, arith, length, replicate,
}
use linux_os.Strings.{head_or, strlen}
use linux_os.Strings.Compare.{All}
use linux_os.Command.{ends_name, skip_spaces, take_name, take_argument, parse_command}

-- A character of a name, and of an argument.
abbrev pub IsNameChar : ℕ → Type 0
IsNameChar c = (c ≢ 32) × (c ≢ 10) × (c ≢ 0)

abbrev pub IsArgumentChar : ℕ → Type 0
IsArgumentChar c = (c ≢ 10) × (c ≢ 0)

-- What follows does not start with a space.
abbrev pub StopsSpaces : List ℕ → Type 0
StopsSpaces s = head_or s ≢ 32

pub skip_spaces_lem : (n : ℕ) (s : List ℕ) → StopsSpaces s → skip_spaces (replicate n 32 ++ s) ≡ s
unfolding skip_spaces
skip_spaces_lem zero [] h = refl
skip_spaces_lem zero (c ∷ s) h = ground arith
skip_spaces_lem (suc n) s h = skip_spaces_lem n s h

take_name_lem :
    (room : ℕ) (w s : List ℕ)
    → All IsNameChar w
    → length w ≤ room
    → (ends_name (head_or s) ≡ true)
    → take_name room (w ++ s) ≡ record { word = w; left = s }
unfolding take_name
take_name_lem zero [] s a h e = refl
take_name_lem zero (c ∷ w) s a h e = absurd (omega arith)
take_name_lem (suc room) [] [] a h e = refl
take_name_lem (suc room) [] (c ∷ s) a h e = rw e
take_name_lem (suc room) (c ∷ w) s a h e =
    let goes_on : ends_name c ≡ false = ground arith in
    rw (goes_on, take_name_lem room w s a.1 (omega arith) e)

take_argument_lem :
    (room : ℕ) (a s : List ℕ)
    → All IsArgumentChar a
    → length a ≤ room
    → (head_or s ≡ 10) ⊎ (head_or s ≡ 0)
    → take_argument room (a ++ s) ≡ a
unfolding take_argument
take_argument_lem zero [] s h l e = refl
take_argument_lem zero (c ∷ a) s h l e = absurd (omega arith)
take_argument_lem (suc room) [] [] h l e = refl
take_argument_lem (suc room) [] (c ∷ s) h l e = ground arith
take_argument_lem (suc room) (c ∷ a) s h l e = ground (arith, take_argument_lem room a s h.1)

strlen_name : (w : List ℕ) → All IsNameChar w → strlen w ≡ length w
unfolding strlen
strlen_name [] h = refl
strlen_name (c ∷ w) h = ground (arith, strlen_name w h.1)

Bool-false : (b : Bool) → b && false ≡ false
Bool-false true = refl
Bool-false false = refl

tail_ends :
    (between : ℕ) (argument rest : List ℕ)
    → (head_or rest ≡ 10) ⊎ (head_or rest ≡ 0)
    → (0 < between) ⊎ (argument ≡ [])
    → ends_name (head_or (replicate between 32 ++ (argument ++ rest))) ≡ true
tail_ends zero [] rest end gap = ground arith
tail_ends zero (c ∷ argument) rest end (inl lt) = absurd (omega arith)
tail_ends zero (c ∷ argument) rest end (inr e) = cc
tail_ends (suc n) argument rest end gap = refl

pub name_stops : (name s : List ℕ) → All IsNameChar name → 0 < length name → StopsSpaces (name ++ s)
name_stops [] s n pos = absurd (omega arith)
name_stops (c ∷ name) s n pos = n.0.0

argument_stops :
    (argument rest : List ℕ)
    → head_or argument ≢ 32
    → (head_or rest ≡ 10) ⊎ (head_or rest ≡ 0)
    → StopsSpaces (argument ++ rest)
argument_stops [] rest start end = ground arith
argument_stops (c ∷ argument) rest start end = start

-- A name with no room left for its last characters is cut inside.
take_name_cut :
    (room : ℕ) (w s : List ℕ)
    → All IsNameChar w
    → room < length w
    → (strlen (take_name room (w ++ s)).word ≡ room)
      × (ends_name (head_or (take_name room (w ++ s)).left) ≡ false)
unfolding take_name strlen
take_name_cut room [] s a h = absurd (omega arith)
take_name_cut zero (c ∷ w) s a h = (refl, ground arith)
take_name_cut (suc room) (c ∷ w) s a h = ground (arith, take_name_cut room w s a.1 (omega arith))

-- A command of spaces, a name of at most 32 characters, spaces, an argument of at most 128 that does
-- not start with a space, and the end of the line or of the text is read as that name and argument.
-- There are spaces between, or no argument.
pub parse_command_lem :
    (before between : ℕ) (name argument rest : List ℕ)
    → All IsNameChar name
    → 0 < length name
    → length name ≤ 32
    → All IsArgumentChar argument
    → length argument ≤ 128
    → head_or argument ≢ 32
    → (head_or rest ≡ 10) ⊎ (head_or rest ≡ 0)
    → (0 < between) ⊎ (argument ≡ [])
    → parse_command (replicate before 32 ++ (name ++ (replicate between 32 ++ (argument ++ rest))))
      ≡ some (record { task_name = name; argument = argument })
unfolding parse_command
parse_command_lem before between name argument rest n pos short a small start end gap =
    let tail = replicate between 32 ++ (argument ++ rest) in
    let ends = tail_ends between argument rest end gap in
    let found = take_name_lem 32 name tail n short ends in
    let fits : not (ltb (strlen name) 32) && not (ends_name (head_or tail)) ≡ false =
      rw ends (Bool-false (not (ltb (strlen name) 32))) in
    rw (
      skip_spaces_lem before (name ++ tail) (name_stops name tail n pos),
      found,
      fits,
      skip_spaces_lem between (argument ++ rest) (argument_stops argument rest start end),
      take_argument_lem 128 argument rest a small end,
    )

-- A name of more than 32 characters is refused.
pub parse_command_too_long :
    (before : ℕ) (name rest : List ℕ)
    → All IsNameChar name
    → 32 < length name
    → parse_command (replicate before 32 ++ (name ++ rest)) ≡ none
unfolding parse_command
parse_command_too_long before name rest n long =
    let (count, goes_on) = take_name_cut 32 name rest n long in
    rw
      (skip_spaces_lem before (name ++ rest) (name_stops name rest n (omega arith)), count, goes_on)
