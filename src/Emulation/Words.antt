-- ===== src/Emulation/Words.antt =====
-- How `ece391_execute` of syscalls/ece391emulate.c splits a command into the strings for the host.
use linux_os.Prelude.{
  Bool-cases, if◌then◌else◌, ℕ, zero, suc, ◌+◌, ◌≤◌, ◌<◌, ◌≡◌, ◌⊎◌, inl, inr, refl, ap, List, [],
  ◌∷◌, ◌++◌, true, false, ◌==◌, ◌||◌, arith, length, length-append, replicate,
}
use linux_os.Strings.{head_or, tail_of}
use linux_os.Strings.Compare.{All}
use linux_os.Command.{ends_name, skip_spaces}
use linux_os.Command.Words.{IsNameChar, skip_spaces_lem, name_stops}
use linux_os.Emulation.{scan_word, step_over, scan_args, command_args}

-- A word of a command, and the spaces before it beside the first.
pub record Spaced : Type 0 where
  pub more : ℕ
  pub word : List ℕ

abbrev pub IsWord : Spaced → Type 0
IsWord w = All IsNameChar w.word × (0 < length w.word)

abbrev pub spell : List Spaced → List ℕ → List ℕ
spell [] rest = rest
spell (w ∷ ws) rest = 32 ∷ (replicate w.more 32 ++ (w.word ++ spell ws rest))

abbrev pub words_of : List Spaced → List (List ℕ)
words_of [] = []
words_of (w ∷ ws) = w.word ∷ words_of ws

-- The end of the text, or a newline at the end of the text.
abbrev pub EndsLine : List ℕ → Type 0
EndsLine rest = (head_or rest ≡ 0) ⊎ ((head_or rest ≡ 10) × (head_or (tail_of rest) ≡ 0))

scan_word_lem :
    (w s : List ℕ)
    → All IsNameChar w
    → (ends_name (head_or s) ≡ true)
    → scan_word (w ++ s) ≡ record { word = w; left = s }
unfolding scan_word
scan_word_lem [] [] a e = refl
scan_word_lem [] (c ∷ s) a e = rw e
scan_word_lem (c ∷ w) s a e =
    let goes_on : ends_name c ≡ false = ground arith in rw (goes_on, scan_word_lem w s a.1 e)

spell_ends :
    (ws : List Spaced) (trailing : ℕ) (rest : List ℕ)
    → EndsLine rest
    → ends_name (head_or (spell ws (replicate trailing 32 ++ rest))) ≡ true
spell_ends [] zero rest end = ground arith
spell_ends [] (suc trailing) rest end = refl
spell_ends (w ∷ ws) trailing rest end = refl

word_goes :
    (w s : List ℕ)
    → All IsNameChar w
    → 0 < length w
    → (head_or (w ++ s) == 0) || (head_or (w ++ s) == 10) ≡ false
word_goes [] s a pos = absurd (omega arith)
word_goes (c ∷ w) s a pos = ground arith

-- The loop ends at the end of the line.
scan_args_stop :
    (rounds trailing : ℕ) (rest : List ℕ)
    → EndsLine rest
    → scan_args rounds (step_over (replicate trailing 32 ++ rest)) ≡ []
unfolding scan_args step_over skip_spaces
scan_args_stop zero trailing rest end = refl
scan_args_stop (suc rounds) zero [] end = refl
scan_args_stop (suc rounds) zero (c ∷ []) end = ground arith
scan_args_stop (suc rounds) zero (c ∷ (d ∷ rest)) end = ground arith
scan_args_stop (suc rounds) (suc n) rest (inl e) =
    let gone = skip_spaces_lem n rest (ground arith) in rw (gone, e) refl
scan_args_stop (suc rounds) (suc n) rest (inr e) =
    let gone = skip_spaces_lem n rest (ground arith) in rw (gone, e.0) refl

-- One round of the loop.
scan_args_one :
    (rounds : ℕ) (s scan word left : List ℕ)
    → skip_spaces s ≡ scan
    → (head_or scan == 0) || (head_or scan == 10) ≡ false
    → scan_word scan ≡ record { word = word; left = left }
    → scan_args (suc rounds) s ≡ word ∷ scan_args rounds (step_over left)
unfolding scan_args
scan_args_one rounds s scan word left skipped goes found = rw (skipped, goes, found) refl

step_over_space : (s : List ℕ) → step_over (32 ∷ s) ≡ s
unfolding step_over
step_over_space s = refl

scan_args_lem :
    (rounds trailing : ℕ) (ws : List Spaced) (rest : List ℕ)
    → All IsWord ws
    → EndsLine rest
    → length ws ≤ rounds
    → scan_args rounds (step_over (spell ws (replicate trailing 32 ++ rest))) ≡ words_of ws
scan_args_lem rounds trailing [] rest a end enough = scan_args_stop rounds trailing rest end
scan_args_lem zero trailing (w ∷ ws) rest a end enough = absurd (omega arith)
scan_args_lem (suc rounds) trailing (w ∷ ws) rest a end enough =
    let tail = spell ws (replicate trailing 32 ++ rest) in
    let skipped = skip_spaces_lem w.more (w.word ++ tail) (name_stops w.word tail a.0.0 a.0.1) in
    let found = scan_word_lem w.word tail a.0.0 (spell_ends ws trailing rest end) in
    let ih = scan_args_lem rounds trailing ws rest a.1 end (omega arith) in
    rw
      (
        step_over_space (replicate w.more 32 ++ (w.word ++ tail)),
        scan_args_one rounds _ _ _ _ skipped (word_goes w.word tail a.0.0 a.0.1) found,
        ih,
      )
      refl

step_over_goes : (s : List ℕ) → (head_or s == 0) ≡ false → tail_of s ≡ step_over s
unfolding step_over
step_over_goes s e = rw e refl

length-spell :
    (ws : List Spaced) (rest : List ℕ)
    → All IsWord ws
    → length ws + length ws ≤ length (spell ws rest)
length-spell [] rest a = omega arith
length-spell (w ∷ ws) rest a = omega (
  arith,
  length-spell ws rest a.1,
  length-append {0} (replicate w.more 32) (w.word ++ spell ws rest),
  length-append {0} w.word (spell ws rest),
)

-- Overwriting the end of the first word or finding its NUL there comes to the same.
first_end :
    (trailing : ℕ) (ws : List Spaced) (rest : List ℕ) (rounds : ℕ)
    → All IsWord ws
    → EndsLine rest
    → length ws ≤ rounds
    → (if head_or (spell ws (replicate trailing 32 ++ rest)) == 0
        then []
        else scan_args rounds (tail_of (spell ws (replicate trailing 32 ++ rest))))
      ≡ words_of ws
first_end trailing ws rest rounds a end enough =
    let tail = spell ws (replicate trailing 32 ++ rest) in
    let scanned = scan_args_lem rounds trailing ws rest a end enough in
    elim (Bool-cases (head_or tail == 0)) [
      | inl nul ↦ rw nul (only_rest ws nul)
      | inr goes ↦ rw goes (rw (step_over_goes tail goes) scanned)
    ]
  where
    only_rest :
        (ws : List Spaced)
        → (head_or (spell ws (replicate trailing 32 ++ rest)) == 0) ≡ true
        → [] ≡ words_of ws
    only_rest [] e = refl
    only_rest (w ∷ ws) e = absurd (ground arith)

-- A name, words behind spaces, and the end of the line give the path in the current directory and
-- the words.
pub command_args_lem :
    (name : List ℕ) (ws : List Spaced) (trailing : ℕ) (rest : List ℕ)
    → All IsNameChar name
    → All IsWord ws
    → EndsLine rest
    → command_args (name ++ spell ws (replicate trailing 32 ++ rest))
      ≡ (b'.' ∷ b'/' ∷ name) ∷ words_of ws
unfolding command_args
command_args_lem name ws trailing rest n a end =
    let tail = spell ws (replicate trailing 32 ++ rest) in
    let found = scan_word_lem name tail n (spell_ends ws trailing rest end) in
    let enough : length ws ≤ length (name ++ tail) =
      omega
        (arith, length-spell ws (replicate trailing 32 ++ rest) a, length-append {0} name tail) in
    rw found (
      ap (λ args. (b'.' ∷ b'/' ∷ name) ∷ args)
        (first_end trailing ws rest (length (name ++ tail)) a end enough))
