-- ===== src/Console/Counter.antt =====
-- `counter` of syscalls/ece391counter.c, for every line that may be typed.
use mathlib.Core.List.{append_assoc}
use native.Mathlib.Decide.{ℕ_discrete}
use linux_os.Prelude.{
  inl, inr, Bool-cases, Bool, ℕ, zero, suc, ◌+◌, ◌^◌, ◌≤◌, ◌<◌, ◌≡◌, ◌≢◌, ◌∙◌, refl, sym, ap, List,
  [], ◌∷◌, ◌++◌, some, true, false, ◌==◌, ltb, ◌||◌, ◌&&◌, arith, if◌then◌else◌, length,
  length-append, set, drop, minus_one,
}
use linux_os.Prelude.Text.{codes}
use linux_os.Strings.{head_or, itoa}
use linux_os.Strings.Compare.{All}
use linux_os.Strings.Digits.{digits_text}
use linux_os.Terminal.{terminal_write}
use linux_os.Strings.Width.{itoa-IsDigit}
use linux_os.Terminal.{Terminals, Copied, displayed, typing, terminal_read}
use linux_os.Terminal.Line.{IsLineChar}
use linux_os.Kernel.{Kernel}
use linux_os.Support.{ece391_strlen, ece391_itoa}
use linux_os.Support.Same.{itoa-same}
use linux_os.Programs.{placed}
use linux_os.Programs.Output.{with_line, shown, shown-append, HasOutput}
use linux_os.Support.Text.{IsText}
use linux_os.Console.{c_text, counter_prompt, count_on, max_of, choose, counter}
use linux_os.Console.Typing.{
  HasInput, say_whole, say_lem, say-HasOutput, terminals-HasOutput, strlen_held, c_text_lem,
  held_line, line-IsText, ask_behind,
}

-- The numbers behind `i`, one on each line.
unfoldable pub numbers : ℕ → ℕ → List ℕ
numbers i zero = []
numbers i (suc rounds) = itoa (i + 1) 10 ++ (10 ∷ numbers (i + 1) rounds)

itoa-IsText : (n : ℕ) → n < 2 ^ 32 → IsText (ece391_itoa n 10)
itoa-IsText n h =
    rw (itoa-same n 10) (digits_text 10 _ (itoa-IsDigit n 10 (omega arith) (omega arith) h))

count_on_lem :
    (rounds i : ℕ) (bytes : List ℕ) (k : Kernel)
    → HasOutput k
    → i + rounds < 2 ^ 32
    → count_on rounds i bytes k ≡ some (0, with_line (numbers i rounds) k)
unfolding count_on numbers
count_on_lem zero i bytes k output h = (unfold terminal_write in refl)
count_on_lem (suc rounds) i bytes k output h =
    let digits = ece391_itoa (i + 1) 10 in
    let held = placed (digits ++ (0 ∷ [])) bytes in
    let text : c_text held ≡ digits =
      ap (λ b. c_text b) (append_assoc digits (0 ∷ []) _)
      ∙ c_text_lem digits _ (itoa-IsText (i + 1) (omega arith)) in
    let first = say_lem held k output ∙ ap (λ b. some (with_line b k)) text in
    let k1 = with_line digits k in
    let second =
      say_whole (10 ∷ []) k1 (say-HasOutput digits k output) (unfold ece391_strlen in refl) in
    let k2 = with_line (10 ∷ []) k1 in
    let rest =
      count_on_lem rounds (i + 1) held k2
        (say-HasOutput (10 ∷ []) k1 (say-HasOutput digits k output)) (omega arith) in
    let lines : shown (itoa (i + 1) 10 ++ (10 ∷ numbers (i + 1) rounds)) k.terminals
        ≡ shown (numbers (i + 1) rounds) k2.terminals =
      rw (← itoa-same (i + 1) 10) (
        shown-append digits (10 ∷ numbers (i + 1) rounds) k.terminals
        ∙ shown-append (10 ∷ []) (numbers (i + 1) rounds) k1.terminals) in
    rw first (rw second (rw rest (ap (λ u. some (0, record k { terminals = u })) (sym lines))))

-- What `counter` says behind the line that was typed, without its Enter.
abbrev pub counted : List ℕ → List ℕ
counted [] = []
counted (c ∷ []) =
    if c == b'0'
    then numbers 0 100
    else if c == b'1'
    then numbers 0 10000
    else if c == b'2'
    then numbers 0 100000
    else codes "Wrong Choice!\n"
counted (c ∷ (d ∷ cs)) = codes "Wrong Choice!\n"

-- The first test of `counter`, on the text that was read.
abbrev is_wrong : List ℕ → Bool
is_wrong held =
    let len = ece391_strlen held in
    let c = head_or held in ltb 2 len || ((len == 2) && (ltb c b'0' || ltb b'2' c))

module _ (bytes out : List ℕ) (n : ℕ) (k : Kernel) (output : HasOutput k) (small : n < 1024) where
  choose_wrong :
      is_wrong (set (placed out bytes) n 0) ≡ true
      → choose bytes (n, out, k) ≡ some (0, with_line (codes "Wrong Choice!\n") k)
  unfolding choose
  choose_wrong wrong =
      let good : (n == minus_one) ≡ false = ground arith in
      rw (good, wrong, say_whole (codes "Wrong Choice!\n") k output (unfold ece391_strlen in refl))
        refl

  choose_counts :
      (c max : ℕ)
      → is_wrong (set (placed out bytes) n 0) ≡ false
      → head_or (set (placed out bytes) n 0) ≡ c
      → max_of c ≡ max
      → max ≤ 100000
      → choose bytes (n, out, k) ≡ some (0, with_line (numbers 0 max) k)
  unfolding choose
  choose_counts c max right first e le =
      let good : (n == minus_one) ≡ false = ground arith in
      rw (good, right, first, e)
        (count_on_lem max 0 (set (placed out bytes) n 0) k output (omega arith))

-- A line of one character.
one_wrong :
    (c : ℕ) (rest : List ℕ) → c ≢ 0 → is_wrong (c ∷ (10 ∷ (0 ∷ rest))) ≡ ltb c b'0' || ltb b'2' c
unfolding ece391_strlen
one_wrong c rest h = let goes : (c == 0) ≡ false = ground arith in rw goes refl

many_wrong :
    (cs bytes : List ℕ)
    → All IsLineChar cs
    → 2 ≤ length cs
    → is_wrong (set (placed ((cs ++ (10 ∷ [])) ++ (0 ∷ [])) bytes) (length cs + 1) 0) ≡ true
many_wrong cs bytes ok long =
    let s = cs ++ (10 ∷ []) in
    let size = length-append {0} cs (10 ∷ []) in
    let long : (b : List ℕ) → ece391_strlen b ≡ length s → is_wrong b ≡ true =
      (λ b e. ground arith) in
    rw (held_line s bytes (length cs + 1) (omega (arith, size)))
      (long (s ++ (0 ∷ drop (length (s ++ (0 ∷ []))) bytes)) (strlen_held s _ (line-IsText cs ok)))

one_choice :
    (c max : ℕ) (bytes : List ℕ) (k : Kernel)
    → HasOutput k
    → is_wrong (c ∷ (10 ∷ (0 ∷ drop 3 bytes))) ≡ false
    → max_of c ≡ max
    → max ≤ 100000
    → counted (c ∷ []) ≡ numbers 0 max
    → choose bytes (2, c ∷ (10 ∷ (0 ∷ [])), k) ≡ some (0, with_line (counted (c ∷ [])) k)
one_choice c max bytes k output right e le told =
    choose_counts bytes (c ∷ (10 ∷ (0 ∷ []))) 2 k output (omega arith) c max right refl e le
    ∙ ap (λ b. some (0, with_line b k)) (sym told)

choose_lem :
    (cs bytes : List ℕ) (k : Kernel)
    → HasOutput k
    → All IsLineChar cs
    → length cs < 126
    → choose bytes (length cs + 1, (cs ++ (10 ∷ [])) ++ (0 ∷ []), k)
      ≡ some (0, with_line (counted cs) k)
choose_lem [] bytes k output ok short =
    choose_counts bytes (10 ∷ (0 ∷ [])) 1 k output (omega arith) 10 0 (unfold ece391_strlen in refl)
      refl (unfold max_of in refl) (omega arith)
    ∙ (unfold numbers terminal_write in refl)
choose_lem (c ∷ []) bytes k output ok short =
    let wrong = one_wrong c (drop 3 bytes) ok.0.1 in
    elim (Bool-cases (ltb c b'0' || ltb b'2' c)) [
      | inl out_of_range ↦
          let told : counted (c ∷ []) ≡ codes "Wrong Choice!\n" = ground arith in
          choose_wrong bytes (c ∷ (10 ∷ (0 ∷ []))) 2 k output (omega arith) (wrong ∙ out_of_range)
          ∙ ap (λ b. some (0, with_line b k)) (sym told)
      | inr inside ↦ elim (ℕ_discrete c b'0') [
        | yes e ↦
            one_choice c 100 bytes k output (wrong ∙ inside) (unfold max_of in ground arith)
              (omega arith) (ground arith)
        | no n0 ↦ elim (ℕ_discrete c b'1') [
          | yes e ↦
              one_choice c 10000 bytes k output (wrong ∙ inside) (unfold max_of in ground arith)
                (omega arith) (ground arith)
          | no n1 ↦
              one_choice c 100000 bytes k output (wrong ∙ inside) (unfold max_of in ground arith)
                (omega arith) (ground arith)
        ]
      ]
    ]
choose_lem (c ∷ (d ∷ cs)) bytes k output ok short =
    choose_wrong bytes _ (length (c ∷ (d ∷ cs)) + 1) k output (omega arith)
      (many_wrong (c ∷ (d ∷ cs)) bytes ok (omega arith))

-- On a terminal with an empty line, up to 125 characters and Enter are typed: `counter` shows its
-- question, reads the line and ends with 0. Behind a line "0", "1" or "2" it shows the decimal numbers
-- from 1 to 100, 10000 or 100000, one on each line; behind an empty line nothing; behind another line
-- "Wrong Choice!". Nothing but the terminals has changed.
pub counter_lem :
    (buf ticks : ℕ) (bytes cs : List ℕ) (k : Kernel)
    → HasInput k
    → HasOutput k
    → (displayed k.terminals).keyboard_buffer_size ≡ 0
    → ((i : ℕ) → (displayed k.terminals).keyboard_buffer i ≡ 0)
    → (displayed k.terminals).allow_terminal_read ≡ 0
    → All IsLineChar cs
    → length cs < 126
    → (line : Copied) × (t : Terminals) × (terminal_read 1023
          (typing (cs ++ (10 ∷ [])))
          (shown counter_prompt k.terminals)
        ≡ some (line, t))
      × (counter (record { keys = cs ++ (10 ∷ []); ticks = ticks }) buf bytes k
          ≡ some (0, record k { terminals = shown (counted cs) t }))
counter_lem buf ticks bytes cs k input output size zeros waits ok short =
    let asks = say_whole counter_prompt k output (unfold ece391_strlen in refl) in
    let (line, t, reads, asked) =
      ask_behind counter_prompt (record { keys = cs ++ (10 ∷ []); ticks = ticks }) buf 1023 cs k
        input refl size zeros waits ok short (omega arith) in
    let chosen =
      choose_lem cs bytes (record k { terminals = t }) (terminals-HasOutput t k output) ok short in
    (line, t, reads, unfold counter in rw asks (rw asked chosen))
