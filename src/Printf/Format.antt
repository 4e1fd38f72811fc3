-- ===== src/Printf/Format.antt =====
-- `printf` of student-distrib/lib.c against the text that a list of directives stands for.
use mathlib.Core.List.{append_assoc, append-nil}
use linux_os.Prelude.{
  ℕ, ◌+◌, ◌≡◌, ◌≢◌, ◌∙◌, ap, refl, sym, Bool, true, false, List, [], ◌∷◌, ◌++◌, Option, none, some,
  ◌==◌, if◌then◌else◌, length, length-append, arith, ◌%◌,
}
use linux_os.Strings.Compare.{All}
use linux_os.Screen.{Screen, putc, puts}
use linux_os.Printf.{
  plain, hex_field, unsigned_field, signed_field, convert, char_in, format_char, at_nul,
  printf_from, printf, one_more,
}

-- What a format is made of.
pub data Directive : Type 0 where
  literal : ℕ → Directive
  percent : Directive
  hex : Bool → Directive
  unsigned signed character string : Directive

-- How it is written.
abbrev pub written : Directive → List ℕ
written (literal c) = c ∷ []
written percent = b'%' ∷ b'%' ∷ []
written (hex false) = b'%' ∷ b'x' ∷ []
written (hex true) = b'%' ∷ b'#' ∷ b'x' ∷ []
written unsigned = b'%' ∷ b'u' ∷ []
written signed = b'%' ∷ b'd' ∷ []
written character = b'%' ∷ b'c' ∷ []
written string = b'%' ∷ b's' ∷ []

abbrev pub IsDirective : Directive → Type 0
IsDirective (literal c) = (c ≢ b'%') × (c ≢ 0)
IsDirective d = Unit {0}

-- The index of the argument behind it.
abbrev pub next_arg : Directive → ℕ → ℕ
next_arg (literal c) esp = esp
next_arg percent esp = esp
next_arg (hex alternate) esp = esp + 1
next_arg unsigned esp = esp + 1
next_arg signed esp = esp + 1
next_arg character esp = esp + 1
next_arg string esp = esp + 1

-- The bytes before the first NUL.
unfoldable pub before_nul : List ℕ → List ℕ
before_nul [] = []
before_nul (c ∷ str) = let rest = before_nul str in if c == 0 then [] else c ∷ rest

-- Characters put on the screen one after the other.
unfoldable pub put_all : List ℕ → Screen → Screen
put_all [] s = s
put_all (c ∷ str) s = put_all str (putc c s)

put_all-append : (a b : List ℕ) (s : Screen) → put_all (a ++ b) s ≡ put_all b (put_all a s)
unfolding put_all
put_all-append [] b s = refl
put_all-append (c ∷ a) b s = put_all-append a b (putc c s)

puts-put_all : (str : List ℕ) (s : Screen) → (puts str s).0 ≡ put_all (before_nul str) s
unfolding puts put_all before_nul
puts-put_all [] s = refl
puts-put_all (c ∷ str) s = ground (arith, puts-put_all str (putc c s))

unfoldable pub format_of : List Directive → List ℕ
format_of [] = []
format_of (d ∷ ds) = written d ++ format_of ds

more : ℕ → Option (ℕ × Screen) → Option (ℕ × Screen)
more n none = none
more n (some (k, s)) = some (n + k, s)

counted_1 : (r : Option (ℕ × Screen)) → one_more r ≡ more 1 r
unfolding more
counted_1 none = refl
counted_1 (some (k, s)) = ground arith

counted : (r : Option (ℕ × Screen)) → one_more (one_more r) ≡ more 2 r
unfolding more
counted none = refl
counted (some (k, s)) = ground arith

counted_3 : (r : Option (ℕ × Screen)) → one_more (one_more (one_more r)) ≡ more 3 r
unfolding more
counted_3 none = refl
counted_3 (some (k, s)) = ground arith

more-zero : (r : Option (ℕ × Screen)) → more 0 r ≡ r
unfolding more
more-zero none = refl
more-zero (some (k, s)) = ground arith

more-more : (n k : ℕ) (r : Option (ℕ × Screen)) → more n (more k r) ≡ more (n + k) r
unfolding more
more-more n k none = refl
more-more n k (some (m, s)) = ground arith

-- The index of the argument behind all of them.
last_arg : List Directive → ℕ → ℕ
last_arg [] esp = esp
last_arg (d ∷ ds) esp = last_arg ds (next_arg d esp)

module _ (stack : ℕ → ℕ) (strings : ℕ → List ℕ) (old : List ℕ) where
  -- The text that a directive stands for, with the argument at an index.
  unfoldable pub shown : Directive → ℕ → List ℕ
  shown (literal c) esp = c ∷ []
  shown percent esp = b'%' ∷ []
  shown (hex alternate) esp = before_nul (hex_field alternate old (stack esp))
  shown unsigned esp = before_nul (unsigned_field (stack esp))
  shown signed esp = before_nul (signed_field (stack esp))
  shown character esp = (stack esp % 256) ∷ []
  shown string esp = before_nul (strings (stack esp))

  unfoldable pub shown_all : List Directive → ℕ → List ℕ
  shown_all [] esp = []
  shown_all (d ∷ ds) esp = shown d esp ++ shown_all ds (next_arg d esp)

  -- The scan of what is left, from plain text on.
  abbrev scan : List ℕ → ℕ → Screen → Option (ℕ × Screen)
  scan rest esp s =
      printf_from stack strings old rest (record { mode = plain; esp = esp; screen = s })

  two :
      (rest : List ℕ) (esp : ℕ) (s t : Screen)
      → s ≡ t
      → one_more (one_more (scan rest esp s)) ≡ more 2 (scan rest esp t)
  two rest esp s t e = counted (scan rest esp s) ∙ ap (λ u. more 2 (scan rest esp u)) e

  three :
      (rest : List ℕ) (esp : ℕ) (s t : Screen)
      → s ≡ t
      → one_more (one_more (one_more (scan rest esp s))) ≡ more 3 (scan rest esp t)
  three rest esp s t e = counted_3 (scan rest esp s) ∙ ap (λ u. more 3 (scan rest esp u)) e

  one_lem :
      (d : Directive) (rest : List ℕ) (esp : ℕ) (s : Screen)
      → IsDirective d
      → scan (written d ++ rest) esp s
        ≡ more (length (written d)) (scan rest (next_arg d esp) (put_all (shown d esp) s))
  unfolding printf_from format_char char_in convert put_all shown
  one_lem (literal c) rest esp s h =
      let text : (c == b'%') ≡ false = ground arith in
      let used : (c == 0) ≡ false = ground arith in
      rw (text, used) (counted_1 (scan rest esp (putc c s)))
  one_lem percent rest esp s h = two rest esp _ _ refl
  one_lem (hex false) rest esp s h = two rest (esp + 1) _ _ (puts-put_all _ s)
  one_lem (hex true) rest esp s h = three rest (esp + 1) _ _ (puts-put_all _ s)
  one_lem unsigned rest esp s h = two rest (esp + 1) _ _ (puts-put_all _ s)
  one_lem signed rest esp s h = two rest (esp + 1) _ _ (puts-put_all _ s)
  one_lem character rest esp s h = two rest (esp + 1) _ _ refl
  one_lem string rest esp s h = two rest (esp + 1) _ _ (puts-put_all _ s)

  all_lem :
      (ds : List Directive) (rest : List ℕ) (esp : ℕ) (s : Screen)
      → All IsDirective ds
      → scan (format_of ds ++ rest) esp s
        ≡ more (length (format_of ds)) (scan rest (last_arg ds esp) (put_all (shown_all ds esp) s))
  unfolding format_of shown_all last_arg
  all_lem [] rest esp s h = unfold put_all in sym (more-zero (scan rest esp s))
  all_lem (d ∷ ds) rest esp s h =
      rw
        (
          append_assoc (written d) (format_of ds) rest,
          put_all-append (shown d esp) (shown_all ds (next_arg d esp)) s,
          length-append (written d) (format_of ds),
        )
        (one_lem d (format_of ds ++ rest) esp s h.0
          ∙ ap (more (length (written d)))
              (all_lem ds rest (next_arg d esp) (put_all (shown d esp) s) h.1)
          ∙ more-more (length (written d)) (length (format_of ds)) _)

  -- The format that a list of directives is written as shows the text that they stand for, in
  -- order, each with its own argument, and the number returned is the length of the format.
  pub printf_lem :
      (ds : List Directive) (s : Screen)
      → All IsDirective ds
      → printf stack strings old (format_of ds) s
        ≡ some (length (format_of ds), put_all (shown_all ds 0) s)
  unfolding printf
  printf_lem ds s h =
      ap (λ fmt. scan fmt 0 s) (sym (append-nil (format_of ds)))
      ∙ all_lem ds [] 0 s h
      ∙ (unfold printf_from at_nul more in ground arith)

  -- A format that ends in a '%' is scanned past its end.
  pub printf_open :
      (ds : List Directive) (s : Screen)
      → All IsDirective ds
      → printf stack strings old (format_of ds ++ (b'%' ∷ [])) s ≡ none
  unfolding printf
  printf_open ds s h =
      all_lem ds (b'%' ∷ []) 0 s h ∙ (unfold printf_from at_nul more format_char char_in in refl)
