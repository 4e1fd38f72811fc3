-- ===== src/Strings/Reverse.antt =====
-- `strrev` of student-distrib/lib.c: the swaps in place against the reversed list.
use linux_os.Prelude.{
  ◌==◌, ℕ, zero, suc, ◌+◌, ◌-◌, ◌≤◌, ◌<◌, ◌≡◌, refl, ap, ◌≢◌, ◌∙◌, List, [], ◌∷◌, ◌++◌, arith,
  length, length-append, get_or, set, reverse, ltb, true, false,
}
use mathlib.Core.List.{append_assoc, reverse-append, reverse-cons, append-nil}
use linux_os.Strings.{strlen, swap_ends, strrev}
use linux_os.Strings.Compare.{All}

-- A list of two elements or more has two ends.
data Ends : List ℕ → Type 0 where
  none : Ends []
  one : (x : ℕ) → Ends (x ∷ [])
  both : (x : ℕ) (m : List ℕ) (y : ℕ) → Ends (x ∷ (m ++ (y ∷ [])))

Ends-cons : (x : ℕ) (l : List ℕ) → Ends l → Ends (x ∷ l)
Ends-cons x _ none = one x
Ends-cons x _ (one y) = both x [] y
Ends-cons x _ (both y m z) = both x (y ∷ m) z

ends : (l : List ℕ) → Ends l
ends [] = none
ends (x ∷ l) = Ends-cons x l (ends l)

get_or-append :
    (p : List ℕ) (x : ℕ) (s : List ℕ) (i d : ℕ) → i ≡ length p → get_or (p ++ (x ∷ s)) i d ≡ x
get_or-append [] x s i d e = rw e
get_or-append (y ∷ p) x s i d e = rw e (get_or-append p x s (length p) d refl)

set-append :
    (p : List ℕ) (x : ℕ) (s : List ℕ) (i v : ℕ)
    → i ≡ length p
    → set (p ++ (x ∷ s)) i v ≡ p ++ (v ∷ s)
set-append [] x s i v e = rw e
set-append (y ∷ p) x s i v e = rw e (ap (λ r. y ∷ r) (set-append p x s (length p) v refl))

-- One swap.
swap :
    (p : List ℕ) (x : ℕ) (m : List ℕ) (y : ℕ) (s : List ℕ) (beg end : ℕ)
    → beg ≡ length p
    → end ≡ length p + length m + 1
    → let l = p ++ (x ∷ (m ++ (y ∷ s))) in
      set (set l end (get_or l beg 0)) beg (get_or l end 0) ≡ p ++ (y ∷ (m ++ (x ∷ s)))
swap p x m y s beg end b e =
    let regroup = λ (z : ℕ). append_assoc p (x ∷ m) (z ∷ s) in
    let last : end ≡ length (p ++ (x ∷ m)) = omega (arith, length-append p (x ∷ m)) in
    rw
      (
        get_or-append p x (m ++ (y ∷ s)) beg 0 b,
        ← regroup y,
        get_or-append (p ++ (x ∷ m)) y s end 0 last,
        set-append (p ++ (x ∷ m)) y s end x last,
        regroup x,
      )
      (set-append p x (m ++ (x ∷ s)) beg y b)

swap_ends_stop :
    (rounds : ℕ) (s : List ℕ) (beg end : ℕ) → end ≤ beg → swap_ends rounds s beg end ≡ s
unfolding swap_ends
swap_ends_stop zero s beg end h = refl
swap_ends_stop (suc n) s beg end h = let stop : ltb beg end ≡ false = ground arith in rw stop

swap_ends_step :
    (rounds : ℕ) (s : List ℕ) (beg end : ℕ)
    → beg < end
    → swap_ends (suc rounds) s beg end
      ≡ swap_ends rounds (set (set s end (get_or s beg 0)) beg (get_or s end 0)) (beg + 1) (end - 1)
unfolding swap_ends
swap_ends_step n s beg end h = let more : ltb beg end ≡ true = ground arith in rw more

reverse_both :
    (x : ℕ) (m : List ℕ) (y : ℕ) → reverse (x ∷ (m ++ (y ∷ []))) ≡ y ∷ (reverse m ++ (x ∷ []))
reverse_both x m y = reverse-cons x (m ++ (y ∷ [])) ∙ rw reverse-append

-- Between a part that is done and the mirror part, the swaps reverse what is left.
swap_ends_lem :
    (rounds : ℕ) (p m s : List ℕ) (beg end : ℕ)
    → Ends m
    → beg ≡ length p
    → end + 1 ≡ length p + length m
    → length m ≤ rounds
    → swap_ends rounds (p ++ (m ++ s)) beg end ≡ p ++ (reverse m ++ s)
swap_ends_lem rounds p _ s beg end none b e h = swap_ends_stop rounds _ beg end (omega arith)
swap_ends_lem rounds p _ s beg end (one x) b e h = swap_ends_stop rounds _ beg end (omega arith)
swap_ends_lem zero p _ s beg end (both x m y) b e h = absurd (omega arith)
swap_ends_lem (suc n) p _ s beg end (both x m y) b e h =
    let count = length-append m (y ∷ []) in
    let inner =
      swap_ends_lem n (p ++ (y ∷ [])) m (x ∷ s) (beg + 1) (end - 1) (ends m)
        (omega (arith, length-append p (y ∷ []))) (omega (arith, count, length-append p (y ∷ [])))
        (omega (arith, count)) in
    let inner' =
      rw (append_assoc p (y ∷ []) (m ++ (x ∷ s)), append_assoc p (y ∷ []) (reverse m ++ (x ∷ s))) at
        inner in
    rw (append_assoc m (y ∷ []) s, reverse_both x m y, append_assoc (reverse m) (x ∷ []) s)
      (swap_ends_step n _ beg end (omega (arith, count))
        ∙ ap (λ l. swap_ends n l (beg + 1) (end - 1))
            (swap p x m y s beg end b (omega (arith, count)))
        ∙ inner')

pub strlen_text : (s : List ℕ) → All (λ c. c ≢ 0) s → strlen s ≡ length s
unfolding strlen
strlen_text [] h = refl
strlen_text (c ∷ s) h = ground (arith, strlen_text s h.1)

-- `strrev` gives the reversed list, for a string of characters other than NUL.
pub strrev-eq-reverse : (s : List ℕ) → All (λ c. c ≢ 0) s → strrev s ≡ reverse s
unfolding strrev
strrev-eq-reverse [] h = rw (strlen_text [] h)
strrev-eq-reverse (c ∷ s) h =
    let e = strlen_text (c ∷ s) h in
    let more : (length (c ∷ s) == 0) ≡ false = ground arith in
    let whole =
      swap_ends_lem (length (c ∷ s)) [] (c ∷ s) [] 0 (length (c ∷ s) - 1) (ends (c ∷ s)) refl
        (omega arith) (omega arith) in
    rw (e, more) (rw (append-nil (c ∷ s), append-nil (reverse (c ∷ s))) at whole)
