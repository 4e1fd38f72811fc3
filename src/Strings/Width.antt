-- ===== src/Strings/Width.antt =====
-- The number of digits that `itoa` of student-distrib/lib.c gives, and what they are.
use native.Mathlib.Decide.{ℕ_discrete}
use native.Mathlib.Nat.{pow-suc}
use mathlib.Core.List.{reverse-cons}
use linux_os.Prelude.{
  ℕ, zero, suc, ◌/◌, ◌^◌, ◌≤◌, ◌<◌, ◌≡◌, refl, sym, List, [], ◌∷◌, ◌++◌, arith, reverse, length,
  length-append, ◌==◌, true, false,
}
use mathlib.Core.Path.{subst}
use linux_os.Strings.{strlen, itoa, itoa_loop}
use linux_os.Strings.Compare.{All}
use linux_os.Strings.Digits.{IsDigit, itoa_loop_step, itoa_loop_lem, digits_text}
use linux_os.Strings.Reverse.{strrev-eq-reverse, strlen_text}

itoa_loop_width : (k fuel n : ℕ) → n < 16 ^ k → length (itoa_loop fuel n 16) ≤ k
itoa_loop_width k zero n h = unfold itoa_loop in omega arith
itoa_loop_width zero (suc fuel) n h = rw ((itoa_loop_step fuel n 16).0 (omega arith)) (omega arith)
itoa_loop_width (suc k) (suc fuel) n h = elim (ℕ_discrete n 0) [
  | yes e ↦ rw ((itoa_loop_step fuel n 16).0 e) (omega arith)
  | no ne ↦
      let rest = itoa_loop_width k fuel (n / 16) (omega (arith, pow-suc 16 k)) in
      rw ((itoa_loop_step fuel n 16).1 ne) (omega (arith, rest))
]

All-append : (P : ℕ → Type 0) (s t : List ℕ) → All P s → All P t → All P (s ++ t)
All-append P [] t hs ht = ht
All-append P (c ∷ s) t hs ht = (hs.0, All-append P s t hs.1 ht)

All-reverse : (P : ℕ → Type 0) (s : List ℕ) → All P s → All P (reverse s)
All-reverse P [] h = tt
All-reverse P (c ∷ s) h =
    subst (All P) (sym (reverse-cons c s))
      (All-append P (reverse s) (c ∷ []) (All-reverse P s h.1) (h.0, tt))

length-reverse : (s : List ℕ) → length (reverse s) ≡ length s
length-reverse [] = refl
length-reverse (c ∷ s) =
    rw (reverse-cons c s, length-append (reverse s) (c ∷ []), length-reverse s) (omega arith)

-- The digits are characters of the radix.
pub itoa-IsDigit :
    (value radix : ℕ)
    → 2 ≤ radix
    → radix ≤ 36
    → value < 2 ^ 32
    → All (IsDigit radix) (itoa value radix)
unfolding itoa
itoa-IsDigit value radix lo hi h = elim (ℕ_discrete value 0) [
  | yes e ↦ let none : (value == 0) ≡ true = ground arith in rw none (omega arith)
  | no ne ↦
      let some_left : (value == 0) ≡ false = ground arith in
      let (low, digits) = itoa_loop_lem 33 value radix lo hi (omega arith) in
      rw (some_left, strrev-eq-reverse _ (digits_text radix _ digits))
        (All-reverse (IsDigit radix) _ digits)
]

-- A 32-bit value has at most 8 hexadecimal digits.
pub itoa_width : (value : ℕ) → value < 2 ^ 32 → length (itoa value 16) ≤ 8
unfolding itoa
itoa_width value h = elim (ℕ_discrete value 0) [
  | yes e ↦ let none : (value == 0) ≡ true = ground arith in rw none (omega arith)
  | no ne ↦
      let some_left : (value == 0) ≡ false = ground arith in
      let (low, digits) = itoa_loop_lem 33 value 16 (omega arith) (omega arith) (omega arith) in
      rw
        (
          some_left,
          strrev-eq-reverse _ (digits_text 16 _ digits),
          length-reverse (itoa_loop 33 value 16),
        )
        (itoa_loop_width 8 33 value (omega arith))
]

pub strlen-itoa :
    (value radix : ℕ)
    → 2 ≤ radix
    → radix ≤ 36
    → value < 2 ^ 32
    → strlen (itoa value radix) ≡ length (itoa value radix)
strlen-itoa value radix lo hi h =
    strlen_text (itoa value radix) (digits_text radix _ (itoa-IsDigit value radix lo hi h))
