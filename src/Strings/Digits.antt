-- ===== src/Strings/Digits.antt =====
-- `itoa` of student-distrib/lib.c: its digits read back give the number.
use linux_os.Prelude.{
  ℕ, zero, suc, ◌+◌, ◌-◌, ◌*◌, ◌/◌, ◌%◌, ◌^◌, ◌≤◌, ◌<◌, ◌≡◌, refl, ◌≢◌, sym, List, [], ◌∷◌, ◌++◌,
  arith, reverse, ltb, ◌==◌, if◌then◌else◌, true, false,
}
use mathlib.Core.Path.{subst}
use native.Mathlib.Nat.{mul-le-mul_right, div-add-mod, mod-lt, pow-suc}
use native.Mathlib.Decide.{ℕ_discrete}
use mathlib.Core.List.{reverse-cons}
use linux_os.Strings.{lookup, itoa_loop, itoa}
use linux_os.Strings.Compare.{All}
use linux_os.Strings.Reverse.{strrev-eq-reverse}

-- The value of a digit character.
abbrev pub digit_of : ℕ → ℕ
digit_of c = if ltb c 58 then c - 48 else c - 55

-- A number read from its digits, the highest first.
unfoldable pub parse : ℕ → ℕ → List ℕ → ℕ
parse radix acc [] = acc
parse radix acc (c ∷ s) = parse radix (acc * radix + digit_of c) s

-- A digit character of the radix.
abbrev pub IsDigit : ℕ → ℕ → Type 0
IsDigit radix c = (48 ≤ c) × (c ≤ 90) × (digit_of c < radix)

pub low_value : ℕ → List ℕ → ℕ
low_value radix [] = 0
low_value radix (c ∷ s) = digit_of c + radix * low_value radix s

digit_of-lookup : (i : ℕ) → i < 36 → digit_of (lookup i) ≡ i
unfolding lookup
digit_of-lookup i h = ground arith

parse-append :
    (radix acc : ℕ) (s t : List ℕ) → parse radix acc (s ++ t) ≡ parse radix (parse radix acc s) t
unfolding parse
parse-append radix acc [] t = refl
parse-append radix acc (c ∷ s) t = parse-append radix (acc * radix + digit_of c) s t

parse-reverse : (radix : ℕ) (s : List ℕ) → parse radix 0 (reverse s) ≡ low_value radix s
unfolding low_value
parse-reverse radix [] = unfold parse in refl
parse-reverse radix (c ∷ s) =
    rw (reverse-cons c s, parse-append radix 0 (reverse s) (c ∷ []), parse-reverse radix s)
      (unfold parse in grind arith)

div-lt : (n r k : ℕ) → 2 ≤ r → n < k * 2 → n / r < k
div-lt n r k h g = omega (arith, grown, div-add-mod n r)
  where
    grown : 2 * (n / r) ≤ r * (n / r)
    grown = mul-le-mul_right (n / r) h

digit_lem :
    (n radix : ℕ)
    → 2 ≤ radix
    → radix ≤ 36
    → (digit_of (lookup (n % radix)) ≡ n % radix) × IsDigit radix (lookup (n % radix))
unfolding lookup
digit_lem n radix lo hi =
    let below = mod-lt n {m = radix} (omega arith) in
    (ground (arith, below), (ground (arith, below), ground (arith, below), ground (arith, below)))

pub itoa_loop_step :
    (f n radix : ℕ)
    → (n ≡ 0 → itoa_loop (suc f) n radix ≡ [])
      × (n ≢ 0 → itoa_loop (suc f) n radix ≡ lookup (n % radix) ∷ itoa_loop f (n / radix) radix)
unfolding itoa_loop
itoa_loop_step f n radix = (ground arith, ground arith)

pub itoa_loop_lem :
    (fuel n radix : ℕ)
    → 2 ≤ radix
    → radix ≤ 36
    → n < 2 ^ fuel
    → (low_value radix (itoa_loop fuel n radix) ≡ n) × All (IsDigit radix) (itoa_loop fuel n radix)
unfolding low_value
itoa_loop_lem zero n radix lo hi h = unfold itoa_loop in (omega arith, tt)
itoa_loop_lem (suc f) n radix lo hi h = elim (ℕ_discrete n 0) [
  | yes e ↦ rw ((itoa_loop_step f n radix).0 e) (sym e, tt)
  | no ne ↦
      let (value, digits) =
        itoa_loop_lem f (n / radix) radix lo hi
          (div-lt n radix (2 ^ f) lo (omega (arith, pow-suc 2 f))) in
      let (digit, shape) = digit_lem n radix lo hi in
      let step = (itoa_loop_step f n radix).1 ne in
      (
        rw (step, digit, value) (omega (arith, div-add-mod n radix)),
        subst (All (IsDigit radix)) (sym step) (shape, digits),
      )
]

pub digits_text : (radix : ℕ) (s : List ℕ) → All (IsDigit radix) s → All (λ c. c ≢ 0) s
digits_text radix [] h = tt
digits_text radix (c ∷ s) h = (omega arith, digits_text radix s h.1)

-- For a radix from 2 to 36 and a 32-bit value the digits of `itoa`, read from the first to the last,
-- give the value.
pub itoa-parse :
    (value radix : ℕ)
    → 2 ≤ radix
    → radix ≤ 36
    → value < 2 ^ 32
    → parse radix 0 (itoa value radix) ≡ value
unfolding itoa
itoa-parse value radix lo hi h = elim (ℕ_discrete value 0) [
  | yes e ↦ let zero : (value == 0) ≡ true = ground arith in rw zero (unfold parse in omega arith)
  | no ne ↦
      let more : (value == 0) ≡ false = ground arith in
      let (low, digits) = itoa_loop_lem 33 value radix lo hi (omega arith) in
      rw (more, strrev-eq-reverse _ (digits_text radix _ digits), parse-reverse radix) low
]
