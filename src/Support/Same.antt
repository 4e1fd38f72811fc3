-- ===== src/Support/Same.antt =====
-- The user library's strings against those of the kernel, and against texts.
use linux_os.Prelude.{
  ℕ, zero, suc, ◌+◌, ◌-◌, ◌/◌, ◌<◌, ◌≡◌, sym, refl, ◌↔◌, true, false, List, [], ◌∷◌, ◌==◌, ltb,
  if◌then◌else◌, arith, Bool-cases, inl, inr,
}
use linux_os.Prelude.Int.{pos, is_zero}
use linux_os.Strings.{strlen, strncmp, strrev, swap_ends, itoa, itoa_loop, lookup}
use linux_os.Strings.Compare.{All, text}
use linux_os.Support.{
  ece391_strlen, ece391_strcmp, ece391_strncmp, swap_from, ece391_strrev, digit_at, place_digits,
  ece391_itoa,
}

pub strlen-same : (s : List ℕ) → ece391_strlen s ≡ strlen s
unfolding ece391_strlen strlen
strlen-same [] = refl
strlen-same (c ∷ s) = rw (strlen-same s) refl

-- A character of ASCII.
abbrev pub IsAscii : ℕ → Type 0
IsAscii c = c < 128

strncmp-zero : (s1 s2 : List ℕ) → (ece391_strncmp s1 s2 0 ≡ pos 0) × (strncmp s1 s2 0 ≡ pos 0)
unfolding ece391_strncmp strncmp
strncmp-zero s1 s2 = (refl, refl)

-- On ASCII strings `ece391_strncmp` gives the same number as the kernel's `strncmp`; on other bytes
-- the kernel's characters are negative.
pub strncmp-same :
    (n : ℕ) (s1 s2 : List ℕ)
    → All IsAscii s1
    → All IsAscii s2
    → ece391_strncmp s1 s2 n ≡ strncmp s1 s2 n
unfolding ece391_strncmp strncmp
strncmp-same zero s1 s2 h1 h2 = refl
strncmp-same (suc n) [] [] h1 h2 = ground (arith, strncmp-same n [] [] h1 h2)
strncmp-same (suc n) [] (d ∷ s2) h1 h2 = ground (arith, strncmp-same n [] s2 tt h2.1)
strncmp-same (suc n) (c ∷ s1) [] h1 h2 = ground (arith, strncmp-same n s1 [] h1.1 tt)
strncmp-same (suc n) (c ∷ s1) (d ∷ s2) h1 h2 =
    ground (arith, strncmp-same n s1 s2 h1.1 h2.1, strncmp-zero s1 s2)

-- `ece391_strcmp` is 0 exactly for strings with the same text: the texts are cut behind the first
-- string's NUL, where a longer second string still differs.
pub strcmp_iff :
    (n : ℕ) (s1 s2 : List ℕ)
    → strlen s1 < n
    → (is_zero (ece391_strcmp s1 s2) ≡ true) ↔ (text n s1 ≡ text n s2)
unfolding ece391_strcmp text strlen
strcmp_iff zero s1 s2 h = absurd (omega arith)
strcmp_iff (suc n) [] [] h = (ground arith, ground arith)
strcmp_iff (suc n) [] (d ∷ s2) h = (ground arith, ground arith)
strcmp_iff (suc n) (c ∷ s1) [] h = (ground arith, ground arith)
strcmp_iff (suc n) (c ∷ s1) (d ∷ s2) h = elim (Bool-cases (c == 0)) [
  | inl end ↦ (ground arith, ground arith)
  | inr more ↦
      let ih = strcmp_iff n s1 s2 (ground arith) in (ground (arith, ih.0), ground (arith, ih.1))
]

place_digits-same : (fuel n radix : ℕ) → place_digits fuel n radix ≡ itoa_loop fuel n radix
unfolding place_digits itoa_loop digit_at lookup
place_digits-same zero n radix = refl
place_digits-same (suc fuel) n radix = rw (place_digits-same fuel (n / radix) radix) refl

swap_from-same :
    (rounds : ℕ) (s : List ℕ) (beg end : ℕ)
    → swap_from rounds s beg end ≡ swap_ends rounds s beg end
unfolding swap_from swap_ends
swap_from-same zero s beg end = refl
swap_from-same (suc rounds) s beg end = rw (swap_from-same rounds _ (beg + 1) (end - 1)) refl

pub strrev-same : (s : List ℕ) → ece391_strrev s ≡ strrev s
unfolding ece391_strrev strrev
strrev-same s = rw (strlen-same s, swap_from-same (strlen s) s 0 (strlen s - 1)) (by_length _ refl)
  where
    one : swap_ends 1 s 0 0 ≡ s
    one = unfold swap_ends in refl

    by_length :
        (n : ℕ)
        → strlen s ≡ n
        → (if ltb (strlen s) 2 then s else swap_ends (strlen s) s 0 (strlen s - 1))
          ≡ (if strlen s == 0 then s else swap_ends (strlen s) s 0 (strlen s - 1))
    by_length zero e = rw e refl
    by_length (suc zero) e = rw e (sym one)
    by_length (suc (suc n)) e =
        let long : ltb (strlen s) 2 ≡ false = ground arith in
        let some_left : (strlen s == 0) ≡ false = ground arith in rw (long, some_left) refl

-- `ece391_itoa` gives the same digits as the kernel's `itoa`, for every value and radix.
pub itoa-same : (value radix : ℕ) → ece391_itoa value radix ≡ itoa value radix
unfolding ece391_itoa itoa
itoa-same value radix = rw (place_digits-same 33 value radix, strrev-same _) refl
