-- ===== src/Strings/Compare.antt =====
-- What `strlen` and `strncmp` of student-distrib/lib.c decide, against the text of a string.
use linux_os.Prelude.{
  ℕ, zero, suc, ◌≤◌, ◌<◌, ◌≡◌, refl, ◌↔◌, Bool, true, List, [], ◌∷◌, ◌==◌, if◌then◌else◌, arith,
  min, length,
}
use linux_os.Prelude.Int.{is_zero}
use linux_os.Strings.{strlen, strncmp}

abbrev pub All {ℓ κ} : {A : Type ℓ} → (A → Type κ) → List A → Type κ
All P [] = Unit
All P (x ∷ xs) = P x × All P xs

-- The bytes before the first NUL, `n` of them at most.
unfoldable pub text : ℕ → List ℕ → List ℕ
text zero s = []
text (suc n) [] = []
text (suc n) (c ∷ s) = if c == 0 then [] else c ∷ text n s

abbrev pub IsByte : ℕ → Type 0
IsByte c = c < 256

abbrev same : List ℕ → List ℕ → ℕ → Bool
same s1 s2 n = is_zero (strncmp s1 s2 n)

pub length-text : (n : ℕ) (s : List ℕ) → length (text n s) ≡ min n (strlen s)
unfolding text strlen
length-text zero s = omega arith
length-text (suc n) [] = omega arith
length-text (suc n) (c ∷ s) = ground (arith, length-text n s)

-- Beyond the end of the string the bound has no effect.
pub text_stop : (n k : ℕ) (s : List ℕ) → strlen s ≤ n → n ≤ k → text k s ≡ text n s
unfolding text strlen
text_stop zero zero s h g = refl
text_stop zero (suc k) [] h g = refl
text_stop zero (suc k) (c ∷ s) h g = ground arith
text_stop (suc n) zero s h g = absurd (omega arith)
text_stop (suc n) (suc k) [] h g = refl
text_stop (suc n) (suc k) (c ∷ s) h g = ground (arith, text_stop n k s)

-- `strncmp` returns 0 exactly when the two strings have the same first `n` characters.
pub strncmp_iff :
    (n : ℕ) (s1 s2 : List ℕ)
    → All IsByte s1
    → All IsByte s2
    → (is_zero (strncmp s1 s2 n) ≡ true) ↔ (text n s1 ≡ text n s2)
unfolding strncmp text
strncmp_iff zero s1 s2 b1 b2 = ((λ _. refl), (λ _. refl))
strncmp_iff (suc n) [] [] b1 b2 = (ground arith, ground arith)
strncmp_iff (suc n) [] (d ∷ s2) b1 b2 = (ground arith, ground arith)
strncmp_iff (suc n) (c ∷ s1) [] b1 b2 = (ground arith, ground arith)
strncmp_iff (suc n) (c ∷ s1) (d ∷ s2) b1 b2 =
    let ih = strncmp_iff n s1 s2 b1.1 b2.1 in (ground (arith, ih.0), ground (arith, ih.1))
