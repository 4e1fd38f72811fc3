-- ===== src/Support/Text.antt =====
-- The length that `ece391_strlen` of syscalls/ece391support.c gives of a text.
use linux_os.Prelude.{ℕ, ◌≤◌, ◌≡◌, ◌≢◌, refl, ap, List, [], ◌∷◌, arith, length, take}
use linux_os.Strings.Compare.{All}
use linux_os.Support.{ece391_strlen}

-- A string without a NUL inside.
abbrev pub IsText : List ℕ → Type 0
IsText = All (λ c. c ≢ 0)

pub strlen_text : (s : List ℕ) → IsText s → ece391_strlen s ≡ length s
unfolding ece391_strlen
strlen_text [] h = refl
strlen_text (c ∷ s) h = ground (arith, strlen_text s h.1)

pub strlen_small : (s : List ℕ) → ece391_strlen s ≤ length s
unfolding ece391_strlen
strlen_small [] = omega arith
strlen_small (c ∷ s) = ground (arith, strlen_small s)

pub take_all : (s : List ℕ) → take (length s) s ≡ s
take_all [] = refl
take_all (c ∷ s) = ap (λ r. c ∷ r) (take_all s)
