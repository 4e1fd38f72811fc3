-- ===== src/Grep/Match.antt =====
-- When syscalls/ece391grep.c finds its pattern in a line.
use linux_os.Prelude.{
  ℕ, ◌<◌, ◌≡◌, refl, Bool, true, false, List, [], ◌∷◌, ◌++◌, ◌==◌, ◌&&◌, ◌||◌, arith, length,
}
use linux_os.Prelude.Int.{is_zero}
use linux_os.Support.{ece391_strncmp}
use linux_os.Support.Text.{IsText, strlen_text}
use linux_os.Grep.{found}

-- The line starts with the pattern, and the pattern occurs in the line.
abbrev pub starts : List ℕ → List ℕ → Bool
starts [] line = true
starts (c ∷ pattern) [] = false
starts (c ∷ pattern) (d ∷ line) = (c == d) && starts pattern line

unfoldable pub occurs : List ℕ → List ℕ → Bool
occurs pattern [] = false
occurs pattern (d ∷ line) = starts pattern (d ∷ line) || occurs pattern line

strncmp-starts :
    (pattern line rest : List ℕ)
    → IsText pattern
    → IsText line
    → is_zero (ece391_strncmp (line ++ (0 ∷ rest)) pattern (length pattern)) ≡ starts pattern line
unfolding ece391_strncmp
strncmp-starts [] line rest p l = refl
strncmp-starts (c ∷ pattern) [] rest p l = ground arith
strncmp-starts (c ∷ []) (d ∷ line) rest p l = ground arith
strncmp-starts (c ∷ (e ∷ pattern)) (d ∷ line) rest p l =
    ground (arith, strncmp-starts (e ∷ pattern) line rest p.1 l.1)

-- The loop over the line decides whether the pattern occurs.
pub found-occurs :
    (pattern line rest : List ℕ)
    → IsText pattern
    → 0 < length pattern
    → IsText line
    → found pattern (length line) (line ++ (0 ∷ rest)) ≡ occurs pattern line
unfolding found occurs
found-occurs pattern [] rest p some_pattern l = refl
found-occurs [] (d ∷ line) rest p some_pattern l = absurd (omega arith)
found-occurs (c ∷ pattern) (d ∷ line) rest p some_pattern l =
    let same = strncmp-starts (c ∷ pattern) (d ∷ line) rest p l in
    let ih = found-occurs (c ∷ pattern) line rest p some_pattern l.1 in
    rw (strlen_text (c ∷ pattern) p, same, ih) (ground arith)
