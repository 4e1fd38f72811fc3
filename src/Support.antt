-- ===== src/Support.antt =====
-- The library of the user programs, syscalls/ece391support.c. Strings are lists of bytes as in
-- Strings.antt.
pub mod Same
pub mod Text
use linux_os.Prelude.{
  ℕ, zero, suc, ◌+◌, ◌-◌, ◌/◌, ◌%◌, Bool, List, [], ◌∷◌, ◌==◌, ltb, ◌||◌, if◌then◌else◌, get_or,
  set,
}
use linux_os.Prelude.Int.{ℤ, pos, ◌-ℤ◌}
use linux_os.Strings.{head_or, tail_of}

unfoldable pub ece391_strlen : List ℕ → ℕ
ece391_strlen [] = 0
ece391_strlen (c ∷ s) = let len = ece391_strlen s in if c == 0 then 0 else suc len

-- What the buffer at `dst` holds afterwards; `dst` is long enough where its list is.
unfoldable pub ece391_strcpy : List ℕ → List ℕ → List ℕ
ece391_strcpy dst [] = set dst 0 0
ece391_strcpy dst (c ∷ src) =
    let rest = ece391_strcpy (tail_of dst) src in if c == 0 then set dst 0 0 else c ∷ rest

-- Bytes are unsigned here.
unfoldable pub ece391_strcmp : List ℕ → List ℕ → ℤ
ece391_strcmp [] s2 = if head_or s2 == 0 then pos 0 else pos 0 -ℤ pos (head_or s2)
ece391_strcmp (c ∷ s1) s2 =
    let rest = ece391_strcmp s1 (tail_of s2) in
    if c == head_or s2 then (if c == 0 then pos 0 else rest) else pos c -ℤ pos (head_or s2)

unfoldable pub ece391_strncmp : List ℕ → List ℕ → ℕ → ℤ
ece391_strncmp s1 s2 zero = pos 0
ece391_strncmp s1 s2 (suc n) =
    let rest = ece391_strncmp (tail_of s1) (tail_of s2) n in
    if head_or s1 == head_or s2
    then (if head_or s1 == 0 || n == 0 then pos 0 else rest)
    else pos (head_or s1) -ℤ pos (head_or s2)

-- The loop of `ece391_strrev`: `rounds` bounds the swaps.
unfoldable pub swap_from : ℕ → List ℕ → ℕ → ℕ → List ℕ
swap_from zero s beg end = s
swap_from (suc rounds) s beg end =
    let tmp = get_or s end 0 in
    let rest = swap_from rounds (set (set s end (get_or s beg 0)) beg tmp) (beg + 1) (end - 1) in
    if ltb beg end then rest else s

-- `end <= 0` is a string of at most one character.
unfoldable pub ece391_strrev : List ℕ → List ℕ
ece391_strrev s =
    if ltb (ece391_strlen s) 2 then s else swap_from (ece391_strlen s) s 0 (ece391_strlen s - 1)

-- The digit characters "0123456789ABCDEFGHIJKLMNOPQRSTUVWXYZ".
unfoldable pub digit_at : ℕ → ℕ
digit_at i = if ltb i 10 then 48 + i else 55 + i

-- The loop of `ece391_itoa`, lowest digit first; `fuel` is above the number of digits.
unfoldable pub place_digits : ℕ → ℕ → ℕ → List ℕ
unfolding digit_at
place_digits zero newval radix = []
place_digits (suc fuel) newval radix =
    let rest = place_digits fuel (newval / radix) radix in
    if newval == 0 then [] else digit_at (newval % radix) ∷ rest

-- The string that `buf` holds, without its NUL. A 32-bit value has at most 32 digits.
unfoldable pub ece391_itoa : ℕ → ℕ → List ℕ
ece391_itoa value radix =
    if value == 0 then 48 ∷ [] else ece391_strrev (place_digits 33 value radix)
