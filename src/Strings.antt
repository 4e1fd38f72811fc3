-- ===== src/Strings.antt =====
-- The string routines of student-distrib/lib.c: strlen, strncmp, strcpy, strncpy, strrev, itoa.
-- A `char*` that is read is the list of the bytes from the pointer on; reading past the list gives
-- NUL, so a list stands for a string that is terminated at its first zero or at its end.
pub mod Compare
pub mod Copy
pub mod Reverse
pub mod Digits
pub mod Width
use linux_os.Prelude.{
  ℕ, zero, suc, ◌+◌, ◌-◌, ◌/◌, ◌%◌, Bool, true, false, not, ◌||◌, List, [], ◌∷◌, ◌++◌, ◌==◌, ltb,
  if◌then◌else◌, get_or, set, drop,
}
use linux_os.Prelude.Int.{ℤ, pos, ◌-ℤ◌, signed8}

-- The byte at the pointer, and the pointer moved on by one.
abbrev pub head_or : List ℕ → ℕ
head_or [] = 0
head_or (c ∷ s) = c

abbrev pub tail_of : List ℕ → List ℕ
tail_of [] = []
tail_of (c ∷ s) = s

unfoldable pub strlen : List ℕ → ℕ
strlen [] = 0
strlen (c ∷ s) = let rest = strlen s in if c == 0 then 0 else suc rest

-- The loop runs on the bytes that are left to compare; `char` is signed.
unfoldable pub strncmp : List ℕ → List ℕ → ℕ → ℤ
strncmp s1 s2 zero = pos 0
strncmp s1 s2 (suc n) =
    let rest = strncmp (tail_of s1) (tail_of s2) n in
    if not (head_or s1 == head_or s2) || head_or s1 == 0
    then signed8 (head_or s1) -ℤ signed8 (head_or s2)
    else rest

-- What the buffer at `dest` holds afterwards; `dest` is long enough where its list is.
unfoldable pub strcpy : List ℕ → List ℕ → List ℕ
strcpy dest [] = set dest 0 0
strcpy dest (c ∷ src) =
    let rest = strcpy (tail_of dest) src in if c == 0 then set dest 0 0 else c ∷ rest

-- The second loop of `strncpy`: zeros up to the count.
unfoldable pub pad_zeros : List ℕ → ℕ → List ℕ
pad_zeros dest zero = dest
pad_zeros dest (suc n) = 0 ∷ pad_zeros (tail_of dest) n

unfoldable pub strncpy : List ℕ → List ℕ → ℕ → List ℕ
unfolding pad_zeros
strncpy dest src zero = dest
strncpy dest src (suc n) =
    let rest = strncpy (tail_of dest) (tail_of src) n in
    if head_or src == 0 then pad_zeros dest (suc n) else head_or src ∷ rest

-- The loop of `strrev`: `rounds` bounds the swaps, `beg` and `end` are the two indices.
unfoldable pub swap_ends : ℕ → List ℕ → ℕ → ℕ → List ℕ
swap_ends zero s beg end = s
swap_ends (suc rounds) s beg end =
    let rest =
      swap_ends rounds (set (set s end (get_or s beg 0)) beg (get_or s end 0)) (beg + 1)
        (end - 1) in
    if ltb beg end then rest else s

-- `end` starts at `strlen(s) - 1`; for the empty string that is -1, and the loop does not run.
unfoldable pub strrev : List ℕ → List ℕ
strrev s = if strlen s == 0 then s else swap_ends (strlen s) s 0 (strlen s - 1)

-- The digit characters "0123456789ABCDEFGHIJKLMNOPQRSTUVWXYZ".
unfoldable pub lookup : ℕ → ℕ
lookup i = if ltb i 10 then 48 + i else 55 + i

-- The loop of `itoa`, lowest digit first; `fuel` is above the number of digits.
unfoldable pub itoa_loop : ℕ → ℕ → ℕ → List ℕ
unfolding lookup
itoa_loop zero newval radix = []
itoa_loop (suc fuel) newval radix =
    let rest = itoa_loop fuel (newval / radix) radix in
    if newval == 0 then [] else lookup (newval % radix) ∷ rest

-- The string that `buf` holds, without its NUL. A 32-bit value has at most 32 digits.
unfoldable pub itoa : ℕ → ℕ → List ℕ
itoa value radix = if value == 0 then 48 ∷ [] else strrev (itoa_loop 33 value radix)
