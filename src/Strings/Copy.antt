-- ===== src/Strings/Copy.antt =====
-- `strcpy` and `strncpy` of student-distrib/lib.c: what the destination holds afterwards.
use linux_os.Prelude.{
  inl, inr, Bool-cases, ◌∙◌, ℕ, zero, suc, ◌-◌, ◌<◌, ◌≡◌, refl, ap, List, [], ◌∷◌, ◌++◌, arith,
  ◌==◌, length, replicate, drop,
}
use linux_os.Strings.{strlen, strcpy, strncpy, pad_zeros, tail_of}
use linux_os.Strings.Compare.{text}

drop-nil : (n : ℕ) → drop {A = ℕ} n [] ≡ []
drop-nil zero = refl
drop-nil (suc n) = refl

drop-tail_of : (n : ℕ) (l : List ℕ) → drop n (tail_of l) ≡ drop (suc n) l
drop-tail_of n [] = drop-nil n
drop-tail_of n (x ∷ l) = refl

-- `strcpy` into a long enough buffer stores the text and its NUL and leaves the bytes behind it.
pub strcpy_lem :
    (dest src : List ℕ)
    → strlen src < length dest
    → strcpy dest src ≡ text (strlen src) src ++ (0 ∷ drop (suc (strlen src)) dest)
unfolding strcpy text strlen
strcpy_lem [] src h = absurd (omega arith)
strcpy_lem (d ∷ dest) [] h = refl
strcpy_lem (d ∷ dest) (c ∷ src) h = elim (Bool-cases (c == 0)) [
  | inl e ↦ rw e
  | inr e ↦ rw (e, e) (ap (λ r. c ∷ r) (strcpy_lem dest src (ground arith)))
]

pad_zeros_lem : (dest : List ℕ) (n : ℕ) → pad_zeros dest n ≡ replicate n 0 ++ drop n dest
unfolding pad_zeros
pad_zeros_lem dest zero = refl
pad_zeros_lem dest (suc n) =
    ap (λ r. 0 ∷ r) (pad_zeros_lem (tail_of dest) n ∙ rw (drop-tail_of n dest))

-- `strncpy` stores the text, cut at `n` bytes, fills the rest of the `n` bytes with NULs and leaves
-- the bytes behind them; it stores no NUL where the text has `n` bytes.
pub strncpy_lem :
    (dest src : List ℕ) (n : ℕ)
    → strncpy dest src n ≡ text n src ++ (replicate (n - strlen src) 0 ++ drop n dest)
unfolding strncpy text strlen
strncpy_lem dest src zero = let none : 0 - strlen src ≡ 0 = omega arith in rw none
strncpy_lem dest [] (suc n) =
    let all : suc n - 0 ≡ suc n = omega arith in rw all (pad_zeros_lem dest (suc n))
strncpy_lem dest (c ∷ src) (suc n) = elim (Bool-cases (c == 0)) [
  | inl e ↦ let all : suc n - 0 ≡ suc n = omega arith in rw (e, all) (pad_zeros_lem dest (suc n))
  | inr e ↦
      let less : suc n - suc (strlen src) ≡ n - strlen src = omega arith in
      rw (e, less) (ap (λ r. c ∷ r) (strncpy_lem (tail_of dest) src n ∙ rw (drop-tail_of n dest)))
]
