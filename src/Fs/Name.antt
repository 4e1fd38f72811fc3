-- ===== src/Fs/Name.antt =====
-- `read_dentry_by_name` of student-distrib/fs_module.c, against the first entry of that name.
use linux_os.Prelude.{
  some_inv, ℕ, zero, suc, ◌+◌, ◌≤◌, ◌<◌, ◌≡◌, refl, ◌≢◌, ◌⊎◌, inl, inr, List, [], ◌∷◌, arith,
  Option, none, some, true, false, Memory, bytes_at, Bool-cases, ltb, ◌==◌, sym, ◌∙◌,
}
use native.Mathlib.Decide.{ℕ_discrete}
use linux_os.Prelude.Int.{is_zero}
use linux_os.Strings.{strlen, strncmp}
use linux_os.Strings.Compare.{All, IsByte, text, strncmp_iff}
use linux_os.Fs.{FileSystem, Dentry, entries, find_dentry, next_length, read_dentry_by_name}

-- An entry has a name when the names agree up to the NUL, or in all 32 bytes where there is none.
abbrev pub HasName : FileSystem → List ℕ → ℕ → Type 0
HasName fs fname i = text 32 (entries fs i).name ≡ text 32 fname

-- The first entry of that name among those from `i` up to `j`, or none of them has it.
abbrev pub IsFirst : FileSystem → List ℕ → ℕ → ℕ → Option Dentry → Type 0
IsFirst fs fname i j none = (k : ℕ) → i ≤ k → k < j → ¬ HasName fs fname k
IsFirst fs fname i j (some d) =
    (k : ℕ) × (i ≤ k)
    × (k < j)
    × (d ≡ entries fs k)
    × HasName fs fname k
    × ((l : ℕ) → i ≤ l → l < k → ¬ HasName fs fname l)

-- Memory holds bytes.
abbrev pub IsMemory : Memory → Type 0
IsMemory m = (p : ℕ) → m p < 256

bytes_at-All : (m : Memory) (p n : ℕ) → IsMemory m → All IsByte (bytes_at m p n)
unfolding bytes_at
bytes_at-All m p zero h = tt
bytes_at-All m p (suc n) h = (h p, bytes_at-All m (p + 1) n h)

-- Texts that agree up to `k` agree up to fewer bytes.
text-cut : (n k : ℕ) (s t : List ℕ) → n ≤ k → text k s ≡ text k t → text n s ≡ text n t
unfolding text
text-cut zero k s t h e = refl
text-cut (suc n) zero s t h e = absurd (omega arith)
text-cut (suc n) (suc k) [] [] h e = refl
text-cut (suc n) (suc k) [] (d ∷ t) h e = ground arith
text-cut (suc n) (suc k) (c ∷ s) [] h e = ground arith
text-cut (suc n) (suc k) (c ∷ s) (d ∷ t) h e = ground (arith, text-cut n k s t)

-- Texts that agree beyond the end of the one agree for good.
text-widen :
    (n k : ℕ) (s t : List ℕ) → strlen t < n → n ≤ k → text n s ≡ text n t → text k s ≡ text k t
unfolding text strlen
text-widen zero k s t l h e = absurd (omega arith)
text-widen (suc n) zero s t l h e = absurd (omega arith)
text-widen (suc n) (suc k) [] [] l h e = refl
text-widen (suc n) (suc k) [] (d ∷ t) l h e = ground arith
text-widen (suc n) (suc k) (c ∷ s) [] l h e = ground arith
text-widen (suc n) (suc k) (c ∷ s) (d ∷ t) l h e = ground (arith, text-widen n k s t)

module _ (fs : FileSystem) (fname : List ℕ) (m : IsMemory fs.mem) (b : All IsByte fname) where
  -- Comparing one byte more than the name has, or 32, decides on the name.
  compare-HasName :
      (i len : ℕ)
      → len ≤ 32
      → (strlen fname < len) ⊎ (len ≡ 32)
      → is_zero (strncmp fname (entries fs i).name len) ≡ true
      → HasName fs fname i
  unfolding entries
  compare-HasName i len h g e =
      let same = (strncmp_iff len fname _ b (bytes_at-All fs.mem _ 32 m)).0 e in
      elim g [ inl lt ↦ text-widen len 32 _ _ lt h (sym same) | inr eq ↦ rw eq at (sym same) ]

  HasName-compare :
      (i len : ℕ)
      → len ≤ 32
      → is_zero (strncmp fname (entries fs i).name len) ≡ false
      → ¬ HasName fs fname i
  unfolding entries
  HasName-compare i len h e has =
      let same =
        (strncmp_iff len fname _ b (bytes_at-All fs.mem _ 32 m)).1
          (sym (text-cut len 32 _ _ h has)) in
      cc (e, same)

  next_length_lem :
      (len : ℕ)
      → len ≤ 32
      → strlen fname ≤ len
      → (next_length len ≤ 32)
        × (strlen fname ≤ next_length len)
        × ((strlen fname < next_length len) ⊎ (next_length len ≡ 32))
  unfolding next_length
  next_length_lem len h g = ground arith

  IsFirst-extend :
      (i j : ℕ) (r : Option Dentry)
      → ¬ HasName fs fname i
      → IsFirst fs fname (i + 1) j r
      → IsFirst fs fname i j r
  IsFirst-extend i j none h f = λ k lo hi has. elim (ℕ_discrete i k) [
    | yes e ↦ h (rw e has)
    | no ne ↦ f k (omega arith) hi has
  ]
  IsFirst-extend i j (some d) h (k, lo, hi, e, has, before) = (
    k,
    omega arith,
    hi,
    e,
    has,
    λ l lo' hi' has'. elim (ℕ_discrete i l) [
      | yes e ↦ h (rw e has')
      | no ne ↦ before l (omega arith) hi' has'
    ],
  )

  find_dentry_step :
      (n i len : ℕ)
      → (is_zero (strncmp fname (entries fs i).name (next_length len)) ≡ true
          → find_dentry fs fname (suc n) i len ≡ some (entries fs i))
        × (is_zero (strncmp fname (entries fs i).name (next_length len)) ≡ false
            → find_dentry fs fname (suc n) i len ≡ find_dentry fs fname n (i + 1) (next_length len))
  unfolding find_dentry
  find_dentry_step n i len = ((λ e. rw e), (λ e. rw e))

  find_dentry_none : (i len : ℕ) → find_dentry fs fname 0 i len ≡ none
  unfolding find_dentry
  find_dentry_none i len = refl

  find_dentry-IsFirst :
      (n i len j : ℕ)
      → i + n ≡ j
      → len ≤ 32
      → strlen fname ≤ len
      → IsFirst fs fname i j (find_dentry fs fname n i len)
  find_dentry-IsFirst zero i len j e h g = rw find_dentry_none (λ k lo hi has. absurd (omega arith))
  find_dentry-IsFirst (suc n) i len j e h g =
      let (h', g', decided) = next_length_lem len h g in
      elim (Bool-cases (is_zero (strncmp fname (entries fs i).name (next_length len)))) [
        | inl same ↦ rw ((find_dentry_step n i len).0 same) (
          i,
          omega arith,
          omega arith,
          refl,
          compare-HasName i (next_length len) h' decided same,
          λ l lo hi has. absurd (omega arith),
        )
        | inr other ↦ rw ((find_dentry_step n i len).1 other) (
            IsFirst-extend i j _ (HasName-compare i (next_length len) h' other)
              (find_dentry-IsFirst n (i + 1) (next_length len) j (omega arith) h' g'))
      ]

  -- For a name of at most 32 characters, over a memory of bytes, `read_dentry_by_name` returns the
  -- first of the 63 directory entries that has the name, and fails only when none has it.
  pub read_dentry_by_name-IsFirst :
      (dentry : ℕ)
      → strlen fname ≤ 32
      → dentry ≢ 0
      → IsFirst fs fname 0 63 (read_dentry_by_name fs fname dentry)
  unfolding read_dentry_by_name
  read_dentry_by_name-IsFirst dentry h d =
      let short : ltb 32 (strlen fname) ≡ false = ground arith in
      let given : (dentry == 0) ≡ false = ground arith in
      rw (short, given) (find_dentry-IsFirst 63 0 (strlen fname) 63 refl h (omega arith))

-- A name of more than 32 characters and a NULL `dentry` are refused whatever the directory holds.
pub read_dentry_by_name_refused :
    (fs : FileSystem) (fname : List ℕ) (dentry : ℕ)
    → (32 < strlen fname) ⊎ (dentry ≡ 0)
    → read_dentry_by_name fs fname dentry ≡ none
unfolding read_dentry_by_name
read_dentry_by_name_refused fs fname dentry h = ground arith

find_dentry_entry :
    (fs : FileSystem) (fname : List ℕ) (n i len : ℕ) (d : Dentry)
    → find_dentry fs fname n i len ≡ some d
    → (j : ℕ) × (i ≤ j) × (j < i + n) × (d ≡ entries fs j)
find_dentry_entry fs fname zero i len d e = unfold find_dentry in cc
find_dentry_entry fs fname (suc n) i len d e =
    elim (Bool-cases (is_zero (strncmp fname (entries fs i).name (next_length len)))) [
      | inl same ↦
          let first : find_dentry fs fname (suc n) i len ≡ some (entries fs i) =
            unfold find_dentry in rw same in
          (i, omega arith, omega arith, sym (some_inv _ _ (sym first ∙ e)))
      | inr other ↦
          let later : find_dentry fs fname (suc n) i len
              ≡ find_dentry fs fname n (i + 1) (next_length len) =
            unfold find_dentry in rw other in
          let (j, lo, hi, at) =
            find_dentry_entry fs fname n (i + 1) (next_length len) d (sym later ∙ e) in
          (j, omega arith, omega arith, at)
    ]

-- What `read_dentry_by_name` finds is one of the 63 entries.
pub read_dentry_by_name_entry :
    (fs : FileSystem) (fname : List ℕ) (dentry : ℕ) (d : Dentry)
    → read_dentry_by_name fs fname dentry ≡ some d
    → (j : ℕ) × (j < 63) × (d ≡ entries fs j)
read_dentry_by_name_entry fs fname dentry d e =
    let (j, lo, hi, at) =
      find_dentry_entry fs fname 63 0 (strlen fname) d
        (unfold read_dentry_by_name in ground arith) in
    (j, hi, at)
