-- ===== src/MemOps/Set.antt =====
-- `memset`, `memset_word` and `memset_dword` of student-distrib/lib.c, by the bytes that they leave.
use linux_os.Prelude.{
  ℕ, zero, suc, ◌+◌, ◌-◌, ◌*◌, ◌/◌, ◌%◌, ◌^◌, ◌<◌, ◌≡◌, ◌∙◌, ap, ◌==◌, leb, ltb, ◌&&◌,
  if◌then◌else◌, Memory, update, bit_or, arith, Bool-cases, inl, inr,
}
use linux_os.Prelude.Bits.{bit_or_flags}
use linux_os.MemOps.{
  store16, store32, rep_stosl, rep_stosw, memset_bottom, memset_aligned, memset_top, fill_word,
  memset, memset_word,
}

-- Memory in which the `n` bytes from `p` on are `b`.
abbrev pub filled : Memory → ℕ → ℕ → ℕ → Memory
filled m p n b i = if leb p i && ltb i (p + n) then b else m i

-- A register whose four bytes are `b`.
abbrev pub Repeats : ℕ → ℕ → Type 0
Repeats w b = w ≡ b * 16777216 + b * 65536 + b * 256 + b

module _ (w b : ℕ) (small : b < 256) (repeats : Repeats w b) where
  store32_lem : (m : Memory) (p i : ℕ) → store32 m p w i ≡ filled m p 4 b i
  unfolding store32 store16
  store32_lem m p i = ground arith

  rep_stosl_lem : (n : ℕ) (m : Memory) (p i : ℕ) → rep_stosl w n m p i ≡ filled m p (4 * n) b i
  unfolding rep_stosl
  rep_stosl_lem zero m p i = ground arith
  rep_stosl_lem (suc n) m p i =
      rep_stosl_lem n (store32 m p w) (p + 4) i ∙ ground (arith, store32_lem m p i)

  pub bottom_lem : (n : ℕ) (m : Memory) (p i : ℕ) → memset_bottom w n m p i ≡ filled m p n b i
  unfolding memset_bottom
  bottom_lem zero m p i = ground arith
  bottom_lem (suc n) m p i = bottom_lem n (update m p (w % 256)) (p + 1) i ∙ ground arith

  aligned_lem : (n : ℕ) (m : Memory) (p i : ℕ) → memset_aligned w n m p i ≡ filled m p n b i
  unfolding memset_aligned
  aligned_lem n m p i =
      bottom_lem (n % 4) (rep_stosl w (n / 4) m p) (p + 4 * (n / 4)) i
      ∙ ground (arith, rep_stosl_lem (n / 4) m p i)

  top_lem : (n : ℕ) (m : Memory) (p i : ℕ) → memset_top w n m p i ≡ filled m p n b i
  unfolding memset_top
  top_lem zero m p i = ground arith
  top_lem (suc n) m p i = elim (Bool-cases (p % 4 == 0)) [
    | inl whole ↦ rw whole (aligned_lem (suc n) m p i)
    | inr other ↦ rw other (top_lem n (update m p (w % 256)) (p + 1) i ∙ ground arith)
  ]

fill_word-Repeats : (c : ℕ) → c < 256 → Repeats (fill_word c) c
unfolding fill_word
fill_word-Repeats c h =
    let high = bit_or_flags 24 c (c * 2 ^ 16) (omega arith) in
    let mid = bit_or_flags 16 (c * 2 ^ 8 + c) (c * 2 ^ 8) (omega arith) in
    let low = bit_or_flags 8 (c * 2 ^ 16 + c * 2 ^ 8 + c) c h in
    let top : c * 2 ^ 24 + c * 2 ^ 16 ≡ (c * 2 ^ 8 + c) * 2 ^ 16 = omega arith in
    let next : (c * 2 ^ 8 + c) * 2 ^ 16 + c * 2 ^ 8 ≡ (c * 2 ^ 16 + c * 2 ^ 8 + c) * 2 ^ 8 =
      omega arith in
    let whole : (c * 2 ^ 16 + c * 2 ^ 8 + c) * 2 ^ 8 + c ≡ c * 16777216 + c * 65536 + c * 256 + c =
      omega arith in
    ap (λ w. bit_or (bit_or w (c * 2 ^ 8)) c) (high ∙ top)
    ∙ ap (λ w. bit_or w c) (mid ∙ next)
    ∙ low
    ∙ whole

-- `memset` sets the `n` bytes from `s` on to the low byte of `c`, at any alignment, and no others.
pub memset_lem : (m : Memory) (s c n i : ℕ) → memset m s c n i ≡ filled m s n (c % 256) i
unfolding memset
memset_lem m s c n i =
    top_lem (fill_word (c % 256)) (c % 256) (omega arith)
      (fill_word-Repeats (c % 256) (omega arith)) n m s i

-- `memset_word` stores the low 16 bits of `c` in `n` words, so it sets `2 * n` bytes.
pub memset_word_lem :
    (n : ℕ) (m : Memory) (s c i : ℕ)
    → memset_word m s c n i ≡ (
        if leb s i && ltb i (s + 2 * n)
        then (if (i - s) % 2 == 0 then c % 256 else c / 256 % 256)
        else m i)
unfolding memset_word rep_stosw
memset_word_lem zero m s c i = ground arith
memset_word_lem (suc n) m s c i =
    memset_word_lem n (store16 m s c) (s + 2) c i ∙ (unfold store16 in ground arith)
