-- ===== src/MemOps/Copy.antt =====
-- `memcpy` and `memmove` of student-distrib/lib.c, against one copy of the range.
use mathlib.Core.Path.{fun_ext}
use linux_os.Prelude.{
  ℕ, zero, suc, ◌+◌, ◌-◌, ◌*◌, ◌/◌, ◌%◌, ◌<◌, ◌≤◌, ◌≡◌, ◌⊎◌, ◌∙◌, ap, refl, sym, ◌↔◌, true, false,
  ◌==◌, leb, ltb, ◌&&◌, if◌then◌else◌, Memory, update, arith, Bool-cases, inl, inr,
}
use linux_os.MemOps.{
  move32, rep_movsl, memcpy_bottom, memcpy_aligned, memcpy_top, memcpy, rep_movsb_down, memmove,
}

-- Memory in which the `n` bytes from `d` on are those that `m` has from `s` on.
abbrev pub moved : Memory → ℕ → ℕ → ℕ → Memory
moved m d s n i = if leb d i && ltb i (d + n) then m (i - d + s) else m i

-- An upward copy reads no byte that it has written.
abbrev pub Upward : ℕ → ℕ → ℕ → Type 0
Upward d s n = (d ≤ s) ⊎ (s + n ≤ d)

-- Two copies of adjacent ranges are one.
moved-moved :
    (m : Memory) (d s k n i : ℕ)
    → Upward d s (k + n)
    → moved (moved m d s k) (d + k) (s + k) n i ≡ moved m d s (k + n) i
moved-moved m d s k n i clear = elim (Bool-cases (leb (d + k) i && ltb i (d + k + n))) [
  | inl later ↦
      let from : i - (d + k) + (s + k) ≡ i - d + s = ground arith in
      let fresh : (leb d (i - d + s) && ltb (i - d + s) (d + k)) ≡ false = ground arith in
      let all : (leb d i && ltb i (d + (k + n))) ≡ true = ground arith in
      rw (later, from, fresh, all) refl
  | inr other ↦ rw other (ground arith)
]

-- A step of a copy that moves `k` bytes.
abbrev IsMove : ℕ → (Memory → ℕ → ℕ → Memory) → Type 0
IsMove k f = (m : Memory) (d s i : ℕ) → Upward d s k → f m d s i ≡ moved m d s k i

moved-ext :
    (m m' : Memory) (d s n i : ℕ) → ((j : ℕ) → m j ≡ m' j) → moved m d s n i ≡ moved m' d s n i
moved-ext m m' d s n i same = ap (λ f. moved f d s n i) (fun_ext same)

shorter : (d s k n : ℕ) → Upward d s (k + n) → Upward d s k × Upward (d + k) (s + k) n
shorter d s k n (inl up) = (inl up, inl (omega arith))
shorter d s k n (inr apart) = (inr (omega arith), inr (omega arith))

-- A step and then the rest.
after_step :
    (m m' : Memory) (d s k n i : ℕ)
    → Upward d s (k + n)
    → ((j : ℕ) → m' j ≡ moved m d s k j)
    → moved m' (d + k) (s + k) n i ≡ moved m d s (k + n) i
after_step m m' d s k n i clear step =
    moved-ext m' (moved m d s k) (d + k) (s + k) n i step ∙ moved-moved m d s k n i clear

byte_lem : (m : Memory) (d s i : ℕ) → update m d (m s) i ≡ moved m d s 1 i
byte_lem m d s i = elim (Bool-cases (i == d)) [
  | inl here ↦
      let all : (leb d i && ltb i (d + 1)) ≡ true = ground arith in
      let from : i - d + s ≡ s = ground arith in rw (here, all, from) refl
  | inr away ↦ let none : (leb d i && ltb i (d + 1)) ≡ false = ground arith in rw (away, none) refl
]

move32_lem : (m : Memory) (d s i : ℕ) → move32 m d s i ≡ moved m d s 4 i
unfolding move32
move32_lem m d s i = ground (arith, source 0, source 1, source 2, source 3)
  where
    source : (j : ℕ) → i ≡ d + j → m (i - d + s) ≡ m (s + j)
    source j e = ap m (omega arith)

rep_movsl_lem :
    (n : ℕ) (m : Memory) (d s i : ℕ)
    → Upward d s (4 * n)
    → rep_movsl n m d s i ≡ moved m d s (4 * n) i
unfolding rep_movsl
rep_movsl_lem zero m d s i clear = ground arith
rep_movsl_lem (suc n) m d s i clear =
    let four : 4 * suc n ≡ 4 + 4 * n = omega arith in
    let split : Upward d s (4 + 4 * n) = rw (← four) clear in
    rep_movsl_lem n (move32 m d s) (d + 4) (s + 4) i (shorter d s 4 (4 * n) split).1
    ∙ after_step m (move32 m d s) d s 4 (4 * n) i split (move32_lem m d s)
    ∙ ap (λ k. moved m d s k i) (sym four)

pub bottom_lem :
    (n : ℕ) (m : Memory) (d s i : ℕ) → Upward d s n → memcpy_bottom n m d s i ≡ moved m d s n i
unfolding memcpy_bottom
bottom_lem zero m d s i clear = ground arith
bottom_lem (suc n) m d s i clear =
    let one : suc n ≡ 1 + n = omega arith in
    let split : Upward d s (1 + n) = rw (← one) clear in
    bottom_lem n (update m d (m s)) (d + 1) (s + 1) i (shorter d s 1 n split).1
    ∙ after_step m (update m d (m s)) d s 1 n i split (byte_lem m d s)
    ∙ ap (λ k. moved m d s k i) (sym one)

aligned_lem :
    (n : ℕ) (m : Memory) (d s i : ℕ) → Upward d s n → memcpy_aligned n m d s i ≡ moved m d s n i
unfolding memcpy_aligned
aligned_lem n m d s i clear =
    let k = 4 * (n / 4) in
    let parts : n ≡ k + n % 4 = omega arith in
    let split : Upward d s (k + n % 4) = rw (← parts) clear in
    let (first, second) = shorter d s k (n % 4) split in
    bottom_lem (n % 4) (rep_movsl (n / 4) m d s) (d + k) (s + k) i second
    ∙ after_step m (rep_movsl (n / 4) m d s) d s k (n % 4) i split
        (λ j. rep_movsl_lem (n / 4) m d s j first)
    ∙ ap (λ l. moved m d s l i) (sym parts)

top_lem : (n : ℕ) (m : Memory) (d s i : ℕ) → Upward d s n → memcpy_top n m d s i ≡ moved m d s n i
unfolding memcpy_top
top_lem zero m d s i clear = ground arith
top_lem (suc n) m d s i clear =
    let one : suc n ≡ 1 + n = omega arith in
    let split : Upward d s (1 + n) = rw (← one) clear in
    let rest =
      top_lem n (update m d (m s)) (d + 1) (s + 1) i (shorter d s 1 n split).1
      ∙ after_step m (update m d (m s)) d s 1 n i split (byte_lem m d s)
      ∙ ap (λ k. moved m d s k i) (sym one) in
    let whole = aligned_lem (suc n) m d s i clear in
    elim (Bool-cases (d % 4 == 0)) [ inl here ↦ rw here whole | inr other ↦ rw other rest ]

-- `memcpy` copies the `n` bytes at `src` to `dest` and changes no other byte, at any alignment,
-- when the ranges do not overlap, and also when they do and `dest` is the lower one.
pub memcpy_lem :
    (m : Memory) (dest src n i : ℕ)
    → Upward dest src n
    → memcpy m dest src n i ≡ moved m dest src n i
unfolding memcpy
memcpy_lem m dest src n i clear = top_lem n m dest src i clear

down_lem :
    (n : ℕ) (m : Memory) (d s i : ℕ)
    → s < d
    → rep_movsb_down n m (d + n - 1) (s + n - 1) i ≡ moved m d s n i
unfolding rep_movsb_down
down_lem zero m d s i lt = ground arith
down_lem (suc n) m d s i lt =
    let edi : d + suc n - 1 ≡ d + n = omega arith in
    let esi : s + suc n - 1 ≡ s + n = omega arith in
    rw (edi, esi) (down_lem n (update m (d + n) (m (s + n))) d s i lt ∙ last)
  where
    last : moved (update m (d + n) (m (s + n))) d s n i ≡ moved m d s (suc n) i
    last = elim (Bool-cases (i == d + n)) [
      | inl here ↦
          let all : (leb d i && ltb i (d + suc n)) ≡ true = ground arith in
          let none : (leb d i && ltb i (d + n)) ≡ false = ground arith in
          rw (none, all, here) (ap m (ground arith))
      | inr away ↦ ground arith
    ]

-- `memmove` copies the `n` bytes at `src` to `dest` and changes no other byte, whether the ranges
-- overlap or not. When `dest` is the higher one it leaves the direction flag set.
pub memmove_lem :
    (m : Memory) (dest src n : ℕ)
    → ((i : ℕ) → (memmove m dest src n).0 i ≡ moved m dest src n i)
      × (((memmove m dest src n).1 ≡ true) ↔ (src < dest))
unfolding memmove
memmove_lem m dest src n = elim (Bool-cases (leb dest src)) [
  | inl up ↦ rw up ((λ i. bottom_lem n m dest src i (inl (ground arith))), ground arith)
  | inr down ↦ rw down ((λ i. down_lem n m dest src i (ground arith)), ground arith)
]
