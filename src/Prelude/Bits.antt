-- ===== src/Prelude/Bits.antt =====
-- `bit_or` with flags below the lowest bit of a number adds them.
use Prim.Native.Nat.{
  ℕ, zero, suc, ◌+◌, ◌*◌, ◌/◌, ◌%◌, ◌^◌, ◌≤◌, ◌<◌, max, bit_or, digits, bit_or-bitwise,
}
use mathlib.Core.Path.{◌≡◌, refl, sym, ◌∙◌}
use native.Mathlib.Nat.{pow-suc, mul_assoc}
use native.Mathlib.Decide.{ℕ_discrete}
use native.Mathlib.Omega.{arith}

-- The digit-wise maximum, in a bounded number of rounds.
abbrev merged : ℕ → ℕ → ℕ → ℕ
merged rounds x y = digits (λ y. y) max rounds x y

merged-zero : (rounds y : ℕ) → merged rounds 0 y ≡ y
merged-zero zero y = refl
merged-zero (suc rounds) y = refl

-- One round more makes no difference once the rounds reach the number.
spare_round : (x y rounds : ℕ) → x ≤ rounds → merged (suc rounds) x y ≡ merged rounds x y
spare_round zero y rounds enough = sym (merged-zero rounds y)
spare_round (suc x) y (suc rounds) enough =
    omega (spare_round (suc x / 2) (y / 2) rounds (omega arith), arith)
spare_round (suc x) y zero enough = absurd (omega arith)

enough_rounds : (rounds x y : ℕ) → x ≤ rounds → merged rounds x y ≡ bit_or x y
enough_rounds zero zero y enough = sym (bit_or-bitwise 0 y)
enough_rounds zero (suc x) y enough = absurd (omega arith)
enough_rounds (suc rounds) x y enough = elim (ℕ_discrete x (suc rounds)) [
  | yes last ↦ rw last (sym (bit_or-bitwise (suc rounds) y))
  | no other ↦ spare_round x y rounds (omega arith) ∙ enough_rounds rounds x y (omega arith)
]

or_halved : (x y : ℕ) → bit_or x y ≡ max (x % 2) (y % 2) + 2 * bit_or (x / 2) (y / 2)
or_halved zero y = omega (bit_or-bitwise 0 y, bit_or-bitwise 0 (y / 2), arith)
or_halved (suc x) y =
    let rest = enough_rounds x (suc x / 2) (y / 2) (omega arith) in
    omega (bit_or-bitwise (suc x) y, rest, arith)

or_nothing : (bound x : ℕ) → x ≤ bound → bit_or x 0 ≡ x
or_nothing bound zero within = refl
or_nothing (suc bound) (suc x) within =
    let rest = or_nothing bound (suc x / 2) (omega arith) in
    omega (or_halved (suc x) 0, rest, arith)
or_nothing zero (suc x) within = absurd (omega arith)

-- The low `k` bits of `q * 2 ^ k` are free for flags.
pub bit_or_flags : (k q f : ℕ) → f < 2 ^ k → bit_or (q * 2 ^ k) f ≡ q * 2 ^ k + f
bit_or_flags zero q f h =
    let none : f ≡ 0 = omega arith in
    let same : q * 2 ^ 0 ≡ q = omega arith in
    rw (none, same) (omega (arith, or_nothing q q (omega arith)))
bit_or_flags (suc k) q f h =
    let double = pow-suc 2 k in
    let whole : q * 2 ^ suc k ≡ q * 2 ^ k * 2 = rw double (sym (mul_assoc q (2 ^ k) 2)) in
    let half : q * 2 ^ k * 2 / 2 ≡ q * 2 ^ k = omega arith in
    let ih = bit_or_flags k q (f / 2) (omega (arith, double)) in
    let step = or_halved (q * 2 ^ k * 2) f in rw whole (omega (arith, rw half at step, ih))
