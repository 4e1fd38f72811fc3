-- ===== src/Prelude/Words.antt =====
-- The byte memory that pointers of the source address, and machine words.
use Prim.Native.Nat.{◌<◌, ℕ, zero, suc, ◌+◌, ◌*◌, ◌%◌}
use mathlib.Core.Path.{◌≡◌, refl, ap, ap₂}
use mathlib.Core.Bool.{Bool, true, false}
use mathlib.Core.List.{List, [], ◌∷◌, ◌++◌}
use native.Mathlib.Nat.{suc-add}
use native.Mathlib.Decide.{ℕ_discrete}
use native.Mathlib.Omega.{arith}
use linux_os.Prelude.Tests.{◌==◌, if◌then◌else◌}
use linux_os.Prelude.Lists.{length}

-- The byte at each address.
abbrev pub Memory : Type 0
Memory = ℕ → ℕ

-- Unsigned 32-bit arithmetic wraps.
abbrev pub u32 : ℕ → ℕ
u32 n = n % 4294967296

-- The value -1 of an `int` or a `uint32_t`, as its bit pattern.
abbrev pub minus_one : ℕ
minus_one = 4294967295

-- The `n` bytes from address `p` on.
unfoldable pub bytes_at : Memory → ℕ → ℕ → List ℕ
bytes_at m p zero = []
bytes_at m p (suc n) = m p ∷ bytes_at m (p + 1) n

-- A little-endian 32-bit load.
unfoldable pub load32 : Memory → ℕ → ℕ
load32 m p = m p + 256 * m (p + 1) + 65536 * m (p + 2) + 16777216 * m (p + 3)

-- A function changed at one argument: a write to one slot of an array.
abbrev pub update {ℓ} : {A : Type ℓ} → (ℕ → A) → ℕ → A → ℕ → A
update f k v i = if i == k then v else f i

pub length-bytes_at : (m : Memory) (p n : ℕ) → length (bytes_at m p n) ≡ n
unfolding bytes_at
length-bytes_at m p zero = refl
length-bytes_at m p (suc n) = ap suc (length-bytes_at m (p + 1) n)

-- Two adjacent ranges make one.
pub bytes_at-append :
    (m : Memory) (p q n k : ℕ) → q ≡ p + n → bytes_at m p n ++ bytes_at m q k ≡ bytes_at m p (n + k)
unfolding bytes_at
bytes_at-append m p q zero k e = ap₂ (λ a b. bytes_at m a b) (omega arith) (omega arith)
bytes_at-append m p q (suc n) k e =
    rw suc-add (ap (λ r. m p ∷ r) (bytes_at-append m (p + 1) q n k (omega arith)))

-- A table of all the values under a bound, checked by evaluation.
unfoldable pub all_below : ℕ → (ℕ → Bool) → Bool
all_below zero check = true
all_below (suc bound) check = if check bound then all_below bound check else false

both :
    (check : ℕ → Bool) (bound : ℕ)
    → all_below (suc bound) check ≡ true
    → (check bound ≡ true) × (all_below bound check ≡ true)
unfolding all_below
both check bound table = ground arith

pub all_below_sound :
    (bound : ℕ) (check : ℕ → Bool) (value : ℕ)
    → all_below bound check ≡ true
    → value < bound
    → check value ≡ true
all_below_sound zero check value table lt = absurd (omega arith)
all_below_sound (suc bound) check value table lt =
    let (last, others) = both check bound table in
    elim (ℕ_discrete value bound) [
      | yes same ↦ rw same last
      | no other ↦ all_below_sound bound check value others (omega arith)
    ]
