-- ===== src/Fish/Bytes.antt =====
-- The memory routines of fish/fish.c, against those of the kernel.
use linux_os.Prelude.{
  ℕ, zero, suc, ◌+◌, ◌<◌, ◌%◌, ◌≡◌, ◌∙◌, refl, sym, ap, List, [], ◌∷◌, some, ◌==◌, arith, Memory,
  inl, inr, Bool-cases, length, if◌then◌else◌,
}
use linux_os.MemOps.{memset, memcpy, memcpy_bottom}
use linux_os.MemOps.Set.{memset_lem, filled}
use linux_os.MemOps.Copy.{memcpy_lem, Upward, bottom_lem}
use linux_os.Fish.{Blink, ece391_memset, ece391_memcpy, mp1_malloc, mp1_free}

memset-filled :
    (n : ℕ) (m : Memory) (p c i : ℕ) → ece391_memset m p c n i ≡ filled m p n (c % 256) i
unfolding ece391_memset
memset-filled zero m p c i = ground arith
memset-filled (suc n) m p c i =
    memset-filled n (λ j. if j == p then c % 256 else m j) (p + 1) c i ∙ ground arith

memcpy-bottom : (n : ℕ) (m : Memory) (d s : ℕ) → ece391_memcpy m d s n ≡ memcpy_bottom n m d s
unfolding ece391_memcpy memcpy_bottom
memcpy-bottom zero m d s = refl
memcpy-bottom (suc n) m d s = memcpy-bottom n (λ j. if j == d then m s else m j) (d + 1) (s + 1)

-- The byte loops of the program leave the same memory as the assembly of the kernel's routines: for
-- every range that is set, and for every copy whose ranges do not overlap or whose destination is the
-- lower one.
pub routines-same :
    (m : Memory) (p c d s n i : ℕ)
    → Upward d s n
    → (ece391_memset m p c n i ≡ memset m p c n i) × (ece391_memcpy m d s n i ≡ memcpy m d s n i)
routines-same m p c d s n i clear = (
  memset-filled n m p c i ∙ sym (memset_lem m p c n i),
  ap (λ (f : Memory). f i) (memcpy-bottom n m d s)
      ∙ bottom_lem n m d s i clear
      ∙ sym (memcpy_lem m d s n i clear),
)

-- An entry that is freed can be allocated again: `mp1_malloc` then finds it, or one before it.
pub malloc-free :
    (array : List Blink) (i : ℕ)
    → i < length array
    → (j : ℕ) × (mp1_malloc (mp1_free array i) ≡ some j) × (j < i + 1)
unfolding mp1_malloc mp1_free
malloc-free [] i lt = absurd (omega arith)
malloc-free (b ∷ array) zero lt = (0, refl, omega arith)
malloc-free (b ∷ array) (suc i) lt = elim (Bool-cases (b.location == 0)) [
  | inl free ↦ (0, rw free refl, omega arith)
  | inr used ↦
      let (j, found, le) = malloc-free array i (omega arith) in
      (j + 1, rw (used, found) refl, omega arith)
]
