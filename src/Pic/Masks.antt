-- ===== src/Pic/Masks.antt =====
-- `enable_irq` and `disable_irq` of student-distrib/i8259.c, line by line of the interrupt masks.
use linux_os.Prelude.{
  ℕ, ◌-◌, ◌/◌, ◌%◌, ◌^◌, ◌<◌, ◌≡◌, refl, true, ◌&&◌, ltb, if◌then◌else◌, bit_and, bit_or, arith,
  ◌==◌, ==_iff, all_below, all_below_sound,
}
use linux_os.Pic.{Pic, clear_bit, set_bit, enable_irq, disable_irq}

-- Bit `k` of a mask.
abbrev pub bit : ℕ → ℕ → ℕ
bit m k = m / 2 ^ k % 2

-- Whether an interrupt line is masked: 0 lets it through.
unfoldable pub masked : Pic → ℕ → ℕ
masked s irq = if ltb irq 8 then bit s.master_mask irq else bit s.slave_mask (irq - 8)

clear_table :
    all_below 8 (λ k. all_below 8 (λ j.
      all_below 256 (λ m. bit (bit_and m (clear_bit k)) j == (if j == k then 0 else bit m j))))
    ≡ true
unfolding all_below clear_bit
clear_table = refl

set_table :
    all_below 8 (λ k.
      all_below 8
        (λ j. all_below 256 (λ m. bit (bit_or m (set_bit k)) j == (if j == k then 1 else bit m j))))
    ≡ true
unfolding all_below set_bit
set_table = refl

bit-clear :
    (k j m : ℕ)
    → k < 8
    → j < 8
    → m < 256
    → bit (bit_and m (clear_bit k)) j ≡ (if j == k then 0 else bit m j)
bit-clear k j m hk hj hm =
    (==_iff _ _).0
      (all_below_sound 256 _ m (all_below_sound 8 _ j (all_below_sound 8 _ k clear_table hk) hj) hm)

bit-set :
    (k j m : ℕ)
    → k < 8
    → j < 8
    → m < 256
    → bit (bit_or m (set_bit k)) j ≡ (if j == k then 1 else bit m j)
bit-set k j m hk hj hm =
    (==_iff _ _).0
      (all_below_sound 256 _ m (all_below_sound 8 _ j (all_below_sound 8 _ k set_table hk) hj) hm)

-- Both masks are bytes.
abbrev pub IsValid : Pic → Type 0
IsValid s = (s.master_mask < 256) × (s.slave_mask < 256)

-- `enable_irq` unmasks its line and leaves the masks of the other 15 lines; a number of 16 or more
-- changes nothing. Both masks are bytes.
pub enable_irq-masked :
    (s : Pic) (irq j : ℕ)
    → IsValid s
    → j < 16
    → masked (enable_irq s irq) j ≡ (if j == irq then 0 else masked s j)
unfolding masked enable_irq
enable_irq-masked s irq j v h =
    ground (arith, bit-clear irq j s.master_mask, bit-clear (irq - 8) (j - 8) s.slave_mask)

-- `disable_irq` masks its line and leaves the masks of the other 15 lines; a number of 16 or more
-- changes nothing. Both masks are bytes.
pub disable_irq-masked :
    (s : Pic) (irq j : ℕ)
    → IsValid s
    → j < 16
    → masked (disable_irq s irq) j ≡ (if j == irq then 1 else masked s j)
unfolding masked disable_irq
disable_irq-masked s irq j v h =
    ground (arith, bit-set irq j s.master_mask, bit-set (irq - 8) (j - 8) s.slave_mask)

byte_table :
    all_below 256 (λ m. all_below 256 (λ n. ltb (bit_and m n) 256 && ltb (bit_or m n) 256)) ≡ true
unfolding all_below
byte_table = refl

bytes : (m n : ℕ) → m < 256 → n < 256 → (bit_and m n < 256) × (bit_or m n < 256)
bytes m n hm hn = ground (
  arith,
  all_below_sound 256 (λ n. ltb (bit_and m n) 256 && ltb (bit_or m n) 256) n
      (all_below_sound 256 _ m byte_table hm) hn,
)

-- Enabling and disabling keep both masks bytes.
pub irq-IsValid :
    (s : Pic) (irq : ℕ) → IsValid s → IsValid (enable_irq s irq) × IsValid (disable_irq s irq)
unfolding enable_irq disable_irq clear_bit set_bit
irq-IsValid s irq v = ground (
  arith,
  bytes s.master_mask (clear_bit irq),
  bytes s.slave_mask (clear_bit (irq - 8)),
  bytes s.master_mask (set_bit irq),
  bytes s.slave_mask (set_bit (irq - 8)),
)

-- Disabling a line after enabling it masks that line, and the other lines stay as they were before
-- both, for the 16 lines and masks that are bytes.
pub disable_irq-enable_irq :
    (s : Pic) (irq j : ℕ)
    → IsValid s
    → irq < 16
    → j < 16
    → masked (disable_irq (enable_irq s irq) irq) j ≡ (if j == irq then 1 else masked s j)
disable_irq-enable_irq s irq j v hi h = ground (
  arith,
  disable_irq-masked (enable_irq s irq) irq j (irq-IsValid s irq v).0 h,
  enable_irq-masked s irq j v h,
)

-- `enable_irq` unmasks its line and `disable_irq` masks it; both leave the masks of the other 15
-- lines, and a number of 16 or more changes nothing. Both masks are bytes before and after.
pub irq_masks :
    (s : Pic) (irq j : ℕ)
    → IsValid s
    → j < 16
    → (masked (enable_irq s irq) j ≡ (if j == irq then 0 else masked s j))
      × (masked (disable_irq s irq) j ≡ (if j == irq then 1 else masked s j))
      × IsValid (enable_irq s irq)
      × IsValid (disable_irq s irq)
irq_masks s irq j v h = (
  enable_irq-masked s irq j v h,
  disable_irq-masked s irq j v h,
  (irq-IsValid s irq v).0,
  (irq-IsValid s irq v).1,
)
