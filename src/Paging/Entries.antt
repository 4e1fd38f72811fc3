-- ===== src/Paging/Entries.antt =====
-- What an entry of the page tables of student-distrib/paging.c says by the format of the processor.

use linux_os.Prelude.{ℕ, ◌+◌, ◌*◌, ◌/◌, ◌%◌, ◌^◌, ◌<◌, ◌≡◌, bit_or, arith}
use linux_os.Prelude.Bits.{bit_or_flags}

-- Bit 0 is "present", bit 1 "writable", bit 2 "user", bit 7 of a directory entry "4 MB page".
abbrev pub flag : ℕ → ℕ → ℕ
flag entry k = entry / 2 ^ k % 2

-- The 4 KB frame or table that an entry points to.
abbrev pub frame : ℕ → ℕ
frame entry = entry / 4096 * 4096

-- The flags of an entry.
pub record HasFlags (entry present user large : ℕ) : Type 0 where
  pub present_bit : flag entry 0 ≡ present
  pub write_bit : flag entry 1 ≡ 1
  pub user_bit : flag entry 2 ≡ user
  pub large_bit : flag entry 7 ≡ large

-- An entry made of a 4 KB aligned address and flags points to that address.
pub or_aligned : (addr f : ℕ) → addr % 4096 ≡ 0 → f < 4096 → bit_or addr f ≡ addr + f
or_aligned addr f a h =
    let pages : addr ≡ addr / 4096 * 2 ^ 12 = omega arith in
    rw pages (bit_or_flags 12 (addr / 4096) f h)

pub user_page :
    (addr : ℕ)
    → addr % 4096 ≡ 0
    → HasFlags (bit_or addr 0x87) 1 1 1 × (frame (bit_or addr 0x87) ≡ addr)
user_page addr a = rw (or_aligned addr 0x87 a (omega arith)) (omega arith)

pub user_table :
    (addr : ℕ)
    → addr % 4096 ≡ 0
    → HasFlags (bit_or addr 0x7) 1 1 0 × (frame (bit_or addr 0x7) ≡ addr)
user_table addr a = rw (or_aligned addr 0x7 a (omega arith)) (omega arith)

pub kernel_table :
    (addr : ℕ)
    → addr % 4096 ≡ 0
    → HasFlags (bit_or addr 0x3) 1 0 0 × (frame (bit_or addr 0x3) ≡ addr)
kernel_table addr a = rw (or_aligned addr 0x3 a (omega arith)) (omega arith)

pub absent_page : (addr : ℕ) → addr % 4096 ≡ 0 → HasFlags (bit_or addr 0x2) 0 0 0
absent_page addr a = rw (or_aligned addr 0x2 a (omega arith)) (omega arith)
