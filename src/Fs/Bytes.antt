-- ===== src/Fs/Bytes.antt =====
-- The content of a file of student-distrib/fs_module.c, byte by byte: what `read_data` is to copy.
use linux_os.Prelude.{
  ℕ, zero, suc, ◌+◌, ◌-◌, ◌*◌, ◌/◌, ◌%◌, ◌≤◌, ◌<◌, ◌≡◌, refl, ap, ap₂, get_or, ◌∙◌, List, [], ◌∷◌,
  ◌++◌, arith, bytes_at, length,
}
use native.Mathlib.Nat.{suc-add}
use linux_os.Fs.{FileSystem, data_block, data_location}

-- The byte at a position of a file: in the block that the inode lists for that position.
unfoldable pub file_byte : FileSystem → ℕ → ℕ → ℕ
file_byte fs inode pos = fs.mem (data_location fs (data_block fs inode (pos / 4096)) + pos % 4096)

unfoldable pub file_bytes : FileSystem → ℕ → ℕ → ℕ → List ℕ
file_bytes fs inode pos zero = []
file_bytes fs inode pos (suc n) = file_byte fs inode pos ∷ file_bytes fs inode (pos + 1) n

pub length-file_bytes : (fs : FileSystem) (inode pos n : ℕ) → length (file_bytes fs inode pos n) ≡ n
unfolding file_bytes
length-file_bytes fs inode pos zero = refl
length-file_bytes fs inode pos (suc n) = ap suc (length-file_bytes fs inode (pos + 1) n)

pub file_bytes-append :
    (fs : FileSystem) (inode p q n k : ℕ)
    → q ≡ p + n
    → file_bytes fs inode p n ++ file_bytes fs inode q k ≡ file_bytes fs inode p (n + k)
unfolding file_bytes
file_bytes-append fs inode p q zero k e =
    ap₂ (λ a b. file_bytes fs inode a b) (omega arith) (omega arith)
file_bytes-append fs inode p q (suc n) k e =
    rw suc-add
      (ap (λ r. file_byte fs inode p ∷ r) (file_bytes-append fs inode (p + 1) q n k (omega arith)))

pub get_or-file_bytes :
    (fs : FileSystem) (inode pos n i d : ℕ)
    → i < n
    → get_or (file_bytes fs inode pos n) i d ≡ file_byte fs inode (pos + i)
unfolding file_bytes
get_or-file_bytes fs inode pos zero i d lt = absurd (omega arith)
get_or-file_bytes fs inode pos (suc n) zero d lt = ap (file_byte fs inode) (omega arith)
get_or-file_bytes fs inode pos (suc n) (suc i) d lt =
    get_or-file_bytes fs inode (pos + 1) n i d (omega arith) ∙ ap (file_byte fs inode) (omega arith)

-- Inside one block the content is a range of memory.
pub block_bytes :
    (fs : FileSystem) (inode i pos addr n : ℕ)
    → 4096 * i ≤ pos
    → pos + n ≤ 4096 * i + 4096
    → addr ≡ data_location fs (data_block fs inode i) + (pos - 4096 * i)
    → bytes_at fs.mem addr n ≡ file_bytes fs inode pos n
unfolding file_bytes bytes_at file_byte
block_bytes fs inode i pos addr zero lo hi e = refl
block_bytes fs inode i pos addr (suc n) lo hi e =
    ap₂ ◌∷◌ (rw (e, file_byte, div, rest))
      (block_bytes fs inode i (pos + 1) (addr + 1) n (omega arith) (omega arith) (omega arith))
  where
    div : pos / 4096 ≡ i
    div = omega arith

    rest : pos % 4096 ≡ pos - 4096 * i
    rest = omega arith
