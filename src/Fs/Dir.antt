-- ===== src/Fs/Dir.antt =====
-- Reading a directory of student-distrib/fs_module.c: one name for each `dir_read`.
use linux_os.Prelude.{
  ◌⊎◌, ◌∙◌, sym, leb, ◌==◌, false, ℕ, zero, suc, ◌+◌, ◌≤◌, ◌<◌, ◌≡◌, refl, ap, ◌≢◌, List, [], ◌∷◌,
  arith, min, length, bytes_at, length-bytes_at,
}
use linux_os.Strings.{strlen}
use linux_os.Strings.Compare.{text}
use linux_os.Fs.{
  FileSystem, failed, entry_addr, entries, name_count, name_length, directory_read, dir_read,
}

text-bytes_at :
    (mem : ℕ → ℕ) (p n m k : ℕ)
    → n ≤ m
    → k ≡ min n (strlen (bytes_at mem p m))
    → bytes_at mem p k ≡ text n (bytes_at mem p n)
unfolding text strlen bytes_at
text-bytes_at mem p zero m zero h e = refl
text-bytes_at mem p zero m (suc k) h e = absurd (omega arith)
text-bytes_at mem p (suc n) zero k h e = absurd (omega arith)
text-bytes_at mem p (suc n) (suc m) zero h e = ground arith
text-bytes_at mem p (suc n) (suc m) (suc k) h e = ground (arith, text-bytes_at mem (p + 1) n m k)

-- The name that a `directory_read` of `len` bytes gives of an entry.
abbrev pub name_of : FileSystem → ℕ → ℕ → List ℕ
name_of fs i len = text (min len 32) (entries fs i).name

text-bytes_at_cut :
    (mem : ℕ → ℕ) (p n m : ℕ) → n ≤ m → text n (bytes_at mem p m) ≡ text n (bytes_at mem p n)
unfolding text bytes_at
text-bytes_at_cut mem p zero m h = refl
text-bytes_at_cut mem p (suc n) zero h = absurd (omega arith)
text-bytes_at_cut mem p (suc n) (suc m) h = ground (arith, text-bytes_at_cut mem (p + 1) n m)

name_count-eq :
    (fs : FileSystem) (i len : ℕ) → name_count fs i len ≡ min (min len 32) (name_length fs i)
unfolding name_count
name_count-eq fs i len = ground arith

bytes_at-name_count :
    (fs : FileSystem) (i len : ℕ)
    → bytes_at fs.mem (entry_addr fs i) (name_count fs i len) ≡ name_of fs i len
unfolding name_length entries
bytes_at-name_count fs i len =
    text-bytes_at fs.mem (entry_addr fs i) (min len 32) 64 (name_count fs i len) (omega arith)
      (name_count-eq fs i len)
    ∙ sym (text-bytes_at_cut fs.mem (entry_addr fs i) (min len 32) 32 (omega arith))

-- `directory_read` of one of the 63 entries into a buffer that is not NULL copies the entry's name,
-- up to its NUL, to 32 bytes and to the length asked for, and returns the number of bytes copied.
pub directory_read_lem :
    (fs : FileSystem) (offset buf len : ℕ)
    → offset < 63
    → buf ≢ 0
    → let r = directory_read fs offset buf len in
      (r.out ≡ name_of fs offset len) × (r.ret ≡ length r.out) × (r.ret ≤ 32) × (r.ret ≤ len)
unfolding directory_read
directory_read_lem fs offset buf len h b =
    let inside : leb 63 offset ≡ false = ground arith in
    let given : (buf == 0) ≡ false = ground arith in
    rw (inside, given)
      (
        bytes_at-name_count fs offset len,
        sym (length-bytes_at fs.mem _ _),
        omega (arith, name_count-eq fs offset len),
        omega (arith, name_count-eq fs offset len),
      )

-- `directory_read` fails from entry 63 on and for a NULL buffer.
pub directory_read_refused :
    (fs : FileSystem) (offset buf len : ℕ)
    → (63 ≤ offset) ⊎ (buf ≡ 0)
    → directory_read fs offset buf len ≡ failed
unfolding directory_read
directory_read_refused fs offset buf len h = ground arith

-- Successive `dir_read` calls, as `ls` makes them: what each copies, and the position at the end.
unfoldable pub read_names : FileSystem → ℕ → ℕ → ℕ → ℕ → List (List ℕ) × ℕ
read_names fs inode buf zero position = ([], position)
read_names fs inode buf (suc n) position =
    let (r, next) = dir_read fs inode position buf 32 in
    let (names, end) = read_names fs inode buf n next in (r.out ∷ names, end)

abbrev names_from : FileSystem → ℕ → ℕ → List (List ℕ)
names_from fs zero i = []
names_from fs (suc n) i = name_of fs i 32 ∷ names_from fs n (i + 1)

dir_read_lem :
    (fs : FileSystem) (inode position buf : ℕ)
    → position < 63
    → buf ≢ 0
    → 0 < length (name_of fs position 32)
    → let (r, next) = dir_read fs inode position buf 32 in
      (r.out ≡ name_of fs position 32) × (next ≡ position + 1)
unfolding dir_read
dir_read_lem fs inode position buf h b n =
    let (out, ret, le, _) = directory_read_lem fs position buf 32 h b in
    let count : (directory_read fs position buf 32).ret ≡ length (name_of fs position 32) =
      ret ∙ ap length out in
    (out, ground (arith, count, le))

-- `n` successive `dir_read` calls from a position on list the names of the `n` entries there in
-- order and leave the position behind them, while these entries lie in the directory and have names
-- and `buf` is not NULL.
pub read_names_lem :
    (fs : FileSystem) (inode buf n position : ℕ)
    → buf ≢ 0
    → position + n ≤ 63
    → ((i : ℕ) → position ≤ i → i < position + n → 0 < length (name_of fs i 32))
    → read_names fs inode buf n position ≡ (names_from fs n position, position + n)
unfolding read_names
read_names_lem fs inode buf zero position b h named =
    let end : position ≡ position + 0 = omega arith in rw (← end)
read_names_lem fs inode buf (suc n) position b h named =
    let (out, next) =
      dir_read_lem fs inode position buf (omega arith) b
        (named position (omega arith) (omega arith)) in
    let end : position + 1 + n ≡ position + suc n = omega arith in
    rw (
      out,
      next,
      read_names_lem fs inode buf n (position + 1) b (omega arith)
          (λ i lo hi. named i (omega arith) (omega arith)),
      end,
    )
