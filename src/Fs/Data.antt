-- ===== src/Fs/Data.antt =====
-- `read_data` of student-distrib/fs_module.c: how many bytes it copies, and which.
use linux_os.Prelude.{
  length as length_of, ℕ, suc, ◌+◌, ◌-◌, ◌*◌, ◌/◌, ◌≤◌, ◌<◌, ◌≡◌, refl, ◌≢◌, ◌⊎◌, [], arith, u32,
  length, false, ltb, leb, ◌==◌, if◌then◌else◌, min, ◌∙◌,
}
use linux_os.Fs.{FileSystem, failed, Span, copy_blocks, read_data, inode_length, inode_count}
use linux_os.Fs.Copy.{stop, IsSpan, IsEntry, copied, copy_blocks_lem}
use linux_os.Fs.Bytes.{file_bytes, length-file_bytes}

-- The request of a `read_data` call, as its loop takes it.
abbrev pub span_of : FileSystem → ℕ → ℕ → ℕ → Span
span_of fs inode offset length = record {
  inode = inode;
  offset = offset;
  length =
      if ltb (inode_length fs inode) (u32 (offset + length))
      then u32 (inode_length fs inode + 4294967296 - offset)
      else length;
  first_block = offset / 4096;
  last_block = u32 (offset + length) / 4096;
}

-- The position at which a read stops.
unfoldable pub read_end : FileSystem → ℕ → ℕ → ℕ → ℕ
read_end fs inode offset length =
    let last = (offset + length) / 4096 * 4096 in
    if ltb (inode_length fs inode) last then last else min (offset + length) (inode_length fs inode)

module _ (fs : FileSystem) (inode offset buf length : ℕ) (fits : offset + length < 4294967296)
    (small : inode_length fs inode < 4294967296) (inside : offset < inode_length fs inode) where
  span-IsSpan : IsSpan fs (span_of fs inode offset length)
  span-IsSpan = ground arith

  stop-eq : stop fs (span_of fs inode offset length) ≡ read_end fs inode offset length
  unfolding stop read_end
  stop-eq = ground arith

  read_end_small : read_end fs inode offset length < 4294967296
  unfolding read_end
  read_end_small = ground arith

  start-IsEntry : IsEntry fs (span_of fs inode offset length) span-IsSpan (offset / 4096) offset
  start-IsEntry = record {
    low = omega arith;
    high = omega arith;
    first = λ _. refl;
    later = λ h. absurd (h refl);
  }

  loop_lem :
      copy_blocks fs
        (span_of fs inode offset length)
        (u32 (offset + length) / 4096 + 1 - offset / 4096)
        (offset / 4096)
        (record { ret = 0; out = [] })
      ≡ record {
        ret = read_end fs inode offset length - offset;
        out = file_bytes fs inode offset (read_end fs inode offset length - offset);
      }
  unfolding copied
  loop_lem =
      let s = span_of fs inode offset length in
      let left : u32 (offset + length) / 4096 + 1 - offset / 4096
          ≡ suc (u32 (offset + length) / 4096 - offset / 4096) =
        omega arith in
      let none : 0 + (read_end fs inode offset length - offset)
          ≡ read_end fs inode offset length - offset =
        omega arith in
      rw left (
        copy_blocks_lem fs s span-IsSpan (u32 (offset + length) / 4096 - offset / 4096)
          (offset / 4096) offset (record { ret = 0; out = [] }) start-IsEntry (omega arith)
          (omega arith) (omega (arith, stop-eq, read_end_small))
        ∙ rw (stop-eq, none) refl)

  -- `read_data` from inside a file returns the number of bytes from the offset to `read_end`, and has
  -- copied exactly these bytes of the file: for a valid inode whose length is a 32-bit number, a `buf`
  -- that is not NULL and an offset and a length whose sum does not overflow.
  pub read_data_lem :
      buf ≢ 0
      → inode < inode_count fs
      → read_data fs inode offset buf length ≡ record {
        ret = read_end fs inode offset length - offset;
        out = file_bytes fs inode offset (read_end fs inode offset length - offset);
      }
  unfolding read_data
  read_data_lem b n =
      let given : (buf == 0) ≡ false = ground arith in
      let known : leb (inode_count fs) inode ≡ false = ground arith in
      let reaches : leb (inode_length fs inode) offset ≡ false = ground arith in
      rw (given, known, reaches) loop_lem

-- Inside the file `read_data` returns the length asked for and copies exactly these bytes of the
-- file: for a valid inode, a `buf` that is not NULL and a request with no overflow.
pub read_data_within :
    (fs : FileSystem) (inode offset buf length : ℕ)
    → inode_length fs inode < 4294967296
    → buf ≢ 0
    → inode < inode_count fs
    → offset < inode_length fs inode
    → offset + length ≤ inode_length fs inode
    → read_data fs inode offset buf length
      ≡ record { ret = length; out = file_bytes fs inode offset length }
unfolding read_end
read_data_within fs inode offset buf length small b n inside h =
    let end : read_end fs inode offset length - offset ≡ length = ground arith in
    rw (read_data_lem fs inode offset buf length (omega arith) small inside b n, end)

-- A request that passes the end of the file without starting a new block there is cut back to the
-- end of the file.
pub read_data_cut :
    (fs : FileSystem) (inode offset buf length : ℕ)
    → offset + length < 4294967296
    → inode_length fs inode < 4294967296
    → buf ≢ 0
    → inode < inode_count fs
    → offset < inode_length fs inode
    → inode_length fs inode < offset + length
    → (offset + length) / 4096 * 4096 ≤ inode_length fs inode
    → read_data fs inode offset buf length ≡ record {
      ret = inode_length fs inode - offset;
      out = file_bytes fs inode offset (inode_length fs inode - offset);
    }
unfolding read_end
read_data_cut fs inode offset buf length fits small b n inside past h =
    let end : read_end fs inode offset length - offset ≡ inode_length fs inode - offset =
      ground arith in
    rw (read_data_lem fs inode offset buf length fits small inside b n, end)

-- A request that passes the end of the file and goes on into a later block is not cut back to the
-- end of the file: `read_data` returns more bytes than the file has left, and copies as many. The
-- inode is valid, `buf` is not NULL, the offset is inside the file and nothing overflows.
pub read_data_overrun :
    (fs : FileSystem) (inode offset buf length : ℕ)
    → offset + length < 4294967296
    → inode_length fs inode < 4294967296
    → buf ≢ 0
    → inode < inode_count fs
    → offset < inode_length fs inode
    → inode_length fs inode < (offset + length) / 4096 * 4096
    → (inode_length fs inode - offset < (read_data fs inode offset buf length).ret)
      × (length_of (read_data fs inode offset buf length).out
          ≡ (read_data fs inode offset buf length).ret)
unfolding read_end
read_data_overrun fs inode offset buf length fits small b n inside h =
    rw (read_data_lem fs inode offset buf length fits small inside b n)
      (ground arith, length-file_bytes fs inode offset _)

-- `read_data` fails for a NULL buffer and for an inode number that is not in the image, and
-- returns 0 from the end of the file on.
pub read_data_refused :
    (fs : FileSystem) (inode offset buf length : ℕ)
    → ((buf ≡ 0) ⊎ (inode_count fs ≤ inode) → read_data fs inode offset buf length ≡ failed)
      × (buf ≢ 0
          → inode < inode_count fs
          → inode_length fs inode ≤ offset
          → read_data fs inode offset buf length ≡ record { ret = 0; out = [] })
unfolding read_data
read_data_refused fs inode offset buf length = (ground arith, ground arith)
