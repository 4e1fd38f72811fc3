-- ===== src/Fs/Copy.antt =====
-- The block loop of `read_data` in student-distrib/fs_module.c: where it stops and what it copies.
use linux_os.Prelude.{
  ℕ, zero, suc, ◌+◌, ◌-◌, ◌*◌, ◌/◌, ◌≤◌, ◌<◌, ◌≡◌, refl, ap, ◌≢◌, ◌++◌, arith, u32, true, false,
  ltb, ◌==◌, if◌then◌else◌, Bool-cases, inl, inr, ◌∙◌, sym,
}
use mathlib.Core.List.{append-nil, append_assoc}
use linux_os.Fs.{
  FileSystem, Read, Span, start_offset, end_offset, quits, chunk_len, chunk, copy_blocks,
  inode_length,
}
use linux_os.Fs.Bytes.{file_bytes, file_bytes-append, block_bytes}

-- Where the loop stops copying: behind the request, or at the last block when that block begins
-- behind the end of the file.
unfoldable pub stop : FileSystem → Span → ℕ
stop fs s =
    if ltb (inode_length fs s.inode) (s.last_block * 4096)
    then s.last_block * 4096
    else s.offset + s.length

-- What `read_data` establishes before its loop.
pub record IsSpan (fs : FileSystem) (s : Span) : Type 0 where
  pub first : s.first_block ≡ s.offset / 4096
  pub small : s.offset + s.length < 4294967296
  pub inside : s.offset < inode_length fs s.inode
  pub last_small : s.last_block * 4096 < 4294967296
  pub order : s.first_block ≤ s.last_block
  pub last :
      s.last_block * 4096 ≤ inode_length fs s.inode → (s.offset + s.length) / 4096 ≡ s.last_block

module _ (fs : FileSystem) (s : Span) (v : IsSpan fs s) where
  last-le-stop : s.last_block * 4096 ≤ stop fs s
  unfolding stop
  last-le-stop = ground arith

  -- The position `p` at which block `i` is entered.
  pub record IsEntry (i p : ℕ) : Type 0 where
    pub low : 4096 * i ≤ p
    pub high : p < 4096 * i + 4096
    pub first : i ≡ s.first_block → p ≡ s.offset
    pub later : i ≢ s.first_block → p ≡ 4096 * i

  -- The position behind block `i`'s part of the request.
  leave : ℕ → ℕ
  leave i = if i == s.last_block then stop fs s else 4096 * i + 4096

  start_offset_lem : (i p : ℕ) → IsEntry i p → start_offset s i ≡ p - 4096 * i
  unfolding start_offset
  start_offset_lem i p h = ground arith

  -- At the last block either the file is known to reach into it, or nothing is left to copy.
  quits-stop : (i p : ℕ) → IsEntry i p → s.first_block ≤ i → quits fs s i ≡ true → stop fs s ≡ p
  unfolding quits stop
  quits-stop i p h f q = ground arith

  chunk_len_lem :
      (i p : ℕ)
      → IsEntry i p
      → i ≤ s.last_block
      → quits fs s i ≡ false
      → (chunk_len s i ≡ leave i - p) × (p ≤ leave i) × (leave i ≤ 4096 * i + 4096)
  unfolding quits stop chunk_len end_offset leave
  chunk_len_lem i p h b q = ground (arith, start_offset_lem i p h, last-le-stop)

  chunk_lem :
      (i p : ℕ)
      → IsEntry i p
      → i ≤ s.last_block
      → quits fs s i ≡ false
      → chunk fs s i ≡ file_bytes fs s.inode p (leave i - p)
  unfolding chunk
  chunk_lem i p h b q =
      let (len, low, high) = chunk_len_lem i p h b q in
      rw len (
        block_bytes fs s.inode i p _ (leave i - p) h.low (omega arith)
          (omega (arith, start_offset_lem i p h)))

  unfoldable pub copied : ℕ → Read → ℕ → Read
  copied p r q = record { ret = r.ret + (q - p); out = r.out ++ file_bytes fs s.inode p (q - p) }

  copy_blocks_zero : (i : ℕ) (r : Read) → copy_blocks fs s 0 i r ≡ r
  unfolding copy_blocks
  copy_blocks_zero i r = refl

  copy_blocks_quit : (n i : ℕ) (r : Read) → quits fs s i ≡ true → copy_blocks fs s (suc n) i r ≡ r
  unfolding copy_blocks
  copy_blocks_quit n i r q = rw q

  copy_blocks_step :
      (n i p : ℕ) (r : Read)
      → IsEntry i p
      → i ≤ s.last_block
      → quits fs s i ≡ false
      → r.ret + (leave i - p) < 4294967296
      → copy_blocks fs s (suc n) i r ≡ copy_blocks fs s n (i + 1) (copied p r (leave i))
  unfolding copy_blocks copied
  copy_blocks_step n i p r h b q t =
      let wrap : u32 (r.ret + (leave i - p)) ≡ r.ret + (leave i - p) = omega arith in
      rw (q, chunk_lem i p h b q, (chunk_len_lem i p h b q).0, wrap)

  copied_none : (p q : ℕ) (r : Read) → q ≡ p → copied p r q ≡ r
  unfolding copied file_bytes
  copied_none p q r e =
      let none : q - p ≡ 0 = omega arith in
      let same : r.ret + 0 ≡ r.ret = omega arith in rw (none, same, append-nil)

  copied-copied : (p q e : ℕ) (r : Read) → p ≤ q → q ≤ e → copied q (copied p r q) e ≡ copied p r e
  unfolding copied
  copied-copied p q e r h k =
      let count : r.ret + (q - p) + (e - q) ≡ r.ret + (e - p) = omega arith in
      let whole : q - p + (e - q) ≡ e - p = omega arith in
      rw
        (count, append_assoc, file_bytes-append fs s.inode p q (q - p) (e - q) (omega arith), whole)

  leave-IsEntry :
      (i p : ℕ) → IsEntry i p → s.first_block ≤ i → i < s.last_block → IsEntry (i + 1) (leave i)
  unfolding leave
  leave-IsEntry i p h f b = ground arith

  leave_last : (i : ℕ) → i ≡ s.last_block → leave i ≡ stop fs s
  unfolding leave
  leave_last i e = ground arith

  leave-le-stop : (i : ℕ) → i ≤ s.last_block → leave i ≤ stop fs s
  unfolding leave
  leave-le-stop i e = ground (arith, last-le-stop)

  pub copy_blocks_lem :
      (n i p : ℕ) (r : Read)
      → IsEntry i p
      → i + n ≡ s.last_block
      → s.first_block ≤ i
      → r.ret + (stop fs s - p) < 4294967296
      → copy_blocks fs s (suc n) i r ≡ copied p r (stop fs s)
  copy_blocks_lem zero i p r h e f t = elim (Bool-cases (quits fs s i)) [
    | inl q ↦ copy_blocks_quit 0 i r q ∙ sym (copied_none p (stop fs s) r (quits-stop i p h f q))
    | inr q ↦
        copy_blocks_step 0 i p r h (omega arith) q
          (omega (arith, chunk_len_lem i p h (omega arith) q, leave-le-stop i (omega arith)))
        ∙ copy_blocks_zero (i + 1) _
        ∙ ap (copied p r) (leave_last i (omega arith))
  ]
  copy_blocks_lem (suc n) i p r h e f t = elim (Bool-cases (quits fs s i)) [
    | inl q ↦
        copy_blocks_quit (suc n) i r q ∙ sym (copied_none p (stop fs s) r (quits-stop i p h f q))
    | inr q ↦
        copy_blocks_step (suc n) i p r h (omega arith) q
          (omega (arith, chunk_len_lem i p h (omega arith) q, leave-le-stop i (omega arith)))
        ∙ copy_blocks_lem n (i + 1) (leave i) (copied p r (leave i))
            (leave-IsEntry i p h f (omega arith)) (omega arith) (omega arith)
            (unfold copied in
              omega (arith, t, chunk_len_lem i p h (omega arith) q, leave-le-stop i (omega arith)))
        ∙ copied-copied p (leave i) (stop fs s) r (chunk_len_lem i p h (omega arith) q).1
            (leave-le-stop i (omega arith))
  ]
