-- ===== src/Programs/Reading.antt =====
-- The reads of 1024 bytes that `cat` of syscalls/ece391cat.c makes through its descriptor.

use linux_os.Prelude.{
  ℕ, suc, ◌+◌, ◌-◌, ◌*◌, ◌/◌, ◌%◌, ◌^◌, ◌≤◌, ◌<◌, ◌≡◌, ◌≢◌, ◌∙◌, ◌⊎◌, inl, inr, ap, refl, some,
  false, ◌==◌, ltb, leb, ◌||◌, if◌then◌else◌, arith, min, Bool-cases, u32,
}
use linux_os.Fs.{FileSystem, Read, read_data, file_read, inode_length, inode_count, is_positive}
use linux_os.Fs.Bytes.{file_bytes}
use linux_os.Fs.Data.{read_data_lem, read_end, read_data_refused}
use linux_os.Kernel.{Kernel, Fops, current, with_fd}
use linux_os.FileCalls.{returns, Interrupts, syscall_read, run_read, moved}
use linux_os.Programs.Descriptor.{Holds}

-- A file of which reads of 1024 bytes at a time never copy more than is left: its end is not in the
-- last quarter of a block.
pub record IsReadable (fs : FileSystem) (inode : ℕ) : Type 0 where
  pub known : inode < inode_count fs
  pub small : inode_length fs inode < 2 ^ 31
  pub quarter : inode_length fs inode % 4096 ≤ 3072

ltb_off : {m n : ℕ} → n ≤ m → ltb m n ≡ false
ltb_off h = ground arith

unfoldable pub piece_len : FileSystem → ℕ → ℕ → ℕ
piece_len fs inode p = min 1024 (inode_length fs inode - p)

chunk_end :
    (fs : FileSystem) (inode p : ℕ)
    → inode_length fs inode % 4096 ≤ 3072
    → p < inode_length fs inode
    → p % 1024 ≡ 0
    → read_end fs inode p 1024 - p ≡ piece_len fs inode p
unfolding read_end piece_len
chunk_end fs inode p quarter inside aligned =
    let whole : ltb (inode_length fs inode) ((p + 1024) / 4096 * 4096) ≡ false =
      ltb_off (omega (arith, quarter, inside, aligned)) in
    ground arith

abbrev bytes_read : FileSystem → ℕ → ℕ → ℕ → Read
bytes_read fs inode p n = record { ret = n; out = file_bytes fs inode p n }

module _ (fs : FileSystem) (inode buf : ℕ) (b : buf ≢ 0) (readable : IsReadable fs inode) where
  -- A read at a multiple of 1024, or at the end, gives what is left, 1024 bytes at most.
  chunk_data :
      (p : ℕ)
      → (p % 1024 ≡ 0) ⊎ (inode_length fs inode ≤ p)
      → read_data fs inode p buf 1024
        ≡ record { ret = piece_len fs inode p; out = file_bytes fs inode p (piece_len fs inode p) }
  chunk_data p aligned = elim (Bool-cases (leb (inode_length fs inode) p)) [
    | inl over ↦
        let none_left : piece_len fs inode p ≡ 0 = (unfold piece_len in ground arith) in
        rw none_left (
          (read_data_refused fs inode p buf 1024).1 b readable.known (ground arith)
          ∙ (unfold file_bytes in refl))
    | inr inside ↦
        let more : p < inode_length fs inode = ground arith in
        let whole = chunk_end fs inode p readable.quarter more (ground arith) in
        read_data_lem fs inode p buf 1024 (omega (arith, readable.small))
          (omega (arith, readable.small)) more b readable.known
        ∙ ap (bytes_read fs inode p) whole
  ]

  chunk_place :
      (p : ℕ)
      → p ≤ inode_length fs inode
      → (if is_positive (piece_len fs inode p) then u32 (p + piece_len fs inode p) else p)
        ≡ p + piece_len fs inode p
  unfolding piece_len
  chunk_place p le = ground (arith, readable.small)

  -- A chunk that is not empty: where the next one starts, and the rounds that are left for it.
  pub chunk_next :
      (rounds p : ℕ)
      → (p % 1024 ≡ 0) ⊎ (inode_length fs inode ≤ p)
      → p ≤ inode_length fs inode
      → inode_length fs inode + 1024 ≤ p + 1024 * suc rounds
      → piece_len fs inode p ≢ 0
      → let n = piece_len fs inode p in
        (n ≤ 1024)
        × (p + n ≤ inode_length fs inode)
        × (((p + n) % 1024 ≡ 0) ⊎ (inode_length fs inode ≤ p + n))
        × (inode_length fs inode + 1024 ≤ p + n + 1024 * rounds)
  chunk_next rounds p aligned le enough some_left =
      elim (Bool-cases (leb 1024 (inode_length fs inode - p))) [
        | inl full ↦
            let n : piece_len fs inode p ≡ 1024 = (unfold piece_len in ground arith) in
            rw n (omega arith, ground arith, inl (ground arith), omega (arith, enough))
        | inr last ↦
            let n : piece_len fs inode p ≡ inode_length fs inode - p =
              (unfold piece_len in ground arith) in
            let left : p < inode_length fs inode = ground (arith, n) in
            rw n (
              ground arith,
              omega (arith, le),
              inr (omega (arith, le)),
              omega (arith, enough, left),
            )
      ]

  -- The read through the descriptor.
  pub read_lem :
      (env : Interrupts) (k : Kernel) (fd p : ℕ)
      → k.fs ≡ fs
      → Holds Fops.file_fops k fd inode p
      → (p % 1024 ≡ 0) ⊎ (inode_length fs inode ≤ p)
      → p ≤ inode_length fs inode
      → syscall_read env k fd buf 1024
        ≡ returns
            (piece_len fs inode p)
            (file_bytes fs inode p (piece_len fs inode p))
            (with_fd k fd (record ((current k).fd fd) { file_position = p + piece_len fs inode p }))
  read_lem env k fd p disk on aligned le =
      let d = (current k).fd fd in
      let range : (ltb 7 fd || fd == 1) ≡ false = ground (arith, on.low, on.high) in
      let in_use : (d.flags == 0) ≡ false = ground (arith, on.used) in
      let dispatch : syscall_read env k fd buf 1024 ≡ run_read env k fd d buf 1024 d.fops_table =
        (unfold syscall_read in rw (range, in_use) refl) in
      let read : file_read k.fs d.inode d.file_position buf 1024
          ≡ (bytes_read fs inode p (piece_len fs inode p), p + piece_len fs inode p) =
        ap (λ (f : FileSystem). file_read f d.inode d.file_position buf 1024) disk
        ∙ ap (λ i. file_read fs i d.file_position buf 1024) on.content
        ∙ ap (λ q. file_read fs inode q buf 1024) on.position
        ∙ (unfold file_read in rw (chunk_data p aligned, chunk_place p le) refl) in
      let of_file : run_read env k fd d buf 1024 (some Fops.file_fops)
          ≡ moved k fd d (bytes_read fs inode p (piece_len fs inode p), p + piece_len fs inode p) =
        (unfold run_read in ap (moved k fd d) read) in
      dispatch ∙ ap (run_read env k fd d buf 1024) on.table ∙ of_file ∙ (unfold moved in refl)
