-- ===== src/Fs/File.antt =====
-- `file_open` and `file_read` of student-distrib/fs_module.c: reading a file from its start on.
use linux_os.Prelude.{ℕ, ◌+◌, ◌≤◌, ◌<◌, ◌≡◌, refl, ◌≢◌, ◌++◌, arith}
use linux_os.Fs.{FileSystem, inode_count, inode_length, file_read}
use linux_os.Fs.Bytes.{file_bytes, file_bytes-append}
use linux_os.Fs.Data.{read_data_within}

module _ (fs : FileSystem) (inode buf : ℕ) (small : inode_length fs inode < 2147483648)
    (b : buf ≢ 0) (n : inode < inode_count fs) where
  -- `file_read` inside the file moves the file position on by the number of bytes that it returns.
  pub file_read_within :
      (offset len : ℕ)
      → offset < inode_length fs inode
      → offset + len ≤ inode_length fs inode
      → file_read fs inode offset buf len
        ≡ (record { ret = len; out = file_bytes fs inode offset len }, offset + len)
  unfolding file_read
  file_read_within offset len inside h =
      rw (read_data_within fs inode offset buf len (omega arith) b n inside h) (ground arith)

  -- Two reads one after the other, the second from the position that the first leaves, give the
  -- bytes of one read of both lengths, and leave its position: inside a file below 2 GB, for a valid
  -- inode and a `buf` that is not NULL.
  pub file_read-file_read :
      (offset len more : ℕ)
      → offset + len < inode_length fs inode
      → offset + len + more ≤ inode_length fs inode
      → let (r1, p1) = file_read fs inode offset buf len in
        let (r2, p2) = file_read fs inode p1 buf more in
        let (r, p) = file_read fs inode offset buf (len + more) in
        (r1.out ++ r2.out ≡ r.out) × (p2 ≡ p)
  file_read-file_read offset len more h k =
      rw
        (
          file_read_within offset len (omega arith) (omega arith),
          file_read_within (offset + len) more h k,
          file_read_within offset (len + more) (omega arith) (omega arith),
        )
        (file_bytes-append fs inode offset (offset + len) len more refl, omega arith)
