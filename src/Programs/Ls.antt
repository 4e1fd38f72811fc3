-- ===== src/Programs/Ls.antt =====
-- `ls` of syscalls/ece391ls.c: what it shows of the directory.
use native.Mathlib.Nat.{suc-ne-zero}
use linux_os.Prelude.{
  ℕ, zero, suc, ◌+◌, ◌≤◌, ◌<◌, ◌≡◌, ◌≢◌, ◌∙◌, ap, ap₂, sym, refl, List, [], ◌∷◌, ◌++◌, some, true,
  false, ◌==◌, ltb, ◌||◌, if◌then◌else◌, minus_one, length, set, take, drop, length-drop,
  length-set, length-append, arith, u32,
}
use linux_os.Strings.Compare.{length-text}
use linux_os.Fs.{
  entries, FileSystem, Dentry, Read, dir_read, directory_read, read_dentry_by_name, is_positive,
}
use linux_os.Fs.Dir.{name_of, directory_read_lem}
use linux_os.Terminal.{terminal_write}
use linux_os.Kernel.{Kernel, Fops, current, with_fd}
use linux_os.FileCalls.{returns, Interrupts, syscall_read, run_read, moved, find_fd}
use linux_os.FileCalls.Open.{find_fd-some}
use linux_os.Programs.{Run, placed, ls_entry, ls_loop, ls_opened, ls}
use linux_os.Programs.Output.{shown, shown-append, HasOutput, write_out_lem}
use linux_os.Programs.Descriptor.{Holds, move-Holds, open-Holds}
use linux_os.Programs.Opening.{open_directory}

-- The lines for `n` entries of the directory, from the index `i` on.
unfoldable pub listing : FileSystem → ℕ → ℕ → List ℕ
listing fs zero i = []
listing fs (suc n) i = name_of fs i 32 ++ (10 ∷ listing fs n (i + 1))

append_assoc_newline : (a b : List ℕ) → (a ++ (10 ∷ [])) ++ b ≡ a ++ (10 ∷ b)
append_assoc_newline [] b = refl
append_assoc_newline (c ∷ a) b = ap (λ s. c ∷ s) (append_assoc_newline a b)

-- The newline goes behind the bytes that were placed.
take-set :
    (out bytes : List ℕ)
    → length out < length bytes
    → take (length out + 1) (set (placed out bytes) (length out) 10) ≡ out ++ (10 ∷ [])
take-set out bytes h =
    go out (drop (length out) bytes) (omega (arith, length-drop (length out) bytes))
  where
    go :
        (out rest : List ℕ)
        → 0 < length rest
        → take (length out + 1) (set (out ++ rest) (length out) 10) ≡ out ++ (10 ∷ [])
    go [] [] lt = absurd (omega arith)
    go [] (x ∷ rest) lt = refl
    go (c ∷ out) rest lt =
        let next : length (c ∷ out) + 1 ≡ suc (length out + 1) = omega arith in
        ap (λ n. take n (set (c ∷ (out ++ rest)) (length (c ∷ out)) 10)) next
        ∙ ap (λ s. c ∷ s) (go out rest lt)

read_eq :
    (r : Read) (name : List ℕ)
    → r.out ≡ name
    → r.ret ≡ length r.out
    → r ≡ record { ret = length name; out = name }
read_eq r name e count = ap₂ as_read (count ∙ ap (λ (s : List ℕ). length s) e) e
  where
    as_read : ℕ → List ℕ → Read
    as_read n s = record { ret = n; out = s }

name-short : (fs : FileSystem) (i : ℕ) → length (name_of fs i 32) ≤ 32
name-short fs i = omega (arith, length-text 32 (entries fs i).name)

module _ (buf : ℕ) (env : ℕ → Interrupts) (b : buf ≢ 0) where
  -- The read of an entry.
  read_entry :
      (now : Interrupts) (k : Kernel) (fd inode i : ℕ)
      → Holds Fops.dir_fops k fd inode i
      → i < 63
      → let name = name_of k.fs i 32 in
        syscall_read now k fd buf 32
        ≡ returns (length name) name (
            with_fd k fd (record ((current k).fd fd) {
              file_position = if length name == 0 then i else i + 1;
            }))
  read_entry now k fd inode i on lt =
      let d = (current k).fd fd in
      let name = name_of k.fs i 32 in
      let next : ℕ = if length name == 0 then i else i + 1 in
      let (bytes, count, _, _) = directory_read_lem k.fs i buf 32 lt b in
      let small = name-short k.fs i in
      let entry : directory_read k.fs i buf 32 ≡ record { ret = length name; out = name } =
        read_eq (directory_read k.fs i buf 32) name bytes count in
      let place : (if is_positive (length name) then u32 (i + 1) else i) ≡ next =
        ground (arith, small) in
      let read : dir_read k.fs d.inode d.file_position buf 32
          ≡ (record { ret = length name; out = name }, next) =
        ap (λ q. dir_read k.fs d.inode q buf 32) on.position
        ∙ (unfold dir_read in rw (entry, place) refl) in
      let range : (ltb 7 fd || fd == 1) ≡ false = ground (arith, on.low, on.high) in
      let in_use : (d.flags == 0) ≡ false = ground (arith, on.used) in
      let dispatch : syscall_read now k fd buf 32 ≡ run_read now k fd d buf 32 d.fops_table =
        (unfold syscall_read in rw (range, in_use) refl) in
      let of_directory : run_read now k fd d buf 32 (some Fops.dir_fops)
          ≡ moved k fd d (record { ret = length name; out = name }, next) =
        (unfold run_read in ap (moved k fd d) read) in
      dispatch ∙ ap (run_read now k fd d buf 32) on.table ∙ of_directory ∙ (unfold moved in refl)

  module _ (next : List ℕ → Kernel → Run) (bytes out : List ℕ) (k : Kernel) where
    entry_done :
        length out ≡ 0 → ls_entry buf env next bytes (returns (length out) out k) ≡ some (0, k)
    unfolding ls_entry
    entry_done e = let stop : (length out == 0) ≡ true = ground arith in rw stop refl

    entry_shown :
        HasOutput k
        → length out < length bytes
        → length bytes ≡ 33
        → length out ≢ 0
        → ls_entry buf env next bytes (returns (length out) out k)
          ≡ next
              (set (placed out bytes) (length out) 10)
              (record k { terminals = shown (out ++ (10 ∷ [])) k.terminals })
    unfolding ls_entry
    entry_shown output short size some_left =
        let more : (length out == 0) ≡ false = ground arith in
        let good : (length out == minus_one) ≡ false = ground arith in
        let held = set (placed out bytes) (length out) 10 in
        rw (more, good)
          (write_out_lem (next held) k (out ++ (10 ∷ [])) held (length out + 1) output
            (take-set out bytes short) (omega (arith, length-append out (10 ∷ []), short, size)))

  -- A round of the loop, behind its read.
  round :
      (rounds fd inode i q : ℕ) (bytes : List ℕ) (k : Kernel)
      → Holds Fops.dir_fops k fd inode i
      → i < 63
      → (if length (name_of k.fs i 32) == 0 then i else i + 1) ≡ q
      → let name = name_of k.fs i 32 in
        ls_loop buf env (suc rounds) fd bytes k
        ≡ ls_entry buf env (ls_loop buf env rounds fd) bytes (
            returns
              (length name)
              name
              (with_fd k fd (record ((current k).fd fd) { file_position = q })))
  unfolding ls_loop
  round rounds fd inode i q bytes k on lt place =
      ap (ls_entry buf env (ls_loop buf env rounds fd) bytes) (
        read_entry (env rounds) k fd inode i on lt
        ∙ ap
            (λ p.
              returns (length (name_of k.fs i 32)) (name_of k.fs i 32)
                (with_fd k fd (record ((current k).fd fd) { file_position = p })))
            place)

  ls_loop_lem :
      (n rounds fd inode i : ℕ) (bytes : List ℕ) (k : Kernel)
      → Holds Fops.dir_fops k fd inode i
      → i + n < 63
      → ((j : ℕ) → i ≤ j → j < i + n → 0 < length (name_of k.fs j 32))
      → length (name_of k.fs (i + n) 32) ≡ 0
      → length bytes ≡ 33
      → n < rounds
      → (k' : Kernel) × (ls_loop buf env rounds fd bytes k ≡ some (0, k'))
        × (k'.terminals ≡ shown (listing k.fs n i) k.terminals)
  ls_loop_lem n zero fd inode i bytes k on small named last size enough = absurd (omega arith)
  ls_loop_lem zero (suc rounds) fd inode i bytes k on small named last size enough =
      let end : length (name_of k.fs i 32) ≡ 0 =
        ap (λ j. length (name_of k.fs j 32)) (omega arith) ∙ last in
      (
        _,
        round rounds fd inode i i bytes k on (omega arith) (ground arith)
            ∙ entry_done (ls_loop buf env rounds fd) bytes (name_of k.fs i 32) _ end,
        unfold listing terminal_write in refl,
      )
  ls_loop_lem (suc n) (suc rounds) fd inode i bytes k on small named last size enough =
      let rest : (k' : Kernel) × (ls_loop buf env rounds fd held k2 ≡ some (0, k'))
          × (k'.terminals ≡ shown (listing k.fs n (i + 1)) k2.terminals) =
        ls_loop_lem n rounds fd inode (i + 1) held k2
          (move-Holds Fops.dir_fops k fd inode i (i + 1) _ on) (omega arith)
          (λ j lo hi. named j (omega arith) (omega arith))
          (ap (λ j. length (name_of k.fs j 32)) (omega arith) ∙ last) held_size (omega arith) in
      (
        rest.0,
        round rounds fd inode i (i + 1) bytes k on (omega arith) (rw full refl)
            ∙ entry_shown (ls_loop buf env rounds fd) bytes name k1 output
                (omega (arith, short, size)) size (λ e. absurd (omega (arith, some_left, e)))
            ∙ rest.1,
        rest.2
            ∙ sym (shown-append (name ++ (10 ∷ [])) (listing k.fs n (i + 1)) k.terminals)
            ∙ ap (λ s. shown s k.terminals) lines,
      )
    where
      name : List ℕ
      name = name_of k.fs i 32

      some_left : 0 < length name
      some_left = named i (omega arith) (omega arith)

      full : (length name == 0) ≡ false
      full = ground (arith, some_left)

      short : length name ≤ 32
      short = name-short k.fs i

      k1 : Kernel
      k1 = with_fd k fd (record ((current k).fd fd) { file_position = i + 1 })

      k2 : Kernel
      k2 = record k1 { terminals = shown (name ++ (10 ∷ [])) k.terminals }

      output : HasOutput k1
      output = (move-Holds Fops.dir_fops k fd inode i (i + 1) k.terminals on).output

      held : List ℕ
      held = set (placed name bytes) (length name) 10

      held_size : length held ≡ 33
      held_size =
          length-set (placed name bytes) (length name) 10
          ∙ length-append name (drop (length name) bytes)
          ∙ omega (arith, length-drop (length name) bytes, short, size)

      lines : (name ++ (10 ∷ [])) ++ listing k.fs n (i + 1) ≡ listing k.fs (suc n) i
      lines = append_assoc_newline name (listing k.fs n (i + 1)) ∙ (unfold listing in refl)

-- `ls` shows the names of the directory, in order and each on its own line, and ends with 0. The
-- directory is named ".", its `n` first entries have names and the next has none, `n` is below 63,
-- and a descriptor is free.
pub ls_lem :
    (buf dot : ℕ) (env : ℕ → Interrupts) (rounds n fd : ℕ) (bytes : List ℕ) (dentry : Dentry)
    (k : Kernel)
    → buf ≢ 0
    → dot ≢ 0
    → length bytes ≡ 33
    → read_dentry_by_name k.fs (b'.' ∷ []) 1 ≡ some dentry
    → dentry.type ≡ 1
    → find_fd 6 2 (current k).fd ≡ some fd
    → ((current k).fd fd).file_position ≡ 0
    → HasOutput k
    → n < 63
    → ((j : ℕ) → j < n → 0 < length (name_of k.fs j 32))
    → length (name_of k.fs n 32) ≡ 0
    → n < rounds
    → (k' : Kernel) × (ls buf env dot rounds bytes k ≡ some (0, k'))
      × (k'.terminals ≡ shown (listing k.fs n 0) k.terminals)
ls_lem buf dot env rounds n fd bytes dentry k b d size found directory free start output small named
      last enough =
    let (low, high, _, _) = find_fd-some 6 2 (current k).fd fd free in
    let real : (fd == minus_one) ≡ false = ground arith in
    let on = open-Holds Fops.dir_fops k fd dentry.inode free start output in
    let (k', goes, terminals) =
      ls_loop_lem buf env b n rounds fd dentry.inode 0 bytes _ on (omega arith)
        (λ j lo hi. named j (omega arith))
        (ap (λ j. length (name_of k.fs j 32)) (omega arith) ∙ last) size enough in
    (
      k',
      (unfold ls in
          rw (open_directory k dot fd (b'.' ∷ []) dentry d (suc-ne-zero 45) free found directory)
            (unfold ls_opened in rw real goes)),
      terminals,
    )
