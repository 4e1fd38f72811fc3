-- ===== src/Emulation/Listing.antt =====
-- The directory of syscalls/ece391emulate.c, from `ece391_open` over the reads to `ece391_close`.
use linux_os.Prelude.{
  ◌∙◌, ℕ, zero, suc, ◌+◌, ◌-◌, ◌^◌, ◌<◌, ◌≡◌, refl, ap, List, [], ◌∷◌, none, some, true, false,
  ◌==◌, ltb, ◌||◌, arith, minus_one, length, take, replicate, min,
}
use linux_os.Strings.Compare.{All}
use linux_os.Support.{ece391_strcmp}
use linux_os.Emulation.{
  Emulated, pad_name, copy_name, ece391_open, ece391_read, ece391_close, is_directory,
}
use linux_os.Support.Text.{IsText}

-- A name in a field of `k` bytes: cut, or filled up with zeros.
abbrev pub field : ℕ → List ℕ → List ℕ
field zero name = []
field (suc k) [] = 0 ∷ field k []
field (suc k) (c ∷ name) = c ∷ field k name

pad_name_lem :
    (nbytes copied : ℕ)
    → nbytes < 2 ^ 31
    → pad_name nbytes copied ≡ replicate (min nbytes 32 - copied) 0
unfolding pad_name
pad_name_lem nbytes copied h =
    let small : ltb nbytes (2 ^ 31) ≡ true = ground arith in rw small refl

replicate-field : (n : ℕ) → replicate n 0 ≡ field n []
replicate-field zero = refl
replicate-field (suc n) = ap (λ r. 0 ∷ r) (replicate-field n)

copy_name_lem :
    (nbytes room : ℕ) (name : List ℕ) (copied : ℕ)
    → nbytes < 2 ^ 31
    → IsText name
    → min nbytes 32 - copied ≡ suc room
    → copy_name nbytes name copied ≡ field (suc room) name
unfolding copy_name
copy_name_lem nbytes room [] copied small h e =
    rw (pad_name_lem nbytes copied small, e) (replicate-field (suc room))
copy_name_lem nbytes zero (c ∷ name) copied small h e =
    let printed : (c == 0) ≡ false = ground arith in
    let last : (copied + 1 == nbytes) || (copied + 1 == 32) ≡ true = ground arith in
    rw (printed, last) refl
copy_name_lem nbytes (suc room) (c ∷ name) copied small h e =
    let printed : (c == 0) ≡ false = ground arith in
    let goes : (copied + 1 == nbytes) || (copied + 1 == 32) ≡ false = ground arith in
    let ih = copy_name_lem nbytes room name (copied + 1) small h.1 (omega arith) in
    rw (printed, goes, ih) refl

length-field : (k : ℕ) (name : List ℕ) → length (field k name) ≡ k
length-field zero name = refl
length-field (suc k) [] = ap suc (length-field k [])
length-field (suc k) (c ∷ name) = ap suc (length-field k name)

-- One read of the directory.
read_entry :
    (host : ℕ → ℕ → ℕ × List ℕ) (fd nbytes mem_fd : ℕ) (name : List ℕ) (names : List (List ℕ))
    → 0 < nbytes
    → nbytes < 2 ^ 31
    → IsText name
    → ece391_read host fd nbytes
        (record { dir = some (name ∷ names); dir_fd = fd; mem_fd = mem_fd })
      ≡ (
        min nbytes 32,
        field (min nbytes 32) name,
        record { dir = some names; dir_fd = fd; mem_fd = mem_fd },
      )
unfolding ece391_read
read_entry host fd nbytes mem_fd name names pos small h =
    let own : (fd == fd) ≡ true = ground arith in
    let some_room : min nbytes 32 - 0 ≡ suc (min nbytes 32 - 1) = omega arith in
    let size : suc (min nbytes 32 - 1) ≡ min nbytes 32 = omega arith in
    let copied = copy_name_lem nbytes (min nbytes 32 - 1) name 0 small h some_room in
    let full : copy_name nbytes name 0 ≡ field (min nbytes 32) name =
      copied ∙ ap (λ k. field k name) size in
    rw (own, full, length-field (min nbytes 32) name) refl

read_end :
    (host : ℕ → ℕ → ℕ × List ℕ) (fd nbytes mem_fd : ℕ)
    → ece391_read host fd nbytes (record { dir = some []; dir_fd = fd; mem_fd = mem_fd })
      ≡ (0, [], record { dir = some []; dir_fd = fd; mem_fd = mem_fd })
unfolding ece391_read
read_end host fd nbytes mem_fd = let own : (fd == fd) ≡ true = ground arith in rw own refl

-- Reads of `nbytes` bytes, one after another: the results with the bytes stored, and the state.
unfoldable pub reads : (ℕ → ℕ → ℕ × List ℕ) → ℕ → ℕ → ℕ → Emulated → List (ℕ × List ℕ) × Emulated
reads host fd nbytes zero s = ([], s)
reads host fd nbytes (suc rounds) s =
    let (count, bytes, next) = ece391_read host fd nbytes s in
    let (others, end) = reads host fd nbytes rounds next in ((count, bytes) ∷ others, end)

abbrev pub listed : ℕ → List (List ℕ) → List (ℕ × List ℕ)
listed k [] = (0, []) ∷ []
listed k (name ∷ names) = (k, field k name) ∷ listed k names

reads_one :
    (host : ℕ → ℕ → ℕ × List ℕ) (fd nbytes rounds count : ℕ) (bytes : List ℕ) (s next : Emulated)
    → ece391_read host fd nbytes s ≡ (count, bytes, next)
    → reads host fd nbytes (suc rounds) s ≡ (
      (count, bytes) ∷ (reads host fd nbytes rounds next).0,
      (reads host fd nbytes rounds next).1,
    )
unfolding reads
reads_one host fd nbytes rounds count bytes s next e = rw e refl

reads_none :
    (host : ℕ → ℕ → ℕ × List ℕ) (fd nbytes : ℕ) (s : Emulated) → reads host fd nbytes 0 s ≡ ([], s)
unfolding reads
reads_none host fd nbytes s = refl

reads_lem :
    (host : ℕ → ℕ → ℕ × List ℕ) (fd nbytes mem_fd : ℕ) (names : List (List ℕ))
    → 0 < nbytes
    → nbytes < 2 ^ 31
    → All IsText names
    → reads host fd nbytes
        (suc (length names))
        (record { dir = some names; dir_fd = fd; mem_fd = mem_fd })
      ≡ (listed (min nbytes 32) names, record { dir = some []; dir_fd = fd; mem_fd = mem_fd })
reads_lem host fd nbytes mem_fd [] pos small h =
    rw
      (
        reads_one host fd nbytes 0 _ _ _ _ (read_end host fd nbytes mem_fd),
        reads_none host fd nbytes (record { dir = some []; dir_fd = fd; mem_fd = mem_fd }),
      )
      refl
reads_lem host fd nbytes mem_fd (name ∷ names) pos small h =
    rw
      (
        reads_one host fd nbytes (suc (length names)) _ _ _ _
            (read_entry host fd nbytes mem_fd name names pos small h.0),
        reads_lem host fd nbytes mem_fd names pos small h.1,
      )
      refl

-- A directory that is opened is read name by name, each cut or filled up with zeros to the length
-- asked for, 32 bytes at most, with that length as the result, then 0; its close succeeds and leaves
-- the state of a program without a directory, in which the descriptor is the host's.
pub close-reads-open :
    (host : ℕ → ℕ → ℕ × List ℕ) (close : ℕ → ℕ) (names : List (List ℕ)) (fd rval nbytes : ℕ)
    (s : Emulated)
    → 0 < nbytes
    → nbytes < 2 ^ 31
    → All IsText names
    → let opened = ece391_open (some names) fd rval (b'.' ∷ []) s in
      let done = reads host fd nbytes (suc (length names)) opened.1 in
      (opened.0 ≡ fd)
      × (done.0 ≡ listed (min nbytes 32) names)
      × (ece391_close close fd done.1 ≡ (0, record s { dir = none; dir_fd = minus_one }))
unfolding ece391_open ece391_close is_directory ece391_strcmp
close-reads-open host close names fd rval nbytes s pos small h =
    let all = reads_lem host fd nbytes s.mem_fd names pos small h in
    let own : (fd == fd) ≡ true = ground arith in (refl, rw all refl, rw (all, own) refl)

copy_zero :
    (name : List ℕ) (copied room : ℕ)
    → IsText name
    → copied + room ≡ 31
    → copy_name 0 name copied ≡ take (suc room) name
unfolding copy_name pad_name
copy_zero [] copied room h e = let empty : 0 - copied ≡ 0 = omega arith in rw empty refl
copy_zero (c ∷ name) copied zero h e =
    let printed : (c == 0) ≡ false = ground arith in
    let last : (copied + 1 == 0) || (copied + 1 == 32) ≡ true = ground arith in
    rw (printed, last) refl
copy_zero (c ∷ name) copied (suc room) h e =
    let printed : (c == 0) ≡ false = ground arith in
    let goes : (copied + 1 == 0) || (copied + 1 == 32) ≡ false = ground arith in
    rw (printed, goes, copy_zero name (copied + 1) room h.1 (omega arith)) refl

-- A request for 0 bytes stores the name all the same, 32 bytes of it at most: the count has passed 0
-- before it is compared with the request.
pub read_zero :
    (host : ℕ → ℕ → ℕ × List ℕ) (fd mem_fd : ℕ) (name : List ℕ) (names : List (List ℕ))
    → IsText name
    → ece391_read host fd 0 (record { dir = some (name ∷ names); dir_fd = fd; mem_fd = mem_fd }) ≡ (
      length (take 32 name),
      take 32 name,
      record { dir = some names; dir_fd = fd; mem_fd = mem_fd },
    )
unfolding ece391_read
read_zero host fd mem_fd name names h =
    let own : (fd == fd) ≡ true = ground arith in rw (own, copy_zero name 0 31 h (omega arith)) refl
