-- ===== src/Emulation.antt =====
-- syscalls/ece391emulate.c (fish/ece391emulate.c is a copy): the kernel's system calls for user
-- programs on a host system. What the host answers is a parameter. A string is a list of bytes that
-- ends at its first 0 or at the end of the list.
pub mod Words
pub mod Arguments
pub mod Listing
use linux_os.Prelude.{
  ℕ, zero, suc, ◌+◌, ◌-◌, ◌^◌, Bool, true, false, List, [], ◌∷◌, ◌++◌, Option, none, some, ◌==◌,
  ltb, ◌||◌, ◌&&◌, if◌then◌else◌, minus_one, length, take, replicate, min,
}
use linux_os.Prelude.Int.{is_zero}
use linux_os.Strings.{head_or, tail_of}
use linux_os.Command.{Taken, ends_name, skip_spaces}
use linux_os.Support.{ece391_strlen, ece391_strcmp}

-- Execute: the scan of a word to its end.
unfoldable pub scan_word : List ℕ → Taken
scan_word [] = record { word = []; left = [] }
scan_word (c ∷ s) =
    let rest = scan_word s in
    if ends_name c
    then record { word = []; left = c ∷ s }
    else record { word = c ∷ rest.word; left = rest.left }

-- Behind a word: its end is overwritten by a NUL, unless it is one.
unfoldable pub step_over : List ℕ → List ℕ
step_over left = if head_or left == 0 then left else tail_of left

-- The loop for the arguments; `rounds` bounds them.
unfoldable pub scan_args : ℕ → List ℕ → List (List ℕ)
scan_args zero s = []
scan_args (suc rounds) s =
    let scan = skip_spaces s in
    let found = scan_word scan in
    let rest = scan_args rounds (step_over found.left) in
    if head_or scan == 0 || head_or scan == 10 then [] else found.word ∷ rest

-- The strings of `args` before its NULL. The text is in `buf` behind "./".
unfoldable pub command_args : List ℕ → List (List ℕ)
command_args command =
    let found = scan_word command in
    let rest = scan_args (length command) (tail_of found.left) in
    (b'.' ∷ b'/' ∷ found.word) ∷ (if head_or found.left == 0 then [] else rest)

-- How the child ended.
pub data Status : Type 0 where
  exited : ℕ → Status
  signalled : ℕ → Status

-- A failing `execv` comes back, and the child kills itself by the signal 9.
unfoldable pub child_status : Option Status → Status
child_status (some status) = status
child_status none = signalled 9

unfoldable pub status_value : Status → ℕ
status_value (exited code) = code
status_value (signalled signal) = if signal == 9 then minus_one else 256

-- `execv` is the host's: what it runs, and how the program that it starts ends.
unfoldable pub ece391_execute : (List ℕ → List (List ℕ) → Option Status) → List ℕ → ℕ
unfolding child_status
ece391_execute execv command =
    let path = b'.' ∷ b'/' ∷ (scan_word command).word in
    if ltb 1023 (ece391_strlen command)
    then minus_one
    else status_value (child_status (execv path (command_args command)))

-- Getargs: the bytes stored at `buf`, and whether the result is 0.
pub record Stored : Type 0 where
  pub bytes : List ℕ
  pub good : Bool

-- Behind the last argument; the NUL is there already when the text came by a copy.
unfoldable pub close_args : ℕ → Stored
close_args nbytes =
    if ltb nbytes 1
    then record { bytes = []; good = false }
    else record { bytes = 0 ∷ []; good = true }

-- One copy: its NUL is overwritten by what is stored behind it.
unfoldable pub store_copy : List ℕ → Stored → Stored
store_copy arg rest = record {
  bytes = take (ece391_strlen arg) arg ++ elim rest.bytes [ [] ↦ 0 ∷ [] | c ∷ cs ↦ c ∷ cs ];
  good = rest.good;
}

-- The loop over `argv[1]` to `argv[argc - 1]`. A negative `nbytes` acts as 0.
unfoldable pub store_args : List (List ℕ) → ℕ → Stored
unfolding close_args store_copy
store_args [] nbytes = close_args nbytes
store_args (arg ∷ []) nbytes =
    let len = ece391_strlen arg in
    if ltb nbytes len
    then record { bytes = []; good = false }
    else store_copy arg (close_args (nbytes - len))
store_args (arg ∷ (next ∷ args)) nbytes =
    let len = ece391_strlen arg in
    let rest = store_args (next ∷ args) (nbytes - len - 1) in
    if ltb nbytes len
    then record { bytes = []; good = false }
    else if ltb (nbytes - len) 1
    then store_copy arg (record { bytes = []; good = false })
    else store_copy arg (record { bytes = 32 ∷ rest.bytes; good = rest.good })

unfoldable pub ece391_getargs : List (List ℕ) → ℕ → Stored
ece391_getargs [] nbytes = store_args [] nbytes
ece391_getargs (name ∷ args) nbytes = store_args args nbytes

-- The static variables: `dir` with the names that `readdir` still gives, `dir_fd` and `mem_fd`.
pub record Emulated : Type 0 where
  pub dir : Option (List (List ℕ))
  pub dir_fd : ℕ
  pub mem_fd : ℕ

abbrev pub initial_emulated : Emulated
initial_emulated = record { dir = none; dir_fd = minus_one; mem_fd = minus_one }

-- A result of the host's system call above 0xFFFFC000 is an error number.
unfoldable pub host_result : ℕ → ℕ
host_result rval = if ltb 4294950912 rval then minus_one else rval

-- Open: `names` is what `opendir` gives, `null_fd` what the open of /dev/null gives and `rval` what
-- the host's open of the file gives.
unfoldable pub ece391_open : Option (List (List ℕ)) → ℕ → ℕ → List ℕ → Emulated → ℕ × Emulated
unfolding host_result
ece391_open names null_fd rval filename s =
    if is_zero (ece391_strcmp filename (b'.' ∷ []))
    then (null_fd, record s { dir = names; dir_fd = null_fd })
    else (host_result rval, s)

-- The zeros behind a name; `nbytes` and `copied` are compared as signed numbers.
unfoldable pub pad_name : ℕ → ℕ → List ℕ
pad_name nbytes copied = replicate (min (if ltb nbytes (2 ^ 31) then nbytes else 0) 32 - copied) 0

-- The bytes stored from a name on.
unfoldable pub copy_name : ℕ → List ℕ → ℕ → List ℕ
unfolding pad_name
copy_name nbytes [] copied = pad_name nbytes copied
copy_name nbytes (c ∷ name) copied =
    let rest = copy_name nbytes name (copied + 1) in
    if c == 0
    then pad_name nbytes copied
    else c ∷ (if (copied + 1 == nbytes) || (copied + 1 == 32) then [] else rest)

-- A read of the directory gives the number of the bytes stored; a read of another file is the host's,
-- `host fd nbytes`.
unfoldable pub ece391_read : (ℕ → ℕ → ℕ × List ℕ) → ℕ → ℕ → Emulated → ℕ × List ℕ × Emulated
unfolding copy_name host_result
ece391_read host fd nbytes s = elim s.dir [
  | none ↦ (host_result (host fd nbytes).0, (host fd nbytes).1, s)
  | some [] ↦
      if s.dir_fd == fd then (0, [], s) else (host_result (host fd nbytes).0, (host fd nbytes).1, s)
  | some (name ∷ names) ↦
      let stored = copy_name nbytes name 0 in
      if s.dir_fd == fd
      then (length stored, stored, record s { dir = some names })
      else (host_result (host fd nbytes).0, (host fd nbytes).1, s)
]

-- `dir` is not NULL and `fd` is its descriptor.
unfoldable pub is_directory : ℕ → Emulated → Bool
is_directory fd s = elim s.dir [ none ↦ false | some names ↦ s.dir_fd == fd ]

unfoldable pub ece391_write : (ℕ → List ℕ → ℕ → ℕ) → ℕ → List ℕ → ℕ → Emulated → ℕ
unfolding is_directory host_result
ece391_write host fd buf nbytes s =
    if is_directory fd s then minus_one else host_result (host fd buf nbytes)

unfoldable pub ece391_close : (ℕ → ℕ) → ℕ → Emulated → ℕ × Emulated
unfolding is_directory host_result
ece391_close host fd s =
    if is_directory fd s
    then (0, record s { dir = none; dir_fd = minus_one })
    else (host_result (host fd), s)

-- Vidmap: `opened` is what the open of /dev/mem gives, `mmap` maps the memory of a descriptor. The
-- screen of the machine is at 0xB8000.
unfoldable pub ece391_vidmap : ℕ → (ℕ → Option ℕ) → Emulated → Option ℕ × Emulated
ece391_vidmap opened mmap s =
    let fd = if s.mem_fd == minus_one then opened else s.mem_fd in
    (elim (mmap fd) [ none ↦ none | some image ↦ some (image + 753664) ], record s { mem_fd = fd })
