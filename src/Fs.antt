-- ===== src/Fs.antt =====
-- The file system of student-distrib/fs_module.c over the memory that holds its image. The packed
-- structs of fs_module.h are read at their offsets from `boot_block`.
-- A result of type `int32_t` is its bit pattern, so -1 is `minus_one`. A `dentry_t*` out-parameter is
-- the `Option` that is returned, `none` for -1. Unsigned arithmetic wraps, pointer arithmetic does not.
pub mod Name
pub mod Bytes
pub mod Copy
pub mod Data
pub mod File
pub mod Dir
use linux_os.Prelude.{
  ℕ, zero, suc, ◌+◌, ◌-◌, ◌*◌, ◌/◌, ◌%◌, Bool, true, false, Option, none, some, List, [], ◌∷◌, ◌++◌,
  ◌==◌, ltb, leb, if◌then◌else◌, Memory, u32, minus_one, bytes_at, load32, ◌&&◌, length,
}
use linux_os.Prelude.Int.{is_zero}
use linux_os.Strings.{strlen, strncmp}

abbrev pub max_filename : ℕ
max_filename = 32

abbrev pub max_filecount : ℕ
max_filecount = 63

pub record Dentry : Type 0 where
  pub name : List ℕ
  pub type : ℕ
  pub inode : ℕ
  pub reserved : List ℕ

-- The global `boot_block` and the memory that it points into.
pub record FileSystem : Type 0 where
  pub mem : Memory
  pub boot_block : ℕ

unfoldable pub fs_init : Memory → ℕ → FileSystem
fs_init mem module_start = record { mem = mem; boot_block = module_start }

-- The fields of `boot_block_t`.
unfoldable pub dir_entries : FileSystem → ℕ
dir_entries fs = load32 fs.mem fs.boot_block

unfoldable pub inode_count : FileSystem → ℕ
inode_count fs = load32 fs.mem (fs.boot_block + 4)

unfoldable pub entry_addr : FileSystem → ℕ → ℕ
entry_addr fs i = fs.boot_block + 64 + 64 * i

unfoldable pub entries : FileSystem → ℕ → Dentry
entries fs i =
    let p = entry_addr fs i in
    record {
      name = bytes_at fs.mem p 32;
      type = load32 fs.mem (p + 32);
      inode = load32 fs.mem (p + 36);
      reserved = bytes_at fs.mem (p + 40) 24;
    }

-- "fname_length + 1 to account for terminating 0x0", on every round up to the limit.
unfoldable pub next_length : ℕ → ℕ
next_length fname_length = if ltb fname_length max_filename then fname_length + 1 else fname_length

-- The loop of `read_dentry_by_name`: `rounds` entries are left, from `i` on.
unfoldable pub find_dentry : FileSystem → List ℕ → ℕ → ℕ → ℕ → Option Dentry
unfolding next_length
find_dentry fs fname zero i fname_length = none
find_dentry fs fname (suc rounds) i fname_length =
    let len = next_length fname_length in
    let rest = find_dentry fs fname rounds (i + 1) len in
    if is_zero (strncmp fname (entries fs i).name len) then some (entries fs i) else rest

-- `dentry` is the address that is passed, 0 for NULL.
unfoldable pub read_dentry_by_name : FileSystem → List ℕ → ℕ → Option Dentry
unfolding find_dentry
read_dentry_by_name fs fname dentry =
    if ltb max_filename (strlen fname)
    then none
    else if dentry == 0
    then none
    else find_dentry fs fname max_filecount 0 (strlen fname)

unfoldable pub read_dentry_by_index : FileSystem → ℕ → ℕ → Option Dentry
read_dentry_by_index fs index dentry =
    if dentry == 0
    then none
    else if leb (dir_entries fs) index
    then none
    else some (entries fs index)

-- The fields of the `inode_t` of an inode number: it lies `inode + 1` blocks behind the boot block.
unfoldable pub inode_addr : FileSystem → ℕ → ℕ
inode_addr fs inode = fs.boot_block + 4096 * u32 (inode + 1)

unfoldable pub inode_length : FileSystem → ℕ → ℕ
inode_length fs inode = load32 fs.mem (inode_addr fs inode)

unfoldable pub data_block : FileSystem → ℕ → ℕ → ℕ
data_block fs inode i = load32 fs.mem (inode_addr fs inode + 4 + 4 * i)

unfoldable pub data_location : FileSystem → ℕ → ℕ
data_location fs block = fs.boot_block + 4096 * u32 (inode_count fs + block + 1)

-- What a read returns, and the bytes that it placed at `buf`.
pub record Read : Type 0 where
  pub ret : ℕ
  pub out : List ℕ

abbrev pub failed : Read
failed = record { ret = minus_one; out = [] }

-- The variables of `read_data` that its loop reads. `length` is already cut back.
pub record Span : Type 0 where
  pub inode : ℕ
  pub offset : ℕ
  pub length : ℕ
  pub first_block : ℕ
  pub last_block : ℕ

-- The offsets at which the copy of block `i` starts and ends.
unfoldable pub start_offset : Span → ℕ → ℕ
start_offset s i = if i == s.first_block then s.offset % 4096 else 0

unfoldable pub end_offset : Span → ℕ → ℕ
end_offset s i = if i == s.last_block then u32 (s.offset + s.length) % 4096 else 4096

-- "if invalid last block, quit out before copying"
unfoldable pub quits : FileSystem → Span → ℕ → Bool
quits fs s i = (i == s.last_block) && ltb (inode_length fs s.inode) (u32 (s.last_block * 4096))

-- `memcpy` takes its count as unsigned.
unfoldable pub chunk_len : Span → ℕ → ℕ
unfolding start_offset end_offset
chunk_len s i = u32 (end_offset s i + 4294967296 - start_offset s i)

unfoldable pub chunk : FileSystem → Span → ℕ → List ℕ
chunk fs s i =
    bytes_at fs.mem (data_location fs (data_block fs s.inode i) + start_offset s i) (chunk_len s i)

-- The loop over the blocks: `rounds` are left, from `i` on.
unfoldable pub copy_blocks : FileSystem → Span → ℕ → ℕ → Read → Read
copy_blocks fs s zero i r = r
copy_blocks fs s (suc rounds) i r =
    let rest =
      copy_blocks fs s rounds (i + 1)
        (record { ret = u32 (r.ret + chunk_len s i); out = r.out ++ chunk fs s i }) in
    if quits fs s i then r else rest

unfoldable pub read_data : FileSystem → ℕ → ℕ → ℕ → ℕ → Read
unfolding copy_blocks
read_data fs inode offset buf length =
    let first = offset / 4096 in
    let last = u32 (offset + length) / 4096 in
    let size = inode_length fs inode in
    let cut =
      if ltb size (u32 (offset + length)) then u32 (size + 4294967296 - offset) else length in
    let span : Span = record {
      inode = inode;
      offset = offset;
      length = cut;
      first_block = first;
      last_block = last;
    } in
    if buf == 0
    then failed
    else if leb (inode_count fs) inode
    then failed
    else if leb size offset
    then record { ret = 0; out = [] }
    else copy_blocks fs span (last + 1 - first) first (record { ret = 0; out = [] })

-- `file_open` and `dir_open` have the same body: the inode to store, or `none` for -1.
unfoldable pub file_open : FileSystem → List ℕ → Option ℕ
file_open fs filename = elim (read_dentry_by_name fs filename 1) [
  | none ↦ none
  | some f ↦ some f.inode
]

unfoldable pub dir_open : FileSystem → List ℕ → Option ℕ
dir_open fs filename = elim (read_dentry_by_name fs filename 1) [
  | none ↦ none
  | some f ↦ some f.inode
]

-- The inode that is stored, and the value returned.
unfoldable pub file_close : ℕ → ℕ × ℕ
file_close inode = (0, 0)

unfoldable pub dir_close : ℕ → ℕ × ℕ
dir_close inode = (0, 0)

unfoldable pub file_write : ℕ → ℕ → ℕ → ℕ → ℕ
file_write inode offset buf len = minus_one

unfoldable pub dir_write : ℕ → ℕ → ℕ → ℕ → ℕ
dir_write inode offset buf len = minus_one

-- `result > 0` for a signed 32-bit result.
abbrev pub is_positive : ℕ → Bool
is_positive result = ltb 0 result && ltb result 2147483648

-- What `file_read` returns, and the file position that it leaves.
unfoldable pub file_read : FileSystem → ℕ → ℕ → ℕ → ℕ → Read × ℕ
file_read fs inode offset buf len =
    let r = read_data fs inode offset buf len in
    (r, (if is_positive r.ret then u32 (offset + r.ret) else offset))

-- The `strlen` of an entry's name goes on past its 32 bytes into the rest of the entry, which holds
-- a zero where the type is below 2 ^ 24.
unfoldable pub name_length : FileSystem → ℕ → ℕ
name_length fs i = strlen (bytes_at fs.mem (entry_addr fs i) 64)

-- "Limit length to max file name length" and "to file name length".
unfoldable pub name_count : FileSystem → ℕ → ℕ → ℕ
name_count fs offset len =
    let cut = if ltb max_filename len then max_filename else len in
    if ltb (name_length fs offset) cut then name_length fs offset else cut

unfoldable pub directory_read : FileSystem → ℕ → ℕ → ℕ → Read
directory_read fs offset buf len =
    if leb max_filecount offset then failed else if buf == 0 then failed else record {
      ret = name_count fs offset len;
      out = bytes_at fs.mem (entry_addr fs offset) (name_count fs offset len);
    }

unfoldable pub dir_read : FileSystem → ℕ → ℕ → ℕ → ℕ → Read × ℕ
dir_read fs inode offset buf len =
    let r = directory_read fs offset buf len in
    (r, (if is_positive r.ret then u32 (offset + 1) else offset))
