-- ===== src/Tests/Files.antt =====
-- Reads of the test image.
use native.Mathlib.Nat.{suc-ne-zero}
use linux_os.Prelude.{bytes_at, suc, ◌≢◌, ◌<◌, ◌≡◌, ◌-◌, refl, [], ◌∷◌, arith, length, load32}
use linux_os.Strings.{strlen}
use linux_os.Strings.Compare.{text}
use linux_os.Fs.{
  entries, entry_addr, read_data, inode_length, inode_count, inode_addr, read_dentry_by_name,
}
use linux_os.Fs.Bytes.{file_bytes}
use linux_os.Fs.Data.{read_data_lem, read_data_overrun, read_end}
use linux_os.Fs.Name.{read_dentry_by_name-IsFirst, IsFirst, IsMemory}
use linux_os.Fs.Dir.{name_of}
use linux_os.Tests.{disk, image}

disk_length : inode_length disk 0 ≡ 4104
unfolding inode_length load32 inode_addr
disk_length = refl

disk_inodes : inode_count disk ≡ 2
unfolding inode_count load32
disk_inodes = refl

image-IsMemory : IsMemory image
image-IsMemory p = ground arith

not_null : suc 0 ≢ 0
not_null = suc-ne-zero 0

read_data_example : read_data disk 0 4090 1 10 ≡ record {
  ret = read_end disk 0 4090 10 - 4090;
  out = file_bytes disk 0 4090 (read_end disk 0 4090 10 - 4090);
}
read_data_example =
    read_data_lem disk 0 4090 1 10 (omega arith) (omega (arith, disk_length))
      (omega (arith, disk_length)) not_null (omega (arith, disk_inodes))

read_data_overrun_example :
    (inode_length disk 0 - 4100 < (read_data disk 0 4100 1 5000).ret)
    × (length (read_data disk 0 4100 1 5000).out ≡ (read_data disk 0 4100 1 5000).ret)
read_data_overrun_example =
    read_data_overrun disk 0 4100 1 5000 (omega arith) (omega (arith, disk_length)) not_null
      (omega (arith, disk_inodes)) (omega (arith, disk_length)) (omega (arith, disk_length))

strlen_sh : strlen (115 ∷ 104 ∷ []) ≡ 2
unfolding strlen
strlen_sh = refl

read_dentry_by_name_example :
    IsFirst disk (115 ∷ 104 ∷ []) 0 63 (read_dentry_by_name disk (115 ∷ 104 ∷ []) 1)
read_dentry_by_name_example =
    read_dentry_by_name-IsFirst disk (115 ∷ 104 ∷ []) image-IsMemory
      (omega arith, (omega arith, tt)) 1 (omega (arith, strlen_sh)) not_null

first_named : 0 < length (name_of disk 0 32)
unfolding entries entry_addr bytes_at text
first_named = omega arith
