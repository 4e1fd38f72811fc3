-- ===== src/Paging/Map.antt =====
-- What the routines of student-distrib/paging.c map, read off the entries that they write.
use linux_os.Prelude.{
  ◌∙◌, ℕ, zero, suc, ◌+◌, ◌*◌, ◌/◌, ◌%◌, ◌<◌, ◌≡◌, ◌≢◌, refl, true, ◌==◌, bit_or, arith,
  if◌then◌else◌, update, leb, ltb, ◌&&◌, false,
}
use linux_os.Paging.{
  Paging, init_entries, map_entries, syscall_paging_setup, videomem_map, videomem_unmap,
}
use linux_os.Paging.Entries.{HasFlags, frame, flag, user_page, user_table}

-- One round of the loop of `paging_init`.
abbrev next : ℕ → Paging → Paging
next i s = record s {
  page_directory = update s.page_directory i 0x2;
  page_table =
      update s.page_table i (if i == 0xb8 then bit_or (i * 4096) 0x3 else bit_or (i * 4096) 0x2);
}

-- `syscall_paging_setup` makes the 4 MB at 128 MB a present, writable user page on the frame given,
-- and changes no other entry.
pub syscall_paging_setup_lem :
    (addr : ℕ) (s : Paging)
    → addr % 4096 ≡ 0
    → let t = syscall_paging_setup addr s in
      HasFlags (t.page_directory 32) 1 1 1
      × (frame (t.page_directory 32) ≡ addr)
      × ((i : ℕ) → i ≢ 32 → t.page_directory i ≡ s.page_directory i)
      × (t.page_table ≡ s.page_table)
      × (t.video_page ≡ s.video_page)
unfolding syscall_paging_setup
syscall_paging_setup_lem addr s a =
    let (flags, at) = user_page addr a in (flags, at, λ i h. ground arith, refl, refl)

-- The loop of `videomem_map` writes the entries from `j` on.
map_entries_lem :
    (n j physical : ℕ) (s : Paging) (i : ℕ)
    → (map_entries n j physical s).video_page i ≡ (
        if leb j i && ltb i (j + n)
        then (if i == 0 then bit_or physical 0x7 else 0x2)
        else s.video_page i)
unfolding map_entries
map_entries_lem zero j physical s i = ground arith
map_entries_lem (suc n) j physical s i = ground (
  arith,
  map_entries_lem n (j + 1) physical
      (record s {
        video_page = update s.video_page j (if j == 0 then bit_or physical 0x7 else 0x2);
      })
      i,
)

map_entries_rest :
    (n j physical : ℕ) (s : Paging) → (map_entries n j physical s).page_directory ≡ s.page_directory
unfolding map_entries
map_entries_rest zero j physical s = refl
map_entries_rest (suc n) j physical s =
    map_entries_rest n (j + 1) physical (record s {
      video_page = update s.video_page j (if j == 0 then bit_or physical 0x7 else 0x2);
    })

-- The entries of the video table that the loop of `videomem_map` leaves.
video_entries :
    (physical : ℕ) (s : Paging) (j : ℕ)
    → j < 1024
    → (map_entries 1024 0 physical s).video_page j ≡ (if j == 0 then bit_or physical 0x7 else 0x2)
video_entries physical s j h =
    let inside : leb 0 j && ltb j (0 + 1024) ≡ true = ground arith in
    map_entries_lem 1024 0 physical s j ∙ rw inside

-- `videomem_map` makes exactly the first page behind the virtual address a user page, on the
-- physical address, in a table at `video_page`; the directory's other entries stay. Both addresses
-- are 4 KB aligned.
pub videomem_map_lem :
    (virtual physical : ℕ) (s : Paging)
    → physical % 4096 ≡ 0
    → s.video_page_addr % 4096 ≡ 0
    → let t = videomem_map virtual physical s in
      HasFlags (t.page_directory (virtual / 0x400000)) 1 1 0
      × (frame (t.page_directory (virtual / 0x400000)) ≡ s.video_page_addr)
      × HasFlags (t.video_page 0) 1 1 0
      × (frame (t.video_page 0) ≡ physical)
      × ((j : ℕ) → 0 < j → j < 1024 → flag (t.video_page j) 0 ≡ 0)
      × ((i : ℕ) → i ≢ virtual / 0x400000 → t.page_directory i ≡ s.page_directory i)
unfolding videomem_map
videomem_map_lem virtual physical s p v =
    let k = virtual / 0x400000 in
    let pointed : Paging = record s {
      page_directory = update s.page_directory k (bit_or s.video_page_addr 0x7);
    } in
    let directory = map_entries_rest 1024 0 physical pointed in
    let here : (k == k) ≡ true = ground arith in
    let (flags, at) = user_table s.video_page_addr v in
    let (flags', at') = user_table physical p in
    let first = video_entries physical pointed 0 (omega arith) in
    let entry : (map_entries 1024 0 physical pointed).page_directory k
        ≡ bit_or s.video_page_addr 0x7 =
      rw (directory, here) in
    (
      rw entry flags,
      rw entry at,
      rw first flags',
      rw first at',
      λ j lo hi.
          (let other : (j == 0) ≡ false = ground arith in
            rw (video_entries physical pointed j hi, other)),
      λ i h. (let other : (i == k) ≡ false = ground arith in rw (directory, other)),
    )

-- `videomem_unmap` of the same address takes the first page and the directory's entry away again.
pub videomem_unmap_lem :
    (virtual physical : ℕ) (s : Paging)
    → let t = videomem_unmap virtual physical (videomem_map virtual physical s) in
      (flag (t.page_directory (virtual / 0x400000)) 0 ≡ 0)
      × ((j : ℕ) → j < 1024 → flag (t.video_page j) 0 ≡ 0)
      × ((i : ℕ) → i ≢ virtual / 0x400000 → t.page_directory i ≡ s.page_directory i)
unfolding videomem_map videomem_unmap
videomem_unmap_lem virtual physical s =
    let k = virtual / 0x400000 in
    let pointed : Paging = record s {
      page_directory = update s.page_directory k (bit_or s.video_page_addr 0x7);
    } in
    let directory = map_entries_rest 1024 0 physical pointed in
    let here : (k == k) ≡ true = ground arith in
    (
      rw here,
      λ j h. ground (arith, video_entries physical pointed j h),
      λ i h. (let other : (i == k) ≡ false = ground arith in rw (other, directory, other)),
    )

init_directory :
    (n i : ℕ) (s : Paging) (j : ℕ)
    → (init_entries n i s).page_directory j
      ≡ (if leb i j && ltb j (i + n) then 0x2 else s.page_directory j)
unfolding init_entries
init_directory zero i s j = ground arith
init_directory (suc n) i s j = ground (arith, init_directory n (i + 1) (next i s) j)
