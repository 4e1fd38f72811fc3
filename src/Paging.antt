-- ===== src/Paging.antt =====
-- The page tables of student-distrib/paging.c: what each routine writes into the directory and the
-- two tables. An array of 1024 entries is the function that gives its entries.
pub mod Entries
pub mod Map
use linux_os.Prelude.{
  ℕ, zero, suc, ◌+◌, ◌*◌, ◌/◌, ◌%◌, Bool, List, [], ◌∷◌, ◌++◌, ltb, ◌==◌, if◌then◌else◌, bit_or,
  update,
}
use linux_os.Io.{Io, Trace}

abbrev pub one_k : ℕ
one_k = 1024

abbrev pub four_k : ℕ
four_k = 4096

abbrev pub four_m : ℕ
four_m = 0x400000

abbrev pub eight_m : ℕ
eight_m = 0x800000

abbrev pub video_mem_offset : ℕ
video_mem_offset = 0xb8

abbrev pub video_mem_addr : ℕ
video_mem_addr = 0xb8000

abbrev pub virtual_mem : ℕ
virtual_mem = 0x8000000

abbrev pub user_video : ℕ
user_video = 0x9400000

-- The three tables, the addresses at which the linker places two of them, and the flushes.
pub record Paging : Type 0 where
  pub page_directory : ℕ → ℕ
  pub page_table : ℕ → ℕ
  pub video_page : ℕ → ℕ
  pub page_table_addr : ℕ
  pub video_page_addr : ℕ
  pub trace : Trace

unfoldable pub flush_tlb : Paging → Paging
flush_tlb s = record s { trace = s.trace ++ (Io.flush_tlb ∷ []) }

-- The loop of `paging_init`: `rounds` are left, from entry `i` on.
unfoldable pub init_entries : ℕ → ℕ → Paging → Paging
init_entries zero i s = s
init_entries (suc rounds) i s = init_entries rounds (i + 1) (record s {
  page_directory = update s.page_directory i 0x2;
  page_table =
      update s.page_table i
        (if i == video_mem_offset then bit_or (i * four_k) 0x3 else bit_or (i * four_k) 0x2);
})

-- Loading the control registers, which ends `paging_init`, flushes the TLB.
unfoldable pub paging_init : Paging → Paging
unfolding flush_tlb
paging_init s =
    let filled = init_entries one_k 0 s in
    let first = update filled.page_directory 0 (bit_or filled.page_table_addr 0x3) in
    flush_tlb (record filled { page_directory = update first 1 (bit_or (one_k * four_k) 0x83) })

unfoldable pub syscall_paging_setup : ℕ → Paging → Paging
unfolding flush_tlb
syscall_paging_setup addr s = flush_tlb (record s {
  page_directory = update s.page_directory (virtual_mem / four_m) (bit_or addr 0x87);
})

-- The loop of `videomem_map`: `rounds` are left, from entry `j` on.
unfoldable pub map_entries : ℕ → ℕ → ℕ → Paging → Paging
map_entries zero j physical s = s
map_entries (suc rounds) j physical s =
    map_entries rounds (j + 1) physical (record s {
      video_page = update s.video_page j (if j == 0 then bit_or physical 0x7 else 0x2);
    })

unfoldable pub videomem_map : ℕ → ℕ → Paging → Paging
unfolding flush_tlb
videomem_map virtual physical s =
    let pointed : Paging = record s {
      page_directory = update s.page_directory (virtual / four_m) (bit_or s.video_page_addr 0x7);
    } in
    flush_tlb (map_entries one_k 0 physical pointed)

unfoldable pub videomem_unmap : ℕ → ℕ → Paging → Paging
unfolding flush_tlb
videomem_unmap virtual physical s = flush_tlb (record s {
  video_page = update s.video_page 0 0x02;
  page_directory = update s.page_directory (virtual / four_m) 0x02;
})
