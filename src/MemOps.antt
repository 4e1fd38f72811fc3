-- ===== src/MemOps.antt =====
-- The memory routines of student-distrib/lib.c, instruction by instruction of their inline assembly:
-- memset, memset_word, memset_dword, memcpy and memmove. The registers `edi`, `esi`, `ecx` and `edx`
-- are arguments; addresses do not wrap. A loop that counts `ecx` or `edx` down recurs on it.
pub mod Set
pub mod Copy
use linux_os.Prelude.{
  ℕ, zero, suc, ◌+◌, ◌-◌, ◌*◌, ◌/◌, ◌%◌, ◌^◌, Bool, true, false, ◌==◌, leb, if◌then◌else◌, Memory,
  update, bit_or,
}

-- What `stosw` and `stosl` store of a register.
unfoldable pub store16 : Memory → ℕ → ℕ → Memory
store16 m p w = update (update m p (w % 256)) (p + 1) (w / 256 % 256)

unfoldable pub store32 : Memory → ℕ → ℕ → Memory
unfolding store16
store32 m p w = store16 (store16 m p (w % 65536)) (p + 2) (w / 65536 % 65536)

-- `rep stosl` and `rep stosw`, upwards.
unfoldable pub rep_stosl : ℕ → ℕ → Memory → ℕ → Memory
rep_stosl eax zero m edi = m
rep_stosl eax (suc ecx) m edi = rep_stosl eax ecx (store32 m edi eax) (edi + 4)

unfoldable pub rep_stosw : ℕ → ℕ → Memory → ℕ → Memory
rep_stosw eax zero m edi = m
rep_stosw eax (suc ecx) m edi = rep_stosw eax ecx (store16 m edi eax) (edi + 2)

-- From `.memset_bottom` on: the last bytes, one by one.
unfoldable pub memset_bottom : ℕ → ℕ → Memory → ℕ → Memory
memset_bottom eax zero m edi = m
memset_bottom eax (suc edx) m edi = memset_bottom eax edx (update m edi (eax % 256)) (edi + 1)

-- From `.memset_aligned` on.
unfoldable pub memset_aligned : ℕ → ℕ → Memory → ℕ → Memory
memset_aligned eax ecx m edi =
    memset_bottom eax (ecx % 4) (rep_stosl eax (ecx / 4) m edi) (edi + 4 * (ecx / 4))

-- From `.memset_top` on: bytes up to an address that 4 divides.
unfoldable pub memset_top : ℕ → ℕ → Memory → ℕ → Memory
memset_top eax zero m edi = m
memset_top eax (suc ecx) m edi =
    let rest = memset_top eax ecx (update m edi (eax % 256)) (edi + 1) in
    if edi % 4 == 0 then memset_aligned eax (suc ecx) m edi else rest

-- `c << 24 | c << 16 | c << 8 | c`.
unfoldable pub fill_word : ℕ → ℕ
fill_word c = bit_or (bit_or (bit_or (c * 2 ^ 24) (c * 2 ^ 16)) (c * 2 ^ 8)) c

unfoldable pub memset : Memory → ℕ → ℕ → ℕ → Memory
memset m s c n = memset_top (fill_word (c % 256)) n m s

unfoldable pub memset_word : Memory → ℕ → ℕ → ℕ → Memory
memset_word m s c n = rep_stosw c n m s

unfoldable pub memset_dword : Memory → ℕ → ℕ → ℕ → Memory
memset_dword m s c n = rep_stosl c n m s

-- `movsl` reads four bytes and then stores them.
unfoldable pub move32 : Memory → ℕ → ℕ → Memory
move32 m edi esi =
    update (update (update (update m edi (m esi)) (edi + 1) (m (esi + 1))) (edi + 2) (m (esi + 2)))
      (edi + 3) (m (esi + 3))

unfoldable pub rep_movsl : ℕ → Memory → ℕ → ℕ → Memory
rep_movsl zero m edi esi = m
rep_movsl (suc ecx) m edi esi = rep_movsl ecx (move32 m edi esi) (edi + 4) (esi + 4)

-- From `.memcpy_bottom` on; upwards this is also `rep movsb`.
unfoldable pub memcpy_bottom : ℕ → Memory → ℕ → ℕ → Memory
memcpy_bottom zero m edi esi = m
memcpy_bottom (suc edx) m edi esi = memcpy_bottom edx (update m edi (m esi)) (edi + 1) (esi + 1)

unfoldable pub memcpy_aligned : ℕ → Memory → ℕ → ℕ → Memory
memcpy_aligned ecx m edi esi =
    memcpy_bottom (ecx % 4) (rep_movsl (ecx / 4) m edi esi) (edi + 4 * (ecx / 4))
      (esi + 4 * (ecx / 4))

unfoldable pub memcpy_top : ℕ → Memory → ℕ → ℕ → Memory
memcpy_top zero m edi esi = m
memcpy_top (suc ecx) m edi esi =
    let rest = memcpy_top ecx (update m edi (m esi)) (edi + 1) (esi + 1) in
    if edi % 4 == 0 then memcpy_aligned (suc ecx) m edi esi else rest

unfoldable pub memcpy : Memory → ℕ → ℕ → ℕ → Memory
memcpy m dest src n = memcpy_top n m dest src

-- `rep movsb` with the direction flag set: `edi` and `esi` are the addresses of the last bytes.
unfoldable pub rep_movsb_down : ℕ → Memory → ℕ → ℕ → Memory
rep_movsb_down zero m edi esi = m
rep_movsb_down (suc ecx) m edi esi = rep_movsb_down ecx (update m edi (m esi)) (edi - 1) (esi - 1)

-- The memory that `memmove` leaves, and the direction flag: `true` is down.
unfoldable pub memmove : Memory → ℕ → ℕ → ℕ → Memory × Bool
memmove m dest src n =
    if leb dest src
    then (memcpy_bottom n m dest src, false)
    else (rep_movsb_down n m (dest + n - 1) (src + n - 1), true)
