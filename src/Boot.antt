-- ===== src/Boot.antt =====
-- The entry of student-distrib/kernel.c: what the boot loader hands over, the descriptors of the LDT and
-- the TSS, and the start of the devices.
pub mod Start
use linux_os.Prelude.{
  ℕ, ◌+◌, ◌*◌, ◌/◌, ◌%◌, ◌^◌, Bool, List, [], ◌∷◌, ◌++◌, ◌==◌, ◌&&◌, not, if◌then◌else◌, Memory,
}
use linux_os.Io.{Io}
use linux_os.Pic.{i8259_init}
use linux_os.Rtc.{rtc_init}
use linux_os.Paging.{paging_init}
use linux_os.Fs.{fs_init}
use linux_os.Screen.{clear}
use linux_os.Kernel.{Kernel}
use linux_os.Keyboard.{keyboard_init}
use linux_os.Scheduler.{pit_init, flag_step}

abbrev pub multiboot_bootloader_magic : ℕ
multiboot_bootloader_magic = 0x2BADB002

abbrev pub kernel_ds : ℕ
kernel_ds = 0x18

abbrev pub kernel_tss : ℕ
kernel_tss = 0x30

abbrev pub kernel_ldt : ℕ
kernel_ldt = 0x38

abbrev pub tss_size : ℕ
tss_size = 104

-- `CHECK_FLAG`.
abbrev pub check_flag : ℕ → ℕ → Bool
check_flag flags bit = flags / 2 ^ bit % 2 == 1

-- What the entry reads of `multiboot_info_t`: the flags, and the start of the first module.
pub record MultibootInfo : Type 0 where
  pub flags : ℕ
  pub mod_start : ℕ

pub record SegDesc : Type 0 where
  pub seg_lim_15_00 : ℕ
  pub base_15_00 : ℕ
  pub base_23_16 : ℕ
  pub type : ℕ
  pub sys : ℕ
  pub dpl : ℕ
  pub present : ℕ
  pub seg_lim_19_16 : ℕ
  pub avail : ℕ
  pub reserved : ℕ
  pub opsize : ℕ
  pub granularity : ℕ
  pub base_31_24 : ℕ

-- `SET_LDT_PARAMS` and `SET_TSS_PARAMS`, which are the same.
unfoldable pub set_params : ℕ → ℕ → SegDesc → SegDesc
set_params addr lim str = record str {
  base_31_24 = addr / 2 ^ 24 % 2 ^ 8;
  base_23_16 = addr / 2 ^ 16 % 2 ^ 8;
  base_15_00 = addr % 2 ^ 16;
  seg_lim_19_16 = lim / 2 ^ 16 % 2 ^ 4;
  seg_lim_15_00 = lim % 2 ^ 16;
}

-- The kernel, the two entries of the GDT, the fields of the TSS that the entry sets besides `esp0`,
-- and the two registers that it loads.
pub record Machine : Type 0 where
  pub kernel : Kernel
  pub ldt_desc_ptr : SegDesc
  pub tss_desc_ptr : SegDesc
  pub ldt_segment_selector : ℕ
  pub ss0 : ℕ
  pub ldtr : ℕ
  pub tr : ℕ

-- How the entry ends: it returns to the boot code, or halts for the interrupts.
pub data Entered : Type 0 where
  returned : Machine → Entered
  idle : Machine → Entered

-- The tests of the flags 0 to 3. The messages behind the first three are commented out, so each of
-- them guards the next test.
unfoldable pub load_modules : MultibootInfo → Memory → Kernel → Kernel
load_modules mbi mem k =
    if check_flag mbi.flags 0
    then (if check_flag mbi.flags 1
        then (if check_flag mbi.flags 2
            then (if check_flag mbi.flags 3 then record k { fs = fs_init mem mbi.mod_start } else k)
            else k)
        else k)
    else k

-- "Construct an LDT entry in the GDT", for the table at `ldt` of `size` bytes.
unfoldable pub set_ldt : ℕ → ℕ → Machine → Machine
unfolding set_params
set_ldt ldt size m = record m {
  ldt_desc_ptr = set_params ldt size (record m.ldt_desc_ptr {
    granularity = 0;
    opsize = 1;
    reserved = 0;
    avail = 0;
    present = 1;
    dpl = 0;
    sys = 0;
    type = 2;
  });
  ldtr = kernel_ldt;
}

-- "Construct a TSS entry in the GDT".
unfoldable pub set_tss : ℕ → ℕ → Machine → Machine
unfolding set_params
set_tss tss size m = record m {
  tss_desc_ptr = set_params tss size (record m.tss_desc_ptr {
    granularity = 0;
    opsize = 0;
    reserved = 0;
    avail = 0;
    seg_lim_19_16 = tss_size / 2 ^ 16 % 2 ^ 4 * 2 ^ 16 % 2 ^ 4;
    present = 1;
    dpl = 0;
    sys = 0;
    type = 9;
    seg_lim_15_00 = tss_size % 2 ^ 16;
  });
  ldt_segment_selector = kernel_ldt;
  ss0 = kernel_ds;
  kernel = record m.kernel { esp0 = 0x800000 };
  tr = kernel_tss;
}

-- The start of the devices; `cmos` is what a read of a clock register gives.
unfoldable pub start_devices : (ℕ → ℕ) → Kernel → Kernel
start_devices cmos k0 =
    let k1 : Kernel = record k0 { rtc = record k0.rtc { pic = i8259_init k0.rtc.pic } } in
    let k2 : Kernel = record k1 { paging = paging_init k1.paging } in
    let k3 = keyboard_init k2 in
    let k4 : Kernel = record k3 { rtc = rtc_init cmos k3.rtc } in
    let k5 : Kernel = record k4 { rtc = record k4.rtc { pic = pit_init k4.rtc.pic } } in
    flag_step Io.sti k5

-- The addresses and sizes that the linker gives the LDT and the TSS, the memory, and the clock's
-- registers are arguments.
module _ (ldt ldt_size tss size_of_tss : ℕ) (mem : Memory) (cmos : ℕ → ℕ) where
  unfoldable pub entry : ℕ → MultibootInfo → Machine → Entered
  entry magic mbi m =
      let cleared : Machine = record m {
        kernel = record m.kernel {
          terminals = record m.kernel.terminals { screen = clear m.kernel.terminals.screen };
        };
      } in
      let loaded : Machine = record cleared { kernel = load_modules mbi mem cleared.kernel } in
      let described = set_tss tss size_of_tss (set_ldt ldt ldt_size loaded) in
      if not (magic == multiboot_bootloader_magic)
      then returned cleared
      else if check_flag mbi.flags 4 && check_flag mbi.flags 5
      then returned loaded
      else idle (record described { kernel = start_devices cmos described.kernel })
