-- ===== src/Boot/Start.antt =====
-- What the entry of student-distrib/kernel.c leaves: the interrupts that are let through, the
-- descriptors and the file system.
use mathlib.Core.Path.{subst}
use linux_os.Screen.{clear}
use linux_os.Prelude.{
  sym, ℕ, ◌+◌, ◌*◌, ◌^◌, ◌<◌, ◌≡◌, ◌∙◌, refl, ap, Bool, false, ◌==◌, ◌&&◌, ◌||◌, if◌then◌else◌,
  arith, Memory,
}
use linux_os.Io.{Trace}
use linux_os.Pic.{Pic, enable_irq, i8259_init}
use linux_os.Pic.Masks.{masked, IsValid, irq_masks}
use linux_os.Rtc.{Rtc, rtc_init, rtc_set_frequency, rate_of}
use linux_os.Fs.{fs_init}
use linux_os.Kernel.{Kernel}
use linux_os.Keyboard.{keyboard_init}
use linux_os.Scheduler.{pit_init}
use linux_os.Boot.{
  MultibootInfo, SegDesc, Machine, idle, check_flag, load_modules, set_params, set_ldt, set_tss,
  start_devices, entry, multiboot_bootloader_magic,
}

-- The address and the size that a descriptor stands for.
abbrev pub base_of : SegDesc → ℕ
base_of d = d.base_15_00 + d.base_23_16 * 2 ^ 16 + d.base_31_24 * 2 ^ 24

abbrev pub limit_of : SegDesc → ℕ
limit_of d = d.seg_lim_15_00 + d.seg_lim_19_16 * 2 ^ 16

descriptors :
    (ldt ldt_size tss size_of_tss : ℕ) (m : Machine)
    → ldt < 2 ^ 32
    → ldt_size < 2 ^ 20
    → tss < 2 ^ 32
    → size_of_tss < 2 ^ 20
    → let m' = set_tss tss size_of_tss (set_ldt ldt ldt_size m) in
      (base_of m'.ldt_desc_ptr ≡ ldt)
      × (limit_of m'.ldt_desc_ptr ≡ ldt_size)
      × (base_of m'.tss_desc_ptr ≡ tss)
      × (limit_of m'.tss_desc_ptr ≡ size_of_tss)
      × (m'.ldt_desc_ptr.dpl ≡ 0)
      × (m'.tss_desc_ptr.dpl ≡ 0)
unfolding set_tss set_ldt set_params
descriptors ldt ldt_size tss size_of_tss m l ls t ts =
    (omega arith, omega arith, omega arith, omega arith, refl, refl)

-- Only the masks matter.
same_masks : (p : Pic) (t : Trace) (j : ℕ) → masked (record p { trace = t }) j ≡ masked p j
unfolding masked
same_masks p t j = refl

same-IsValid : (p : Pic) (t : Trace) → IsValid p → IsValid (record p { trace = t })
same-IsValid p t v = v

-- The controllers with the keyboard's line and the clock's enabled.
abbrev with_clock : Pic → Pic
with_clock p = enable_irq (enable_irq (i8259_init p) 1) 8

devices-pic :
    (cmos : ℕ → ℕ) (k : Kernel) (j : ℕ)
    → (t : Trace) × (masked (start_devices cmos k).rtc.pic j
        ≡ masked (enable_irq (record (with_clock k.rtc.pic) { trace = t }) 0) j)
unfolding start_devices keyboard_init rtc_init rtc_set_frequency rate_of pit_init masked
devices-pic cmos k j = (_, refl)

-- The interrupt lines that are let through when the devices have started.
devices-masked :
    (cmos : ℕ → ℕ) (k : Kernel) (j : ℕ)
    → IsValid k.rtc.pic
    → j < 16
    → masked (start_devices cmos k).rtc.pic j
      ≡ (if j == 0 || (j == 1 || j == 8) then 0 else masked k.rtc.pic j)
devices-masked cmos k j v h =
    let (t, e) = devices-pic cmos k j in
    let p1 = i8259_init k.rtc.pic in
    let v1 : IsValid p1 = (unfold i8259_init in v) in
    let m1 : masked p1 j ≡ masked k.rtc.pic j = (unfold i8259_init masked in refl) in
    let (keyboard, _, v2, _) = irq_masks p1 1 j v1 h in
    let (clock, _, v3, _) = irq_masks (enable_irq p1 1) 8 j v2 h in
    let p3 : Pic = record (with_clock k.rtc.pic) { trace = t } in
    let (timer, _, _, _) = irq_masks p3 0 j (same-IsValid (with_clock k.rtc.pic) t v3) h in
    let m3 = same_masks (with_clock k.rtc.pic) t j in
    e ∙ timer ∙ rw (m3, clock, keyboard, m1) (ground arith)

-- Whether the boot loader gives the memory sizes, the boot device, the command line and modules.
abbrev pub gives_all : MultibootInfo → Bool
gives_all mbi =
    check_flag mbi.flags 0
    && (check_flag mbi.flags 1 && (check_flag mbi.flags 2 && check_flag mbi.flags 3))

load_modules-fs :
    (mbi : MultibootInfo) (mem : Memory) (k : Kernel)
    → (load_modules mbi mem k).fs ≡ (if gives_all mbi then fs_init mem mbi.mod_start else k.fs)
unfolding load_modules
load_modules-fs mbi mem k = ground arith

load_modules-keeps :
    (mbi : MultibootInfo) (mem : Memory) (k : Kernel)
    → ((load_modules mbi mem k).rtc ≡ k.rtc) × ((load_modules mbi mem k).task_slots ≡ k.task_slots)
unfolding load_modules
load_modules-keeps mbi mem k = (ground arith, ground arith)

devices-keep :
    (cmos : ℕ → ℕ) (k : Kernel)
    → ((start_devices cmos k).esp0 ≡ k.esp0)
      × ((start_devices cmos k).task_slots ≡ k.task_slots)
      × ((start_devices cmos k).fs ≡ k.fs)
unfolding start_devices keyboard_init
devices-keep cmos k = (refl, refl, refl)

-- What the entry leaves when it idles.
pub record Booted (mem : Memory) (mbi : MultibootInfo) (m : Machine)
    (ldt ldt_size tss size_of_tss : ℕ) (m' : Machine) : Type 0 where
  pub lines :
      (j : ℕ)
      → j < 16
      → masked m'.kernel.rtc.pic j
        ≡ (if j == 0 || (j == 1 || j == 8) then 0 else masked m.kernel.rtc.pic j)
  pub ldt_base : base_of m'.ldt_desc_ptr ≡ ldt
  pub ldt_limit : limit_of m'.ldt_desc_ptr ≡ ldt_size
  pub tss_base : base_of m'.tss_desc_ptr ≡ tss
  pub tss_limit : limit_of m'.tss_desc_ptr ≡ size_of_tss
  pub kernel_only : (m'.ldt_desc_ptr.dpl ≡ 0) × (m'.tss_desc_ptr.dpl ≡ 0)
  pub stack : m'.kernel.esp0 ≡ 0x800000
  pub disk : m'.kernel.fs ≡ (if gives_all mbi then fs_init mem mbi.mod_start else m.kernel.fs)
  pub no_tasks : m'.kernel.task_slots ≡ m.kernel.task_slots

-- From a boot loader with the right magic number, and not both of the flags 4 and 5, the entry
-- idles for interrupts: the timer's, the keyboard's and the clock's lines are let through and the
-- other masks are as before; the descriptors of the LDT and the TSS have their addresses and sizes,
-- for the kernel only; the kernel stack is at 8 MB, and no task slot has changed. The file system is
-- set up from the first module exactly when all of the flags 0 to 3 are given: without the memory
-- sizes, the boot device or the command line the module is ignored.
pub entry_lem :
    (ldt ldt_size tss size_of_tss : ℕ) (mem : Memory) (cmos : ℕ → ℕ) (mbi : MultibootInfo)
    (m : Machine)
    → ldt < 2 ^ 32
    → ldt_size < 2 ^ 20
    → tss < 2 ^ 32
    → size_of_tss < 2 ^ 20
    → IsValid m.kernel.rtc.pic
    → (check_flag mbi.flags 4 && check_flag mbi.flags 5) ≡ false
    → (m' : Machine) × (entry ldt ldt_size tss size_of_tss mem cmos multiboot_bootloader_magic mbi m
        ≡ idle m')
      × Booted mem mbi m ldt ldt_size tss size_of_tss m'
entry_lem ldt ldt_size tss size_of_tss mem cmos mbi m l ls t ts v exclusive =
    let k0 : Kernel = record m.kernel {
      terminals = record m.kernel.terminals { screen = clear m.kernel.terminals.screen };
    } in
    let k1 = load_modules mbi mem k0 in
    let (clock, slots) = load_modules-keeps mbi mem k0 in
    let described = set_tss tss size_of_tss (set_ldt ldt ldt_size (record m { kernel = k1 })) in
    let same : described.kernel.rtc ≡ m.kernel.rtc = (unfold set_tss set_ldt in clock) in
    let d = descriptors ldt ldt_size tss size_of_tss (record m { kernel = k1 }) l ls t ts in
    let kept = devices-keep cmos described.kernel in
    (
      record described { kernel = start_devices cmos described.kernel },
      (unfold entry in rw exclusive refl),
      record {
        lines = λ j h.
            devices-masked cmos described.kernel j (subst (λ (r : Rtc). IsValid r.pic) (sym same) v)
              h
            ∙ ap (λ (r : Rtc). (if j == 0 || (j == 1 || j == 8) then 0 else masked r.pic j)) same;
        ldt_base = d.0;
        ldt_limit = d.1;
        tss_base = d.2;
        tss_limit = d.3;
        kernel_only = (d.4, d.5);
        stack = kept.0 ∙ (unfold set_tss in refl);
        disk = kept.2 ∙ (unfold set_tss set_ldt in load_modules-fs mbi mem k0);
        no_tasks = kept.1 ∙ (unfold set_tss set_ldt in slots);
      },
    )
