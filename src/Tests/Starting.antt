-- ===== src/Tests/Starting.antt =====
-- The start of the kernel.
use linux_os.Prelude.{◌≡◌, refl, arith}
use linux_os.Boot.{MultibootInfo, SegDesc, Machine, entry, idle, multiboot_bootloader_magic}
use linux_os.Boot.Start.{Booted, entry_lem}
use linux_os.Tests.{image, kernel}

abbrev descriptor : SegDesc
descriptor = record {
  seg_lim_15_00 = 0;
  base_15_00 = 0;
  base_23_16 = 0;
  type = 0;
  sys = 0;
  dpl = 0;
  present = 0;
  seg_lim_19_16 = 0;
  avail = 0;
  reserved = 0;
  opsize = 0;
  granularity = 0;
  base_31_24 = 0;
}

abbrev machine : Machine
machine = record {
  kernel = kernel;
  ldt_desc_ptr = descriptor;
  tss_desc_ptr = descriptor;
  ldt_segment_selector = 0;
  ss0 = 0;
  ldtr = 0;
  tr = 0;
}

abbrev info : MultibootInfo
info = record { flags = 0x4F; mod_start = 0x10000 }

entry_example :
    (m' : Machine) × (entry 0x401234 32 0x405678 104 image
        (λ r. 0)
        multiboot_bootloader_magic
        info
        machine
      ≡ idle m')
    × Booted image info machine 0x401234 32 0x405678 104 m'
entry_example =
    entry_lem 0x401234 32 0x405678 104 image (λ r. 0) info machine (omega arith) (omega arith)
      (omega arith) (omega arith) (omega arith, omega arith) refl
