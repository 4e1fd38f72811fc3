-- ===== src/Tests/Hosts.antt =====
-- The emulation on a host system, and the program with the fish.
use linux_os.MemOps.{memset, memcpy}
use native.Mathlib.Nat.{suc-ne-zero}
use linux_os.Kernel.{Kernel, Fops, current, with_fd}
use linux_os.FileCalls.{Interrupts}
use linux_os.Fish.{Blink, ece391_memset, ece391_memcpy, show_fish}
use linux_os.Fish.Show.{show_fish_lem, blinked, rung}
use linux_os.Tests.{kernel, task}
use linux_os.Fish.Bytes.{routines-same}
use linux_os.Prelude.{
  ℕ, ◌+◌, ◌≡◌, ◌≤◌, refl, List, [], ◌∷◌, ◌++◌, some, none, inl, inr, true, if◌then◌else◌, arith,
  length, min, minus_one, replicate,
}
use linux_os.Prelude.Text.{codes}
use linux_os.Emulation.{
  Emulated, initial_emulated, command_args, store_args, ece391_getargs, ece391_open, ece391_close,
}
use linux_os.Emulation.Words.{Spaced, spell, words_of}
use linux_os.Emulation.Arguments.{joined, store_args_bound, getargs-execute}
use linux_os.Emulation.Listing.{reads, listed, close-reads-open}

abbrev two_words : List Spaced
two_words = record { more = 0; word = codes "ab" } ∷ record { more = 2; word = codes "c" } ∷ []

getargs-execute_example :
    ece391_getargs (command_args (codes "ls" ++ spell two_words (replicate 1 32 ++ (10 ∷ [])))) 1024
    ≡ record { bytes = joined (words_of two_words) ++ (0 ∷ []); good = true }
getargs-execute_example =
    getargs-execute (codes "ls") two_words 1 (10 ∷ []) 1024 (omega arith) (omega arith)
      (inr (refl, refl)) (omega arith)

store_args_bound_example :
    length (store_args (codes "ab" ∷ []) 2).bytes
    ≤ 2 + (if (store_args (codes "ab" ∷ []) 2).good then 0 else 1)
store_args_bound_example = store_args_bound (codes "ab" ∷ []) 2

abbrev no_file : ℕ → ℕ → ℕ × List ℕ
no_file fd nbytes = (minus_one, [])

abbrev two_names : List (List ℕ)
two_names = codes "." ∷ codes "grep" ∷ []

abbrev opened : ℕ × Emulated
opened = ece391_open (some two_names) 3 minus_one (codes ".") initial_emulated

close-reads-open_example :
    (opened.0 ≡ 3)
    × ((reads no_file 3 32 3 opened.1).0 ≡ listed (min 32 32) two_names)
    × (ece391_close (λ fd. minus_one) 3 (reads no_file 3 32 3 opened.1).1
        ≡ (0, record initial_emulated { dir = none; dir_fd = minus_one }))
close-reads-open_example =
    close-reads-open no_file (λ fd. minus_one) two_names 3 minus_one 32 initial_emulated
      (omega arith) (omega arith) (omega arith)

routines-same_example :
    (ece391_memset (λ i. i) 3 300 5 4 ≡ memset (λ i. i) 3 300 5 4)
    × (ece391_memcpy (λ i. i) 2 4 5 4 ≡ memcpy (λ i. i) 2 4 5 4)
routines-same_example = routines-same (λ i. i) 3 300 2 4 5 4 (inl (omega arith))

abbrev no_blink : Blink
no_blink = record {
  location = 0;
  on_char = 0;
  off_char = 0;
  on_length = 0;
  off_length = 0;
  countdown = 0;
  status = 0;
  next = 0;
}

abbrev add_one : Blink → List ℕ → List ℕ
add_one b seen = b.location ∷ seen

abbrev tick_one : List ℕ → List ℕ
tick_one seen = seen

abbrev moved_one : ℕ → ℕ → List ℕ → List ℕ
moved_one place order seen = order ∷ seen

abbrev ticking : Kernel
ticking = record kernel {
  pcbs = λ i. (record task {
    fd = λ j. record { fops_table = some Fops.rtc_fops; inode = 0; file_position = 0; flags = 1 };
  });
}

abbrev often : ℕ → Interrupts
often i = record { keys = []; ticks = 40 }

show_fish_example :
    show_fish add_one no_blink (often 0) 4 1 1 tick_one often 8 no_blink moved_one 2 [] ticking
    ≡ some (record {
      value = 0;
      mp1 = blinked add_one no_blink tick_one moved_one [];
      kernel =
          with_fd
            (record ticking { rtc = rung ticking.rtc })
            2
            (record ((current ticking).fd 2) { file_position = 0; flags = 0 });
    })
show_fish_example =
    show_fish_lem add_one no_blink (often 0) 4 1 1 tick_one often 8 no_blink moved_one 2 [] ticking
      (λ i. omega arith)
      (record { low = omega arith; high = omega arith; used = suc-ne-zero 0; table = refl })
