-- ===== src/Tests/Terms.antt =====
-- Lines that are typed.
use linux_os.Prelude.{ℕ, ◌+◌, ◌≡◌, refl, List, [], ◌∷◌, ◌++◌, none, some, arith, length}
use linux_os.Terminal.{char, erase, wipe, Terminals, Copied, displayed, typing, terminal_read}
use linux_os.Terminal.Line.{terminal_read_lem}
use linux_os.Terminal.Limits.{terminal_read_full}
use linux_os.Tests.{term, terminals}

abbrev ls : List ℕ
ls = 108 ∷ 115 ∷ []

terminal_read_example :
    (line : Copied) × (s' : Terminals) × (terminal_read 128 (typing (ls ++ (10 ∷ []))) terminals
      ≡ some (line, s'))
    × (line.out ≡ (ls ++ (10 ∷ [])) ++ (0 ∷ []))
    × (line.numbytes ≡ length ls + 1)
    × ((displayed s').keyboard_buffer_size ≡ 0)
    × ((displayed s').allow_terminal_read ≡ 0)
terminal_read_example =
    terminal_read_lem 128 ls terminals refl (λ i. refl) refl (ground arith) (omega arith)
      (omega arith)

abbrev full : Terminals
full = record terminals {
  terminal = λ i. (record term { keyboard_buffer = λ j. 97; keyboard_buffer_size = 126 });
}

terminal_read_full_example :
    (terminal_read 128 (char 97 ∷ wipe ∷ char 10 ∷ []) full ≡ none)
    × ((line : Copied) × (s' : Terminals) × (terminal_read 128 (erase ∷ char 10 ∷ []) full
          ≡ some (line, s')))
terminal_read_full_example =
    terminal_read_full 128 (char 97 ∷ wipe ∷ char 10 ∷ []) full
      (record { size = refl; waits = refl }) (tt, (tt, (tt, tt)))
