-- ===== src/Tests/Memory.antt =====
-- The memory routines and `printf`.
use linux_os.Prelude.{ℕ, ◌+◌, ◌≡◌, ◌<◌, ◌↔◌, true, List, [], ◌∷◌, some, length, arith, Memory}
use linux_os.MemOps.{memmove}
use linux_os.MemOps.Copy.{moved, memmove_lem}
use linux_os.Printf.{printf}
use linux_os.Printf.Format.{
  Directive, literal, percent, hex, string, format_of, shown_all, put_all, printf_lem,
}
use linux_os.Tests.{screen}

-- The byte at an address is the address.
abbrev ramp : Memory
ramp = λ i. i

abbrev at_12 : ℕ
at_12 = 12

memmove_example :
    ((i : ℕ) → (memmove ramp 9 5 10).0 i ≡ moved ramp 9 5 10 i)
    × (((memmove ramp 9 5 10).1 ≡ true) ↔ (5 < 9))
memmove_example = memmove_lem ramp 9 5 10

abbrev blank : List ℕ
blank = 0 ∷ 1 ∷ 2 ∷ 3 ∷ 4 ∷ 5 ∷ 6 ∷ 7 ∷ []

-- "a%%%#x%s"
abbrev directives : List Directive
directives = literal b'a' ∷ percent ∷ hex true ∷ string ∷ []

printf_example :
    printf (λ i. i + 100) (λ p. b'z' ∷ []) blank (format_of directives) screen
    ≡ some (
      length (format_of directives),
      put_all (shown_all (λ i. i + 100) (λ p. b'z' ∷ []) blank directives 0) screen,
    )
printf_example =
    printf_lem (λ i. i + 100) (λ p. b'z' ∷ []) blank directives screen
      ((ground arith, ground arith), (tt, (tt, (tt, tt))))
