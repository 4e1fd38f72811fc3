-- ===== src/Tests/Text.antt =====
-- Strings, numbers and command lines.

use linux_os.Prelude.{◌≡◌, refl, [], ◌∷◌, ◌++◌, some, arith, inl, replicate}
use linux_os.Strings.{itoa}
use linux_os.Strings.Digits.{itoa-parse, parse}
use linux_os.Command.{parse_command}
use linux_os.Command.Words.{parse_command_lem}

itoa_example : parse 16 0 (itoa 48879 16) ≡ 48879
itoa_example = itoa-parse 48879 16 (omega arith) (omega arith) (omega arith)

-- " ls  a b" and the end of the line.
parse_command_example :
    parse_command (
      replicate 1 32
      ++ ((108 ∷ 115 ∷ []) ++ (replicate 2 32 ++ ((97 ∷ 32 ∷ 98 ∷ []) ++ (10 ∷ [])))))
    ≡ some (record { task_name = 108 ∷ 115 ∷ []; argument = 97 ∷ 32 ∷ 98 ∷ [] })
parse_command_example =
    parse_command_lem 1 2 (108 ∷ 115 ∷ []) (97 ∷ 32 ∷ 98 ∷ []) (10 ∷ []) (ground arith)
      (omega arith) (omega arith) (ground arith) (omega arith) (ground arith) (inl refl)
      (inl (omega arith))
