-- ===== src/Printf.antt =====
-- `printf` of student-distrib/lib.c. The arguments are the 32-bit words on the stack behind the
-- format, by their index, and `strings p` is the string at the address `p`.
pub mod Fields
pub mod Format
use linux_os.Prelude.{
  ℕ, zero, suc, ◌+◌, ◌-◌, ◌%◌, Bool, true, false, List, [], ◌∷◌, ◌++◌, Option, none, some, ◌==◌,
  ltb, leb, if◌then◌else◌, set, drop, replicate,
}
use linux_os.Strings.{strlen, itoa}
use linux_os.Screen.{Screen, putc, puts}

-- The loop of "%#x": `rounds` bytes of `conv_buf` are left, from `i` on.
unfoldable pub pad_buf : ℕ → ℕ → List ℕ → List ℕ
pad_buf zero i conv_buf = conv_buf
pad_buf (suc rounds) i conv_buf = pad_buf rounds (i + 1) (set conv_buf i 48)

-- The text of "%x", and of "%#x", for which the digits lie in `conv_buf` from index 8 on;
-- `old` is what its first 8 bytes held.
unfoldable pub hex_field : Bool → List ℕ → ℕ → List ℕ
unfolding pad_buf
hex_field false old value = itoa value 16
hex_field true old value =
    let digits = itoa value 16 in
    let starting_index = strlen digits in
    drop starting_index (pad_buf (8 - starting_index) starting_index (old ++ digits))

unfoldable pub unsigned_field : ℕ → List ℕ
unsigned_field value = itoa value 10

-- A negative value is a pattern from 2 ^ 31 on; `-value` is its two's complement.
unfoldable pub signed_field : ℕ → List ℕ
signed_field value =
    if leb 2147483648 value then 45 ∷ itoa (4294967296 - value) 10 else itoa value 10

-- Where the scan of the format is: in plain text, or behind a '%', with `alternate`.
pub data Mode : Type 0 where
  plain : Mode
  conversion : Bool → Mode

-- What one character of the format leaves: the mode, the index of the next argument and the screen.
pub record Place : Type 0 where
  pub mode : Mode
  pub esp : ℕ
  pub screen : Screen

abbrev pub one_more : Option (ℕ × Screen) → Option (ℕ × Screen)
one_more none = none
one_more (some (n, s)) = some (n + 1, s)

module _ (stack : ℕ → ℕ) (strings : ℕ → List ℕ) (old : List ℕ) where
  -- The switch on the character behind a '%'.
  unfoldable pub convert : Bool → ℕ → ℕ → Screen → Place
  convert alternate c esp s =
      if c == b'%'
      then record { mode = plain; esp = esp; screen = putc b'%' s }
      else if c == b'#'
      then record { mode = conversion true; esp = esp; screen = s }
      else if c == b'x'
      then record {
        mode = plain;
        esp = esp + 1;
        screen = (puts (hex_field alternate old (stack esp)) s).0;
      }
      else if c == b'u'
      then record { mode = plain; esp = esp + 1; screen = (puts (unsigned_field (stack esp)) s).0 }
      else if c == b'd'
      then record { mode = plain; esp = esp + 1; screen = (puts (signed_field (stack esp)) s).0 }
      else if c == b'c'
      then record { mode = plain; esp = esp + 1; screen = putc (stack esp % 256) s }
      else if c == b's'
      then record { mode = plain; esp = esp + 1; screen = (puts (strings (stack esp)) s).0 }
      else record { mode = plain; esp = esp; screen = s }

  unfoldable pub char_in : Mode → ℕ → Place → Place
  char_in plain c place =
      if c == b'%'
      then record place { mode = conversion false }
      else record place { screen = putc c place.screen }
  char_in (conversion alternate) c place = convert alternate c place.esp place.screen

  -- One character of the format, other than its NUL.
  unfoldable pub format_char : ℕ → Place → Place
  unfolding char_in
  format_char c place = char_in place.mode c place

  -- At the NUL: in plain text it ends the loop; behind a '%' it is stepped over, and `none` says that
  -- the scan goes on past the end of the format.
  unfoldable pub at_nul : Mode → Screen → Option (ℕ × Screen)
  at_nul plain s = some (0, s)
  at_nul (conversion alternate) s = none

  -- The loop; the number is how far `buf` has moved.
  unfoldable pub printf_from : List ℕ → Place → Option (ℕ × Screen)
  unfolding at_nul
  printf_from [] place = at_nul place.mode place.screen
  printf_from (c ∷ fmt) place =
      let rest = printf_from fmt (format_char c place) in
      if c == 0 then at_nul place.mode place.screen else one_more rest

  unfoldable pub printf : List ℕ → Screen → Option (ℕ × Screen)
  printf fmt s = printf_from fmt (record { mode = plain; esp = 0; screen = s })
