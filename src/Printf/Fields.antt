-- ===== src/Printf/Fields.antt =====
-- The number fields of `printf` of student-distrib/lib.c.
use mathlib.Core.List.{append_assoc}
use linux_os.Prelude.{
  ℕ, zero, suc, ◌+◌, ◌-◌, ◌^◌, ◌≤◌, ◌<◌, ◌≡◌, ◌∙◌, ap, refl, sym, List, [], ◌∷◌, ◌++◌, arith,
  length, length-append, set, drop, take, replicate, take-append-drop, length-take, length-drop,
  length-replicate, true, false, leb,
}
use linux_os.Strings.{itoa}
use linux_os.Strings.Compare.{All}
use linux_os.Strings.Digits.{parse, itoa-parse, IsDigit}
use linux_os.Strings.Width.{itoa-IsDigit, itoa_width, strlen-itoa}
use linux_os.Printf.{pad_buf, hex_field, signed_field}

set-append : (p : List ℕ) (x v : ℕ) (r : List ℕ) → set (p ++ (x ∷ r)) (length p) v ≡ p ++ (v ∷ r)
set-append [] x v r = refl
set-append (c ∷ p) x v r = ap (λ l. c ∷ l) (set-append p x v r)

drop-append : (p r : List ℕ) → drop (length p) (p ++ r) ≡ r
drop-append [] r = refl
drop-append (c ∷ p) r = drop-append p r

-- The loop replaces what stands between the first part and the digits.
pad_buf_lem :
    (n i : ℕ) (p m d : List ℕ)
    → i ≡ length p
    → length m ≡ n
    → pad_buf n i (p ++ (m ++ d)) ≡ p ++ (replicate n 48 ++ d)
unfolding pad_buf
pad_buf_lem zero i p [] d e h = refl
pad_buf_lem zero i p (x ∷ m) d e h = absurd (omega arith)
pad_buf_lem (suc n) i p [] d e h = absurd (omega arith)
pad_buf_lem (suc n) i p (x ∷ m) d e h =
    let grown =
      pad_buf_lem n (i + 1) (p ++ (48 ∷ [])) m d (omega (arith, length-append p (48 ∷ [])))
        (omega arith) in
    let joined =
      rw (append_assoc p (48 ∷ []) (m ++ d), append_assoc p (48 ∷ []) (replicate n 48 ++ d)) at
        grown in
    ap (pad_buf n (i + 1)) (ap (λ k. set (p ++ (x ∷ (m ++ d))) k 48) e ∙ set-append p x 48 (m ++ d))
    ∙ joined

parse-zeros : (n : ℕ) (d : List ℕ) → parse 16 0 (replicate n 48 ++ d) ≡ parse 16 0 d
unfolding parse
parse-zeros zero d = refl
parse-zeros (suc n) d = parse-zeros n d

All-zeros : (n : ℕ) (d : List ℕ) → All (IsDigit 16) d → All (IsDigit 16) (replicate n 48 ++ d)
All-zeros zero d h = h
All-zeros (suc n) d h = ((omega arith, omega arith, omega arith), All-zeros n d h)

padded :
    (old d : List ℕ)
    → length old ≡ 8
    → length d ≤ 8
    → drop (length d) (pad_buf (8 - length d) (length d) (old ++ d))
      ≡ replicate (8 - length d) 48 ++ d
padded old d eight short =
    let k = length d in
    let first : k ≡ length (take k old) = omega (arith, length-take k old) in
    let rest : length (drop k old) ≡ 8 - k = omega (arith, length-drop k old) in
    let filled = pad_buf_lem (8 - k) k (take k old) (drop k old) d first rest in
    let split : (take k old ++ (drop k old ++ d)) ≡ old ++ d =
      sym (append_assoc (take k old) (drop k old) d) ∙ ap (λ l. l ++ d) (take-append-drop k old) in
    ap (λ l. drop k (pad_buf (8 - k) k l)) (sym split)
    ∙ ap (drop k) filled
    ∙ ap (λ n. drop n (take k old ++ (replicate (8 - k) 48 ++ d))) first
    ∙ drop-append (take k old) (replicate (8 - k) 48 ++ d)

-- "%#x" of a 32-bit value prints exactly 8 hexadecimal digits that read back to the value, whatever
-- the buffer held before.
pub hex_field_lem :
    (old : List ℕ) (value : ℕ)
    → length old ≡ 8
    → value < 2 ^ 32
    → (length (hex_field true old value) ≡ 8)
      × (parse 16 0 (hex_field true old value) ≡ value)
      × All (IsDigit 16) (hex_field true old value)
unfolding hex_field
hex_field_lem old value eight h =
    let d = itoa value 16 in
    let measured = strlen-itoa value 16 (omega arith) (omega arith) h in
    let short = itoa_width value h in
    let field = padded old d eight short in
    rw (measured, field)
      (
        length-append (replicate (8 - length d) 48) d
            ∙ omega (arith, length-replicate {A = ℕ} (8 - length d) 48, short),
        parse-zeros (8 - length d) d ∙ itoa-parse value 16 (omega arith) (omega arith) h,
        All-zeros (8 - length d) d (itoa-IsDigit value 16 (omega arith) (omega arith) h),
      )

-- "%d" of a pattern prints the decimal digits of its value, behind a minus sign when the pattern
-- stands for a negative number.
pub signed_field_lem :
    (value : ℕ)
    → value < 2 ^ 32
    → (value < 2 ^ 31 → parse 10 0 (signed_field value) ≡ value)
      × (2 ^ 31 ≤ value
          → (digits : List ℕ) × (signed_field value ≡ 45 ∷ digits)
            × (parse 10 0 digits + value ≡ 2 ^ 32))
unfolding signed_field
signed_field_lem value h = (positive, negative)
  where
    positive : value < 2 ^ 31 → parse 10 0 (signed_field value) ≡ value
    positive lt =
        let sign : leb 2147483648 value ≡ false = ground arith in
        rw sign (itoa-parse value 10 (omega arith) (omega arith) h)

    negative :
        2 ^ 31 ≤ value
        → (digits : List ℕ) × (signed_field value ≡ 45 ∷ digits)
          × (parse 10 0 digits + value ≡ 2 ^ 32)
    negative le =
        let sign : leb 2147483648 value ≡ true = ground arith in
        let back = itoa-parse (4294967296 - value) 10 (omega arith) (omega arith) (omega arith) in
        (itoa (4294967296 - value) 10, rw sign refl, omega (arith, back))
