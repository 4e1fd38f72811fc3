-- ===== src/Pingpong/Frames.antt =====
-- What syscalls/ece391pingpong.c shows, picture by picture.
use mathlib.Core.List.{append_assoc, append-nil}
use linux_os.Prelude.{
  ℕ, zero, suc, ◌+◌, ◌-◌, ◌<◌, ◌≡◌, ◌∙◌, refl, sym, ap, List, [], ◌∷◌, ◌++◌, arith, length,
  length-append, length-replicate, set, replicate,
}
use linux_os.Console.Typing.{set-append}
use linux_os.Pingpong.{clear_from, walled, draw}

-- The buffer with what stands between the walls.
abbrev pub between : List ℕ → List ℕ
between inner = 32 ∷ (b'|' ∷ (inner ++ (b'|' ∷ 10 ∷ 0 ∷ [])))

-- The letter with `left` spaces before it, 75 spaces in all.
abbrev pub picture : ℕ → ℕ → List ℕ
picture letter left = between (replicate left 32 ++ (letter ∷ replicate (75 - left) 32))

clear_from-append :
    (n i : ℕ) (before inner after : List ℕ)
    → length before ≡ i
    → length inner ≡ n
    → clear_from n i (before ++ (inner ++ after)) ≡ before ++ (replicate n 32 ++ after)
unfolding clear_from
clear_from-append zero i before [] after b e = refl
clear_from-append (suc n) i before [] after b e = absurd (omega arith)
clear_from-append zero i before (c ∷ inner) after b e = absurd (omega arith)
clear_from-append (suc n) i before (c ∷ inner) after b e =
    let stored : set (before ++ (c ∷ (inner ++ after))) i 32
        ≡ (before ++ (32 ∷ [])) ++ (inner ++ after) =
      ap (λ m. set (before ++ (c ∷ (inner ++ after))) m 32) (sym b)
      ∙ set-append before c 32 (inner ++ after)
      ∙ sym (append_assoc before (32 ∷ []) (inner ++ after)) in
    let ih =
      clear_from-append n (i + 1) (before ++ (32 ∷ [])) inner after
        (omega (arith, length-append {0} before (32 ∷ []), b)) (omega arith) in
    ap (clear_from n (i + 1)) stored ∙ ih ∙ append_assoc before (32 ∷ []) (replicate n 32 ++ after)

set-replicate :
    (n left c : ℕ) (after : List ℕ)
    → left < n
    → set (replicate n 32 ++ after) left c
      ≡ (replicate left 32 ++ (c ∷ replicate (n - left - 1) 32)) ++ after
set-replicate zero left c after lt = absurd (omega arith)
set-replicate (suc n) zero c after lt = let rest : suc n - 0 - 1 ≡ n = omega arith in rw rest refl
set-replicate (suc n) (suc left) c after lt =
    let less : suc n - suc left - 1 ≡ n - left - 1 = omega arith in
    rw less (ap (λ r. 32 ∷ r) (set-replicate n left c after (omega arith)))

-- A step erases the letter and draws it at its new place.
pub draw_lem :
    (letter left : ℕ) (inner : List ℕ)
    → length inner ≡ 76
    → left < 76
    → draw letter (left + 2) (between inner) ≡ picture letter left
unfolding draw
draw_lem letter left inner size lt =
    let place : left + 2 ≡ suc (suc left) = omega arith in
    let walls : List ℕ = b'|' ∷ 10 ∷ 0 ∷ [] in
    let cleared = clear_from-append 76 2 (32 ∷ b'|' ∷ []) inner walls refl size in
    let behind : 76 - left - 1 ≡ 75 - left = omega arith in
    ap (λ b. set b (left + 2) letter) cleared
    ∙ ap (λ j. set (32 ∷ (b'|' ∷ (replicate 76 32 ++ walls))) j letter) place
    ∙ ap (λ r. 32 ∷ (b'|' ∷ r)) (set-replicate 76 left letter walls lt)
    ∙ ap (λ n. between (replicate left 32 ++ (letter ∷ replicate n 32))) behind

length-inner :
    (letter left : ℕ)
    → left < 76
    → length (replicate left 32 ++ (letter ∷ replicate (75 - left) 32)) ≡ 76
length-inner letter left lt = omega (
  arith,
  length-append {0} (replicate left 32) (letter ∷ replicate (75 - left) 32),
  length-replicate {0} {A = ℕ} left 32,
  length-replicate {0} {A = ℕ} (75 - left) 32,
)

pub walled_lem : (bytes : List ℕ) → length bytes ≡ 81 → walled bytes ≡ between (replicate 76 32)
unfolding walled
walled_lem bytes size =
    let cleared : clear_from 81 0 bytes ≡ replicate 81 32 =
      ap (clear_from 81 0) (sym (append-nil bytes))
      ∙ clear_from-append 81 0 [] bytes [] refl size
      ∙ append-nil (replicate 81 32) in
    ap (λ b. set (set (set (set b 80 0) 79 10) 78 b'|') 1 b'|') cleared

-- A buffer with both walls.
abbrev pub IsWalled : List ℕ → Type 0
IsWalled buf = (inner : List ℕ) × (length inner ≡ 76) × (buf ≡ between inner)

pub picture-IsWalled : (letter left : ℕ) → left < 76 → IsWalled (picture letter left)
picture-IsWalled letter left lt = (_, length-inner letter left lt, refl)
