-- ===== src/Pingpong/Lines.antt =====
-- The lines that syscalls/ece391pingpong.c shows, one for each picture.

use mathlib.Core.List.{append_assoc}
use linux_os.Prelude.{
  ℕ, zero, suc, ◌+◌, ◌-◌, ◌*◌, ◌≡◌, ◌≢◌, ◌∙◌, refl, sym, ap, List, [], ◌∷◌, ◌++◌, arith, length,
  length-append, replicate,
}
use linux_os.Strings.Compare.{All}
use linux_os.Support.Text.{IsText}
use linux_os.Console.{c_text}
use linux_os.Console.Typing.{c_text_lem}
use linux_os.Pingpong.Frames.{picture}
use linux_os.Pingpong.Play.{Frame, letter_of, out_frames, back_frames, all_frames}

-- The line of a picture: the letter alone between the walls, 76 columns wide.
abbrev pub line_of : Frame → List ℕ
line_of f =
    32
    ∷ (b'|'
        ∷ ((replicate f.left 32 ++ (f.letter ∷ replicate (75 - f.left) 32)) ++ (b'|' ∷ 10 ∷ [])))

unfoldable pub film : List Frame → List ℕ
film [] = []
film (f ∷ fs) = line_of f ++ film fs

abbrev pub Lettered : List Frame → Type 0
Lettered = All (λ f. f.letter ≢ 0)

IsText-append : (a b : List ℕ) → IsText a → IsText b → IsText (a ++ b)
IsText-append [] b ha hb = hb
IsText-append (c ∷ a) b ha hb = (ha.0, IsText-append a b ha.1 hb)

spaces-IsText : (n : ℕ) → IsText (replicate n 32)
spaces-IsText zero = tt
spaces-IsText (suc n) = (omega arith, spaces-IsText n)

Lettered-append : (a b : List Frame) → Lettered a → Lettered b → Lettered (a ++ b)
Lettered-append [] b ha hb = hb
Lettered-append (f ∷ a) b ha hb = (ha.0, Lettered-append a b ha.1 hb)

line-IsText : (f : Frame) → f.letter ≢ 0 → IsText (line_of f)
line-IsText f h = (
  omega arith,
  (
    omega arith,
    IsText-append (replicate f.left 32 ++ (f.letter ∷ replicate (75 - f.left) 32)) (b'|' ∷ 10 ∷ [])
        (IsText-append (replicate f.left 32) (f.letter ∷ replicate (75 - f.left) 32)
          (spaces-IsText f.left) (h, spaces-IsText (75 - f.left)))
        (omega arith, (omega arith, tt)),
  ),
)

pub picture-line : (f : Frame) → f.letter ≢ 0 → c_text (picture f.letter f.left) ≡ line_of f
picture-line f h =
    ap (λ r. c_text (32 ∷ (b'|' ∷ r)))
      (sym (
        append_assoc (replicate f.left 32 ++ (f.letter ∷ replicate (75 - f.left) 32))
          (b'|' ∷ 10 ∷ []) (0 ∷ [])))
    ∙ c_text_lem (line_of f) [] (line-IsText f h)

out-Lettered : (letter rounds left : ℕ) → letter ≢ 0 → Lettered (out_frames letter rounds left)
out-Lettered letter zero left h = tt
out-Lettered letter (suc rounds) left h = (h, out-Lettered letter rounds (left + 1) h)

back-Lettered : (letter rounds : ℕ) → letter ≢ 0 → Lettered (back_frames letter rounds)
back-Lettered letter zero h = tt
back-Lettered letter (suc rounds) h = (h, back-Lettered letter rounds h)

pub all-Lettered : (rounds i : ℕ) → Lettered (all_frames rounds i)
unfolding all_frames
all-Lettered zero i = tt
all-Lettered (suc rounds) i =
    Lettered-append (out_frames (letter_of i) 76 0)
      (back_frames (letter_of i) 76 ++ all_frames rounds (i + 1))
      (out-Lettered (letter_of i) 76 0 (omega arith))
      (Lettered-append (back_frames (letter_of i) 76) (all_frames rounds (i + 1))
        (back-Lettered (letter_of i) 76 (omega arith)) (all-Lettered rounds (i + 1)))

length-out : (letter rounds left : ℕ) → length (out_frames letter rounds left) ≡ rounds
length-out letter zero left = refl
length-out letter (suc rounds) left = ap suc (length-out letter rounds (left + 1))

length-back : (letter rounds : ℕ) → length (back_frames letter rounds) ≡ rounds
length-back letter zero = refl
length-back letter (suc rounds) = ap suc (length-back letter rounds)

pub length-all : (rounds i : ℕ) → length (all_frames rounds i) ≡ 152 * rounds
unfolding all_frames
length-all zero i = refl
length-all (suc rounds) i = omega (
  arith,
  length-append {0} (out_frames (letter_of i) 76 0)
      (back_frames (letter_of i) 76 ++ all_frames rounds (i + 1)),
  length-append {0} (back_frames (letter_of i) 76) (all_frames rounds (i + 1)),
  length-out (letter_of i) 76 0,
  length-back (letter_of i) 76,
  length-all rounds (i + 1),
)
