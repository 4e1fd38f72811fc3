-- ===== src/Pingpong/Play.antt =====
-- The loops of syscalls/ece391pingpong.c show a list of pictures.

use mathlib.Core.Path.{subst}
use linux_os.FileCalls.{syscall_read}
use linux_os.Console.{say}
use linux_os.Prelude.{
  none, ◌⊎◌, inl, inr, Option-cases, ℕ, zero, suc, ◌+◌, ◌%◌, ◌≤◌, ◌<◌, ◌≡◌, ◌∙◌, refl, sym, ap,
  List, [], ◌∷◌, ◌++◌, Option, some, arith,
}
use linux_os.Prelude.Text.{◌>>=◌}
use linux_os.FileCalls.{Interrupts}
use linux_os.Console.{answer}
use linux_os.Pingpong.{World, draw, next_char, show_frame, move_out, bounce_back, pong}
use linux_os.Pingpong.Frames.{picture, IsWalled, picture-IsWalled, draw_lem}

-- A picture to be shown.
pub record Frame : Type 0 where
  pub letter : ℕ
  pub left : ℕ

abbrev pub out_frames : ℕ → ℕ → ℕ → List Frame
out_frames letter zero left = []
out_frames letter (suc rounds) left =
    record { letter = letter; left = left } ∷ out_frames letter rounds (left + 1)

abbrev pub back_frames : ℕ → ℕ → List Frame
back_frames letter zero = []
back_frames letter (suc rounds) =
    record { letter = letter; left = rounds } ∷ back_frames letter rounds

-- The letter of the round `i`.
abbrev pub letter_of : ℕ → ℕ
letter_of i = b'A' + i % 26

-- All the pictures: in each round the letter goes out and comes back.
unfoldable pub all_frames : ℕ → ℕ → List Frame
all_frames zero i = []
all_frames (suc rounds) i =
    out_frames (letter_of i) 76 0 ++ (back_frames (letter_of i) 76 ++ all_frames rounds (i + 1))

abbrev InRange : List Frame → Type 0
InRange [] = Unit
InRange (f ∷ fs) = (f.left < 76) × InRange fs

next_char_lem : (i : ℕ) → next_char (letter_of i) ≡ letter_of (i + 1)
unfolding next_char
next_char_lem i = ground arith

out_frames-InRange :
    (letter rounds left : ℕ) → left + rounds ≤ 76 → InRange (out_frames letter rounds left)
out_frames-InRange letter zero left le = tt
out_frames-InRange letter (suc rounds) left le =
    (omega arith, out_frames-InRange letter rounds (left + 1) (omega arith))

back_frames-InRange : (letter rounds : ℕ) → rounds ≤ 76 → InRange (back_frames letter rounds)
back_frames-InRange letter zero le = tt
back_frames-InRange letter (suc rounds) le =
    (omega arith, back_frames-InRange letter rounds (omega arith))

module _ (rtc_fd garbage : ℕ) (env : ℕ → Interrupts) where
  -- Pictures shown one after another, with a tick behind each.
  unfoldable pub play : List Frame → World → Option World
  play [] w = some w
  play (f ∷ fs) w = do
    shown ← show_frame rtc_fd garbage env (record w { buf = picture f.letter f.left })
    play fs shown

  play-append :
      (fs gs : List Frame) (w : World)
      → play (fs ++ gs) w ≡ (play fs w >>= (λ (w' : World). play gs w'))
  unfolding play
  play-append [] gs w = refl
  play-append (f ∷ fs) gs w =
      elim (Option-cases
        (show_frame rtc_fd garbage env (record w { buf = picture f.letter f.left }))) [
          | inl e ↦ rw e refl
          | inr (w', e) ↦ rw e (play-append fs gs w')
        ]

  -- Showing a picture leaves the buffer, if it comes to an end.
  show_frame-cases :
      (w : World)
      → (show_frame rtc_fd garbage env w ≡ none)
        ⊎ ((w' : World) × (show_frame rtc_fd garbage env w ≡ some w') × (w'.buf ≡ w.buf))
  unfolding show_frame
  show_frame-cases w = elim (Option-cases (say w.buf w.kernel)) [
    | inl e ↦ inl (rw e refl)
    | inr (k1, e) ↦ elim (Option-cases (answer (syscall_read (env w.ticks) k1 rtc_fd garbage 4))) [
      | inl f ↦ inl (rw (e, f) refl)
      | inr (tick, f) ↦
          inr (record w { ticks = w.ticks + 1; kernel = tick.2 }, rw (e, f) refl, refl)
    ]
  ]

  play-cases :
      (fs : List Frame) (w : World)
      → InRange fs
      → IsWalled w.buf
      → (play fs w ≡ none) ⊎ ((w' : World) × (play fs w ≡ some w') × IsWalled w'.buf)
  unfolding play
  play-cases [] w r walls = inr (w, refl, walls)
  play-cases (f ∷ fs) w r walls =
      elim (show_frame-cases (record w { buf = picture f.letter f.left })) [
        | inl e ↦ inl (rw e refl)
        | inr (w1, e, same) ↦
            let kept = subst IsWalled (sym same) (picture-IsWalled f.letter f.left r.0) in
            elim (play-cases fs w1 r.1 kept) [
              | inl g ↦ inl (rw e g)
              | inr (w', g, walls') ↦ inr (w', rw e g, walls')
            ]
      ]

  move_out_lem :
      (letter rounds left : ℕ) (w : World)
      → left + rounds ≤ 76
      → IsWalled w.buf
      → move_out rtc_fd garbage env letter rounds (left + 2) w
        ≡ play (out_frames letter rounds left) w
  unfolding move_out play
  move_out_lem letter zero left w le walls = refl
  move_out_lem letter (suc rounds) left w le (inner, size, held) =
      let drawn : draw letter (left + 2) w.buf ≡ picture letter left =
        ap (draw letter (left + 2)) held ∙ draw_lem letter left inner size (omega arith) in
      let w0 : World = record w { buf = picture letter left } in
      rw drawn (elim (show_frame-cases w0) [
        | inl e ↦ rw e refl
        | inr (w1, e, same) ↦
            let kept = subst IsWalled (sym same) (picture-IsWalled letter left (omega arith)) in
            let next : left + 2 + 1 ≡ left + 1 + 2 = omega arith in
            rw (e, next) (move_out_lem letter rounds (left + 1) w1 (omega arith) kept)
      ])

  bounce_back_lem :
      (letter rounds : ℕ) (w : World)
      → rounds ≤ 76
      → IsWalled w.buf
      → bounce_back rtc_fd garbage env letter rounds w ≡ play (back_frames letter rounds) w
  unfolding bounce_back play
  bounce_back_lem letter zero w le walls = refl
  bounce_back_lem letter (suc rounds) w le (inner, size, held) =
      let drawn : draw letter (rounds + 2) w.buf ≡ picture letter rounds =
        ap (draw letter (rounds + 2)) held ∙ draw_lem letter rounds inner size (omega arith) in
      let w0 : World = record w { buf = picture letter rounds } in
      rw drawn (elim (show_frame-cases w0) [
        | inl e ↦ rw e refl
        | inr (w1, e, same) ↦
            let kept = subst IsWalled (sym same) (picture-IsWalled letter rounds (omega arith)) in
            rw e (bounce_back_lem letter rounds w1 (omega arith) kept)
      ])

  -- One round out and back, and what follows it.
  round_lem :
      (letter n : ℕ) (next : World → Option World) (rest : List Frame) (w : World)
      → n ≤ 76
      → IsWalled w.buf
      → ((w' : World) → IsWalled w'.buf → next w' ≡ play rest w')
      → (move_out rtc_fd garbage env letter n 2 w
          >>= (λ (out : World). bounce_back rtc_fd garbage env letter n out >>= next))
        ≡ play (out_frames letter n 0 ++ (back_frames letter n ++ rest)) w
  round_lem letter n next rest w le walls follows =
      rw
        (
          move_out_lem letter n 0 w (omega arith) walls,
          play-append (out_frames letter n 0) (back_frames letter n ++ rest) w,
        )
        (elim (play-cases (out_frames letter n 0) w (out_frames-InRange letter n 0 (omega arith))
          walls) [
            | inl e ↦ rw e refl
            | inr (w1, e, walls1) ↦
                rw
                  (
                    e,
                    bounce_back_lem letter n w1 le walls1,
                    play-append (back_frames letter n) rest w1,
                  )
                  (elim (play-cases (back_frames letter n) w1 (back_frames-InRange letter n le)
                    walls1) [ inl g ↦ rw g refl | inr (w2, g, walls2) ↦ rw g (follows w2 walls2) ])
          ])

  pub pong_lem :
      (rounds i : ℕ) (w : World)
      → IsWalled w.buf
      → pong rtc_fd garbage env rounds (letter_of i) w ≡ play (all_frames rounds i) w
  unfolding pong all_frames
  pong_lem zero i w walls = unfold play in refl
  pong_lem (suc rounds) i w walls =
      round_lem (letter_of i) 76 (pong rtc_fd garbage env rounds (next_char (letter_of i)))
        (all_frames rounds (i + 1)) w (omega arith) walls
        (λ w' walls'.
          ap (λ c. pong rtc_fd garbage env rounds c w') (next_char_lem i)
          ∙ pong_lem rounds (i + 1) w' walls')
