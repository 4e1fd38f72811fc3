-- ===== src/Keyboard/Keys.antt =====
-- `keyboard_handler` of student-distrib/keyboard.c: the keys that are down, and the end of interrupt.
use linux_os.Prelude.{
  ℕ, ◌+◌, ◌<◌, ◌≤◌, ◌≡◌, ◌≢◌, ◌∙◌, ap, refl, sym, Bool, true, false, List, [], ◌∷◌, Option, none,
  some, ◌==◌, ◌&&◌, ◌||◌, if◌then◌else◌, arith, some_inv, Option-cases, inl, inr, Bool-cases,
  get_or,
}
use linux_os.Pic.{send_eoi}
use linux_os.Rtc.{Rtc}
use linux_os.Terminal.{clear_screen, terminal_backspace, terminal_buf_add}
use linux_os.Kernel.{Kernel, find_bottom_task}
use linux_os.Keyboard.Switch.{switch_display_terminal_lem, KeepsStack, land-KeepsStack}
use linux_os.Keyboard.{
  left_ctrl, left_alt, function1_key, function2_key, function3_key, Registers, Board, scan_codes,
  caps_lock, keys_after, record_key, toggle_caps, is_ignored, char_of, shift_on, key_action,
  end_interrupt, Switched, on_stack, off_stack, no_end, land, Handled, handled, off_handler, never,
  ended, keyboard_handler, switch_display_terminal, on_terminals,
}

-- The code of a press of a key is the key's, that of a release is 0x80 more. Apart from caps lock, a
-- press marks the key as down, a release as up, and no other key changes. The key 0x3D, F3, has no row
-- among the 61 of `scan_codes`.
pub keys_after_lem :
    (key j : ℕ) (pressed : ℕ → ℕ)
    → key ≤ 0x3D
    → key ≢ caps_lock
    → (keys_after key pressed j ≡ (if j == key then 1 else pressed j))
      × (keys_after (key + 0x80) pressed j ≡ (if j == key then 0 else pressed j))
unfolding keys_after record_key toggle_caps
keys_after_lem key j pressed small other = (ground arith, ground arith)

keys_after-caps :
    (press_code : ℕ) (pressed : ℕ → ℕ)
    → is_ignored press_code ≡ false
    → pressed caps_lock ≡ 0
    → keys_after press_code pressed caps_lock ≡ 0
unfolding keys_after record_key toggle_caps is_ignored
keys_after-caps press_code pressed used off = ground arith

-- The keyboard as the handler leaves it, on whatever stack.
unfoldable pub board_of : Handled → Option Board
board_of (handled b) = some b
board_of (off_handler esp ebp b) = some b
board_of never = none

ended_inv :
    (pressed : ℕ → ℕ) (o : Switched) (b' : Board)
    → board_of (ended pressed o) ≡ some b'
    → (j : ℕ) → b'.pressed j ≡ pressed j
unfolding ended board_of
ended_inv pressed (on_stack k) b' e j = ap (λ (b : Board). b.pressed j) (sym (some_inv _ _ e))
ended_inv pressed (off_stack esp ebp k) b' e j =
    ap (λ (b : Board). b.pressed j) (sym (some_inv _ _ e))
ended_inv pressed no_end b' e j = cc

handler-caps :
    (r : Registers) (press_code : ℕ) (b b' : Board)
    → board_of (keyboard_handler r press_code b) ≡ some b'
    → b.pressed caps_lock ≡ 0
    → b'.pressed caps_lock ≡ 0
handler-caps r press_code b b' e off = elim (Bool-cases (is_ignored press_code)) [
  | inl out ↦
      let runs : keyboard_handler r press_code b ≡ ended b.pressed (on_stack b.kernel) =
        (unfold keyboard_handler in rw out refl) in
      ended_inv b.pressed (on_stack b.kernel) b' (ap board_of (sym runs) ∙ e) caps_lock ∙ off
  | inr used ↦
      let down = keys_after press_code b.pressed in
      let acts = key_action r press_code down b.kernel in
      let runs : keyboard_handler r press_code b ≡ ended down acts =
        (unfold keyboard_handler in rw used refl) in
      ended_inv down acts b' (ap board_of (sym runs) ∙ e) caps_lock
      ∙ keys_after-caps press_code b.pressed used off
]

unfoldable pub next_board : Registers → ℕ → Option Board → Option Board
next_board r code none = none
next_board r code (some b) = board_of (keyboard_handler r code b)

-- Keyboard interrupts one after the other, each with the registers and the byte at that moment.
unfoldable pub type_codes : List (Registers × ℕ) → Option Board → Option Board
type_codes [] o = o
type_codes ((r, code) ∷ codes) o = type_codes codes (next_board r code o)

abbrev NoCaps : Option Board → Type 0
NoCaps none = Unit {0}
NoCaps (some b) = b.pressed caps_lock ≡ 0

next-NoCaps :
    (r : Registers) (code : ℕ) (o : Option Board) → NoCaps o → NoCaps (next_board r code o)
unfolding next_board
next-NoCaps r code none h = tt
next-NoCaps r code (some b) h = elim (Option-cases (board_of (keyboard_handler r code b))) [
  | inl stuck ↦ rw stuck tt
  | inr (b', e) ↦ rw e (handler-caps r code b b' e h)
]

type_codes-NoCaps :
    (codes : List (Registers × ℕ)) (o : Option Board) → NoCaps o → NoCaps (type_codes codes o)
unfolding type_codes
type_codes-NoCaps [] o h = h
type_codes-NoCaps ((r, code) ∷ codes) o h =
    type_codes-NoCaps codes (next_board r code o) (next-NoCaps r code o h)

-- Caps lock never comes on: from keys that are up, whatever bytes the keyboard sends, its mark is 0
-- after each of them, since a press marks the key as down before the toggle looks at it. So a key's
-- character only depends on shift.
pub caps_lock-never :
    (codes : List (Registers × ℕ)) (b b' : Board) (key : ℕ)
    → b.pressed caps_lock ≡ 0
    → type_codes codes (some b) ≡ some b'
    → key < caps_lock
    → (b'.pressed caps_lock ≡ 0)
      × (char_of key b'.pressed ≡ (
          let (lower, shifted, caps) = get_or scan_codes key (0, 0, 0) in
          if shift_on b'.pressed then shifted else lower))
unfolding char_of
caps_lock-never codes b b' key off typed small =
    let kept : b'.pressed caps_lock ≡ 0 = rw typed at (type_codes-NoCaps codes (some b) off) in
    (kept, ground arith)

-- The part of the handler that acts returns, and leaves the clock's state.
abbrev KeepsClock : Kernel → Switched → Type 0
KeepsClock k o = (k' : Kernel) × (o ≡ on_stack k') × (k'.rtc ≡ k.rtc)

if-KeepsClock :
    (k : Kernel) (test : Bool) (x y : Switched)
    → (test ≡ true → KeepsClock k x)
    → KeepsClock k y
    → KeepsClock k (if test then x else y)
if-KeepsClock k true x y hx hy = hx refl
if-KeepsClock k false x y hx hy = hy

-- The keys Alt and one of F1 to F3 are down.
unfoldable pub is_switch : (ℕ → ℕ) → Bool
is_switch pressed =
    pressed left_alt == 1
    && (pressed function1_key == 1 || (pressed function2_key == 1 || pressed function3_key == 1))

switch-KeepsClock :
    (r : Registers) (tid : ℕ) (k : Kernel)
    → KeepsStack r
    → tid < 3
    → (bottom : ℕ) × (find_bottom_task k tid ≡ some bottom)
    → KeepsClock k (switch_display_terminal r tid k)
switch-KeepsClock r tid k keeps small (bottom, found) =
    elim (Bool-cases (k.terminals.display_terminal_id == tid)) [
      | inl here ↦ (k, (unfold switch_display_terminal in rw here refl), refl)
      | inr other ↦
          let (k', runs, shows) =
            switch_display_terminal_lem r tid bottom k small (ground arith) found in
          (k', runs ∙ (unfold land in land-KeepsStack r k' keeps), shows.clock)
    ]

key_action-KeepsClock :
    (r : Registers) (press_code : ℕ) (pressed : ℕ → ℕ) (k : Kernel)
    → (is_switch pressed ≡ true → KeepsStack r)
    → ((tid : ℕ) → tid < 3 → (bottom : ℕ) × (find_bottom_task k tid ≡ some bottom))
    → KeepsClock k (key_action r press_code pressed k)
unfolding key_action
key_action-KeepsClock r press_code pressed k keeps chains =
    if-KeepsClock k (pressed left_ctrl == 1 && pressed 0x26 == 1) (on_stack cleared) else_1
      (λ e. (cleared, refl, refl))
      (if-KeepsClock k (press_code == 0x0E) (on_stack erased) else_2 (λ e. (erased, refl, refl))
        (if-KeepsClock k (alt && pressed function1_key == 1) (shown 0) else_3
          (λ e. shown-Keeps 0 (omega arith) (unfold is_switch in ground arith))
          (if-KeepsClock k (alt && pressed function2_key == 1) (shown 1) else_4
            (λ e. shown-Keeps 1 (omega arith) (unfold is_switch in ground arith))
            (if-KeepsClock k (alt && pressed function3_key == 1) (shown 2) else_5
              (λ e. shown-Keeps 2 (omega arith) (unfold is_switch in ground arith))
              (if-KeepsClock k (c == 0) (on_stack k) (on_stack typed) (λ e. (k, refl, refl))
                (typed, refl, refl))))))
  where
    c : ℕ
    c = char_of press_code pressed

    alt : Bool
    alt = pressed left_alt == 1

    cleared : Kernel
    cleared = on_terminals clear_screen k

    erased : Kernel
    erased = on_terminals terminal_backspace k

    typed : Kernel
    typed = on_terminals (terminal_buf_add c) k

    shown : ℕ → Switched
    shown tid = switch_display_terminal r tid k

    shown-Keeps : (tid : ℕ) → tid < 3 → is_switch pressed ≡ true → KeepsClock k (shown tid)
    shown-Keeps tid small e = switch-KeepsClock r tid k (keeps e) small (chains tid small)

    else_5 : Switched
    else_5 = if c == 0 then on_stack k else on_stack typed

    else_4 : Switched
    else_4 = if alt && pressed function3_key == 1 then shown 2 else else_5

    else_3 : Switched
    else_3 = if alt && pressed function2_key == 1 then shown 1 else else_4

    else_2 : Switched
    else_2 = if alt && pressed function1_key == 1 then shown 0 else else_3

    else_1 : Switched
    else_1 = if press_code == 0x0E then on_stack erased else else_2

-- When every terminal's chain of children ends, the handler returns for every byte behind which Alt is
-- not down together with F1, F2 or F3, and it has told the interrupt controllers of the end of the
-- keyboard's interrupt exactly once. With these keys down, which switch the terminal, it does so when
-- the operands of the switch's last `asm` hold the stack registers.
pub keyboard_handler_lem :
    (r : Registers) (press_code : ℕ) (b : Board)
    → (is_switch (keys_after press_code b.pressed) ≡ true → KeepsStack r)
    → ((tid : ℕ) → tid < 3 → (bottom : ℕ) × (find_bottom_task b.kernel tid ≡ some bottom))
    → (b' : Board) × (keyboard_handler r press_code b ≡ handled b')
      × (b'.kernel.rtc.pic ≡ send_eoi b.kernel.rtc.pic 1)
unfolding keyboard_handler ended end_interrupt
keyboard_handler_lem r press_code b keeps chains = elim (Bool-cases (is_ignored press_code)) [
  | inl out ↦ (record { pressed = b.pressed; kernel = end_interrupt b.kernel }, rw out refl, refl)
  | inr used ↦
      let down = keys_after press_code b.pressed in
      let (k', acts, clock) = key_action-KeepsClock r press_code down b.kernel keeps chains in
      (
        record { pressed = down; kernel = end_interrupt k' },
        rw (used, acts) refl,
        ap (λ (c : Rtc). send_eoi c.pic 1) clock,
      )
]
