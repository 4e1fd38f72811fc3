-- ===== src/Terminal/Limits.antt =====
-- The limit of the line buffer in `terminal_buf_add` of student-distrib/keyboard.c.
use mathlib.Core.Path.{subst}
use linux_os.Prelude.{sym, refl, ℕ, ◌≡◌, ◌≤◌, List, [], ◌∷◌, none, some, true, false, ◌==◌, arith}
use linux_os.Strings.Compare.{All}
use linux_os.Terminal.{
  Terminals, Key, char, erase, wipe, show, Copied, displayed, clear_screen, terminal_backspace,
  terminal_buf_add, key_event, take_line, terminal_read,
}

-- The size stays within the 126 characters that leave room for the end of the line.
pub terminal_buf_add-size :
    (c : ℕ) (s : Terminals)
    → (displayed s).keyboard_buffer_size ≤ 126
    → (displayed (terminal_buf_add c s)).keyboard_buffer_size ≤ 126
unfolding terminal_buf_add
terminal_buf_add-size c s h = ground arith

full-buf_add :
    (c : ℕ) (s : Terminals) → 126 ≤ (displayed s).keyboard_buffer_size → terminal_buf_add c s ≡ s
unfolding terminal_buf_add
full-buf_add c s h = ground arith

-- A key that takes nothing from the line and leaves the terminal on display.
abbrev pub IsForward : Key → Type 0
IsForward (char c) = Unit {0}
IsForward erase = ⊥
IsForward wipe = Unit {0}
IsForward (show tid) = ⊥

-- A line of 126 characters without Enter, which is waited for.
pub record IsFull (s : Terminals) : Type 0 where
  pub size : (displayed s).keyboard_buffer_size ≡ 126
  pub waits : (displayed s).allow_terminal_read ≡ 0

forward-IsFull : (key : Key) (s : Terminals) → IsForward key → IsFull s → IsFull (key_event key s)
unfolding key_event clear_screen
forward-IsFull (char c) s f full =
    subst IsFull (sym (full-buf_add c s (omega (arith, full.size)))) full
forward-IsFull erase s f full = absurd f
forward-IsFull wipe s f full = record { size = full.size; waits = full.waits }
forward-IsFull (show tid) s f full = absurd f

full_waits :
    (nbytes : ℕ) (keys : List Key) (s : Terminals)
    → IsFull s
    → All IsForward keys
    → terminal_read nbytes keys s ≡ none
unfolding terminal_read
full_waits nbytes [] s full ok = let waits = full.waits in ground arith
full_waits nbytes (key ∷ keys) s full ok =
    let closed : ((displayed s).allow_terminal_read == 0) ≡ true = ground (arith, full.waits) in
    rw closed (full_waits nbytes keys (key_event key s) (forward-IsFull key s ok.0 full) ok.1)

-- With 126 characters typed and no Enter, no further character ends the read, Enter included, nor does
-- the clear of the screen. After one backspace, Enter ends it.
pub terminal_read_full :
    (nbytes : ℕ) (keys : List Key) (s : Terminals)
    → IsFull s
    → All IsForward keys
    → (terminal_read nbytes keys s ≡ none)
      × ((line : Copied) × (s' : Terminals) × (terminal_read nbytes (erase ∷ char 10 ∷ []) s
            ≡ some (line, s')))
terminal_read_full nbytes keys s full ok =
    let closed : ((displayed s).allow_terminal_read == 0) ≡ true = ground (arith, full.waits) in
    let s1 = terminal_backspace s in
    let size : (displayed s1).keyboard_buffer_size ≡ 125 =
      (unfold terminal_backspace in ground (arith, full.size)) in
    let waits : ((displayed s1).allow_terminal_read == 0) ≡ true =
      (unfold terminal_backspace in ground (arith, full.size, full.waits)) in
    let goes : ((displayed (terminal_buf_add 10 s1)).allow_terminal_read == 0) ≡ false =
      (unfold terminal_buf_add in ground (arith, size)) in
    (
      full_waits nbytes keys s full ok,
      (
        (take_line nbytes (terminal_buf_add 10 s1)).0,
        (take_line nbytes (terminal_buf_add 10 s1)).1,
        unfold terminal_read key_event in rw (closed, waits, goes) refl,
      ),
    )
