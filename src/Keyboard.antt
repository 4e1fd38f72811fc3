-- ===== src/Keyboard.antt =====
-- The keyboard interrupt of student-distrib/keyboard.c, and the switch of the displayed terminal. The
-- column of `scan_codes` that says which keys are down is the function `pressed` of the row; the other
-- three columns are constant.
pub mod Keys
pub mod Switch
use linux_os.Prelude.{
  ℕ, zero, suc, ◌+◌, ◌-◌, ◌*◌, Bool, true, false, List, [], ◌∷◌, Option, none, some, ◌==◌, ltb, leb,
  not, ◌&&◌, ◌||◌, if◌then◌else◌, u32, update, get_or,
}
use linux_os.Pic.{send_eoi, enable_irq}
use linux_os.Paging.{syscall_paging_setup, eight_m, four_m}
use linux_os.Terminal.{Terminals, swap_screens, clear_screen, terminal_backspace, terminal_buf_add}
use linux_os.Kernel.{Kernel, Pcb, with_pcb, kernel_stack, find_bottom_task, switch_running_task}

abbrev pub keyboard_irq_num : ℕ
keyboard_irq_num = 1

abbrev pub leftshift : ℕ
leftshift = 0x2A

abbrev pub rightshift : ℕ
rightshift = 0x36

abbrev pub left_ctrl : ℕ
left_ctrl = 0x1D

abbrev pub left_alt : ℕ
left_alt = 0x38

abbrev pub caps_lock : ℕ
caps_lock = 0x3A

abbrev pub function1_key : ℕ
function1_key = 0x3B

abbrev pub function2_key : ℕ
function2_key = 0x3C

abbrev pub function3_key : ℕ
function3_key = 0x3D

-- The first three columns of `scan_codes`: without shift, with shift, and with caps lock.
abbrev pub scan_codes : List (ℕ × ℕ × ℕ)
scan_codes =
    (0, 0, 0)
    ∷ (0, 0, 0)
    ∷ (b'1', b'!', b'1')
    ∷ (b'2', b'@', b'2')
    ∷ (b'3', b'#', b'3')
    ∷ (b'4', b'$', b'4')
    ∷ (b'5', b'%', b'5')
    ∷ (b'6', b'^', b'6')
    ∷ (b'7', b'&', b'7')
    ∷ (b'8', b'*', b'8')
    ∷ (b'9', b'(', b'9')
    ∷ (b'0', b')', b'0')
    ∷ (b'-', b'_', b'-')
    ∷ (b'=', b'+', b'=')
    ∷ (0, 0, 0)
    ∷ (9, 9, 9)
    ∷ (b'q', b'Q', b'Q')
    ∷ (b'w', b'W', b'W')
    ∷ (b'e', b'E', b'E')
    ∷ (b'r', b'R', b'R')
    ∷ (b't', b'T', b'T')
    ∷ (b'y', b'Y', b'Y')
    ∷ (b'u', b'U', b'U')
    ∷ (b'i', b'I', b'I')
    ∷ (b'o', b'O', b'O')
    ∷ (b'p', b'P', b'P')
    ∷ (b'[', b'{', b'[')
    ∷ (b']', b'}', b']')
    ∷ (10, 10, 10)
    ∷ (0, 0, 0)
    ∷ (b'a', b'A', b'A')
    ∷ (b's', b'S', b'S')
    ∷ (b'd', b'D', b'D')
    ∷ (b'f', b'F', b'F')
    ∷ (b'g', b'G', b'G')
    ∷ (b'h', b'H', b'H')
    ∷ (b'j', b'J', b'J')
    ∷ (b'k', b'K', b'K')
    ∷ (b'l', b'L', b'L')
    ∷ (b';', b':', b';')
    ∷ (39, b'"', 39)
    ∷ (b'`', b'~', b'`')
    ∷ (0, 0, 0)
    ∷ (92, b'|', 92)
    ∷ (b'z', b'Z', b'Z')
    ∷ (b'x', b'X', b'X')
    ∷ (b'c', b'C', b'C')
    ∷ (b'v', b'V', b'V')
    ∷ (b'b', b'B', b'B')
    ∷ (b'n', b'N', b'N')
    ∷ (b'm', b'M', b'M')
    ∷ (b',', b'<', b',')
    ∷ (b'.', b'>', b'.')
    ∷ (b'/', b'?', b'/')
    ∷ (0, 0, 0)
    ∷ (0, 0, 0)
    ∷ (0, 0, 0)
    ∷ (32, 32, 32)
    ∷ (0, 0, 0)
    ∷ (0, 0, 0)
    ∷ (0, 0, 0)
    ∷ []

-- The registers that `switch_display_terminal` saves and loads: the two stack registers, and the two
-- registers that stand for the operands of its last `asm`, which are outputs that it reads: nothing
-- has set them.
pub record Registers : Type 0 where
  pub esp : ℕ
  pub ebp : ℕ
  pub operand_0 : ℕ
  pub operand_1 : ℕ

-- What the two `asm` statements leave in the control blocks of the terminals' shells.
unfoldable pub swap_stacks : Registers → ℕ → ℕ → Kernel → Kernel
swap_stacks r prev next k =
    let saved = with_pcb k prev (record (k.pcbs prev) { old_esp = r.esp; old_ebp = r.ebp }) in
    with_pcb saved next (record (saved.pcbs next) { old_esp = r.operand_0; old_ebp = r.operand_1 })

-- How a switch ends: it returns to its caller; it goes on with other stack registers, which are
-- given; or a chain of children has no end.
pub data Switched : Type 0 where
  on_stack : Kernel → Switched
  off_stack : ℕ → ℕ → Kernel → Switched
  no_end : Switched

-- The second `asm` loads its operands into the stack registers, so the return behind it finds its
-- frame when they hold what the registers held.
unfoldable pub land : Registers → Kernel → Switched
land r k =
    if r.operand_0 == r.esp && r.operand_1 == r.ebp
    then on_stack k
    else off_stack r.operand_0 r.operand_1 k

-- The memory that a switch leaves.
unfoldable pub stored : Switched → Option Kernel
stored (on_stack k) = some k
stored (off_stack esp ebp k) = some k
stored no_end = none

unfoldable pub switched : Registers → ℕ → ℕ → Option (ℕ × Kernel) → Switched
unfolding land
switched r prev next none = no_end
switched r prev next (some (ret, k)) = land r (swap_stacks r prev next k)

-- The part of `switch_display_terminal` behind the guard, for the bottom task of the terminal.
unfoldable pub switch_to : Registers → ℕ → ℕ → Kernel → Switched
switch_to r tid bottom k =
    let shown : Kernel = record k {
      paging = syscall_paging_setup (u32 (eight_m + u32 (four_m * bottom))) k.paging;
      esp0 = kernel_stack bottom;
      terminals = swap_screens tid k.terminals;
    } in
    switched r k.terminals.display_terminal_id tid (switch_running_task shown tid)

unfoldable pub with_bottom : Registers → ℕ → Kernel → Option ℕ → Switched
with_bottom r tid k none = no_end
with_bottom r tid k (some bottom) = switch_to r tid bottom k

unfoldable pub switch_display_terminal : Registers → ℕ → Kernel → Switched
switch_display_terminal r tid k =
    if k.terminals.display_terminal_id == tid || ltb 2 tid
    then on_stack k
    else with_bottom r tid k (find_bottom_task k tid)

-- The keyboard's own state and the kernel's.
pub record Board : Type 0 where
  pub pressed : ℕ → ℕ
  pub kernel : Kernel

unfoldable pub keyboard_init : Kernel → Kernel
keyboard_init k = record k { rtc = record k.rtc { pic = enable_irq k.rtc.pic keyboard_irq_num } }

-- The guards on the code.
unfoldable pub is_ignored : ℕ → Bool
is_ignored press_code = ltb 0xBD press_code || (ltb 0x3D press_code && ltb press_code 0x81)

-- "record key press" and "record key release".
unfoldable pub record_key : ℕ → (ℕ → ℕ) → ℕ → ℕ
record_key press_code pressed =
    if leb press_code function3_key
    then update pressed press_code 1
    else if press_code == 0xBA
    then pressed
    else update pressed (press_code - 0x80) 0

unfoldable pub toggle_caps : ℕ → (ℕ → ℕ) → ℕ → ℕ
toggle_caps press_code pressed =
    if press_code == caps_lock
    then update pressed press_code (if pressed press_code == 1 then 0 else 1)
    else pressed

unfoldable pub keys_after : ℕ → (ℕ → ℕ) → ℕ → ℕ
unfolding record_key toggle_caps
keys_after press_code pressed = toggle_caps press_code (record_key press_code pressed)

abbrev pub shift_on : (ℕ → ℕ) → Bool
shift_on pressed = pressed leftshift == 1 || pressed rightshift == 1

-- The character of a key, 0 for none.
unfoldable pub char_of : ℕ → (ℕ → ℕ) → ℕ
char_of press_code pressed =
    let (lower, shifted, caps) = get_or scan_codes press_code (0, 0, 0) in
    let off = (if shift_on pressed then shifted else lower) in
    let on = (if shift_on pressed then (if shifted == caps then lower else shifted) else caps) in
    if ltb caps_lock press_code
    then 0
    else if pressed caps_lock == 1
    then on
    else if pressed caps_lock == 0
    then off
    else 0

abbrev pub on_terminals : (Terminals → Terminals) → Kernel → Kernel
on_terminals f k = record k { terminals = f k.terminals }

-- The chain of special circumstances, for the keys that are down.
unfoldable pub key_action : Registers → ℕ → (ℕ → ℕ) → Kernel → Switched
key_action r press_code pressed k =
    let c = char_of press_code pressed in
    if pressed left_ctrl == 1 && pressed 0x26 == 1
    then on_stack (on_terminals clear_screen k)
    else if press_code == 0x0E
    then on_stack (on_terminals terminal_backspace k)
    else if pressed left_alt == 1 && pressed function1_key == 1
    then switch_display_terminal r 0 k
    else if pressed left_alt == 1 && pressed function2_key == 1
    then switch_display_terminal r 1 k
    else if pressed left_alt == 1 && pressed function3_key == 1
    then switch_display_terminal r 2 k
    else if c == 0
    then on_stack k
    else on_stack (on_terminals (terminal_buf_add c) k)

unfoldable pub end_interrupt : Kernel → Kernel
end_interrupt k = record k { rtc = record k.rtc { pic = send_eoi k.rtc.pic keyboard_irq_num } }

-- How the handler ends: it returns; it goes on with other stack registers behind a switch, where the
-- interrupt is not ended; or not at all.
pub data Handled : Type 0 where
  handled : Board → Handled
  off_handler : ℕ → ℕ → Board → Handled
  never : Handled

unfoldable pub ended : (ℕ → ℕ) → Switched → Handled
ended pressed (on_stack k) = handled (record { pressed = pressed; kernel = end_interrupt k })
ended pressed (off_stack esp ebp k) = off_handler esp ebp (record { pressed = pressed; kernel = k })
ended pressed no_end = never

-- `press_code` is the byte that the controller gives.
unfoldable pub keyboard_handler : Registers → ℕ → Board → Handled
keyboard_handler r press_code b =
    let down = keys_after press_code b.pressed in
    if is_ignored press_code
    then ended b.pressed (on_stack b.kernel)
    else ended down (key_action r press_code down b.kernel)
