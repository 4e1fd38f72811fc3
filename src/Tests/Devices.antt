-- ===== src/Tests/Devices.antt =====
-- The interrupt controllers, the clock, the page tables and the screen.
use native.Mathlib.Nat.{suc-ne-zero}
use linux_os.Prelude.{ℕ, ◌+◌, ◌/◌, ◌<◌, ◌≤◌, ◌≡◌, ◌≢◌, ◌⊎◌, none, some, arith}
use linux_os.Rtc.{rtc_read, rtc_init, rtc_handler, rtc_open}
use linux_os.Rtc.Wait.{rtc_read_lem, ticks, Reach-IsValid, Reach, Step}
use linux_os.Rtc.Wait as Wait
use linux_os.Screen.{putc}
use linux_os.Screen.Cursor.{IsValid, putc-IsValid}
use linux_os.Screen.Text.{char_at, putc_lem}
use linux_os.Tests.{clock, screen}

rtc_read_example :
    (1024 / 512 ≤ 2
      → rtc_read clock 2 ≡ some (ticks (1024 / 512) (record clock { rtc_inter_count = 0 })))
    × (2 < 1024 / 512 → rtc_read clock 2 ≡ none)
rtc_read_example = rtc_read_lem clock 2 (suc-ne-zero 511)

Reach_example : Wait.IsValid (rtc_handler (rtc_open (rtc_init (λ r. 0) clock)).1)
Reach_example =
    Reach-IsValid (λ r. 0) clock (Reach.next (Reach.next Reach.here Step.open_file) Step.interrupt)

abbrev four : ℕ
four = 4

putc-IsValid_example : IsValid (putc 65 screen)
putc-IsValid_example = putc-IsValid 65 screen (record { column = omega arith; row = omega arith })

putc_example :
    let t = putc 65 screen in
    (t.screen_x ≡ screen.screen_x + 1)
    × (t.screen_y ≡ screen.screen_y)
    × (char_at t screen.screen_y screen.screen_x ≡ 65)
    × ((4 ≢ screen.screen_y) ⊎ (5 ≢ screen.screen_x) → char_at t 4 5 ≡ char_at screen 4 5)
putc_example =
    putc_lem 65 screen 4 5 (record { column = omega arith; row = omega arith }) (ground arith)
      (ground arith) (omega arith) (omega arith) (omega arith)
