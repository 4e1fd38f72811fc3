-- ===== src/Pic.antt =====
-- The 8259 interrupt controllers of student-distrib/i8259.c: the two masks and the bytes sent.
pub mod Masks
pub mod Eoi
use linux_os.Prelude.{
  ℕ, ◌+◌, ◌-◌, ◌*◌, ◌%◌, ◌^◌, Bool, List, [], ◌∷◌, ◌++◌, ltb, if◌then◌else◌, bit_and, bit_or,
}
use linux_os.Io.{Io, Trace}

-- `master_mask` and `slave_mask`, and what has been sent to the ports.
pub record Pic : Type 0 where
  pub master_mask : ℕ
  pub slave_mask : ℕ
  pub trace : Trace

abbrev pub master_8259_port : ℕ
master_8259_port = 0x20

abbrev pub slave_8259_port : ℕ
slave_8259_port = 0xA0

abbrev pub master_8259_data : ℕ
master_8259_data = 0x21

abbrev pub slave_8259_data : ℕ
slave_8259_data = 0xA1

abbrev pub eoi : ℕ
eoi = 0x60

abbrev pub all_mask : ℕ
all_mask = 0xFF

unfoldable pub initial : Pic
initial = record { master_mask = 0xFB; slave_mask = 0xFF; trace = [] }

unfoldable pub i8259_init : Pic → Pic
i8259_init s = record s {
  trace =
      s.trace
      ++ (Io.outb all_mask master_8259_data
          ∷ Io.outb all_mask slave_8259_data
          ∷ Io.outb 0x11 master_8259_port
          ∷ Io.outb 0x20 master_8259_data
          ∷ Io.outb 0x04 master_8259_data
          ∷ Io.outb 0x01 master_8259_data
          ∷ Io.outb 0x11 slave_8259_port
          ∷ Io.outb 0x28 slave_8259_data
          ∷ Io.outb 0x02 slave_8259_data
          ∷ Io.outb 0x01 slave_8259_data
          ∷ Io.outb s.master_mask master_8259_data
          ∷ Io.outb s.slave_mask slave_8259_data
          ∷ []);
}

-- The `uint8_t` mask `0xFF - (1 << k)`, and `1 << k`.
unfoldable pub clear_bit : ℕ → ℕ
clear_bit k = (255 + 256 - 2 ^ k) % 256

unfoldable pub set_bit : ℕ → ℕ
set_bit k = 2 ^ k % 256

unfoldable pub enable_irq : Pic → ℕ → Pic
unfolding clear_bit
enable_irq s irq_num =
    let master = bit_and s.master_mask (clear_bit irq_num) in
    let slave = bit_and s.slave_mask (clear_bit (irq_num - 8)) in
    if ltb irq_num 8
    then record s {
      master_mask = master;
      trace = s.trace ++ (Io.outb master master_8259_data ∷ []);
    }
    else if ltb irq_num 16
    then record s { slave_mask = slave; trace = s.trace ++ (Io.outb slave slave_8259_data ∷ []) }
    else s

unfoldable pub disable_irq : Pic → ℕ → Pic
unfolding set_bit
disable_irq s irq_num =
    let master = bit_or s.master_mask (set_bit irq_num) in
    let slave = bit_or s.slave_mask (set_bit (irq_num - 8)) in
    if ltb irq_num 8
    then record s {
      master_mask = master;
      trace = s.trace ++ (Io.outb master master_8259_data ∷ []);
    }
    else if ltb irq_num 16
    then record s { slave_mask = slave; trace = s.trace ++ (Io.outb slave slave_8259_data ∷ []) }
    else s

-- The bytes that `send_eoi` writes.
unfoldable pub eoi_trace : ℕ → Trace
eoi_trace irq_num =
    if ltb irq_num 8
    then Io.outb (bit_or eoi irq_num) master_8259_port ∷ []
    else if ltb irq_num 16
    then Io.outb (bit_or eoi (irq_num - 8)) slave_8259_port
      ∷ Io.outb (bit_or eoi 2) master_8259_port
      ∷ []
    else []

unfoldable pub send_eoi : Pic → ℕ → Pic
unfolding eoi_trace
send_eoi s irq_num = record s { trace = s.trace ++ eoi_trace irq_num }
