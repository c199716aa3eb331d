-- ===== src/Pic.antt =====
-- amd64/pic.c and machine/pic.h: the two interrupt controllers. The interrupts 8 to 15 belong to
-- the second one, which reports to the first as interrupt 2.
pub mod Masks
pub mod Tests
use mkrn.Prelude.{
  ℕ, ◌+◌, ◌-◌, ◌*◌, ◌/◌, ◌%◌, ◌^◌, bit_and, bit_or, ltb, ◌==◌, ◌&&◌, if◌then◌else◌, Bool, true,
  false,
}
use mkrn.Cpu.{Cpu}
use mkrn.Pmm.{set_bit8, clear_bit8}

abbrev pub pic1_cmd : ℕ
pic1_cmd = 0x20

abbrev pub pic1_data : ℕ
pic1_data = 0x21

abbrev pub pic2_cmd : ℕ
pic2_cmd = 0xa0

abbrev pub pic2_data : ℕ
pic2_data = 0xa1

abbrev pub irq_base : ℕ
irq_base = 32

abbrev icw1_init : ℕ
icw1_init = 0x10

abbrev icw1_icw4 : ℕ
icw1_icw4 = 0x01

abbrev icw4_8086 : ℕ
icw4_8086 = 0x01

abbrev pub pic_eoi_cmd : ℕ
pic_eoi_cmd = 0x20

abbrev pub pic_read_isr_cmd : ℕ
pic_read_isr_cmd = 0x0b

-- `(irq < 8) ? PIC1_DATA : PIC2_DATA`
abbrev pub data_port : ℕ → ℕ
data_port irq = if ltb irq 8 then pic1_data else pic2_data

module _ {W : Type 0} (cpu : Cpu W) where
  io_wait : W → W
  io_wait w = cpu.outb 0x80 0 w

  pic_init : W → W
  pic_init w =
      let w1 : W = io_wait (cpu.outb pic1_cmd (bit_or icw1_init icw1_icw4) w) in
      let w2 : W = io_wait (cpu.outb pic2_cmd (bit_or icw1_init icw1_icw4) w1) in
      let w3 : W = io_wait (cpu.outb pic1_data irq_base w2) in
      let w4 : W = io_wait (cpu.outb pic2_data (irq_base + 8) w3) in
      let w5 : W = io_wait (cpu.outb pic1_data 0x04 w4) in
      let w6 : W = io_wait (cpu.outb pic2_data 0x02 w5) in
      let w7 : W = io_wait (cpu.outb pic1_data icw4_8086 w6) in
      let w8 : W = io_wait (cpu.outb pic2_data icw4_8086 w7) in
      cpu.outb pic2_data 0xff (cpu.outb pic1_data 0xff w8)

  pub pic_mask : ℕ → W → W
  pic_mask irq w =
      let (v, w') = cpu.inb (data_port irq) w in cpu.outb (data_port irq) (set_bit8 v (irq % 8)) w'

  -- The last lines of pic_unmask.
  pub unmask_cascade : W → W
  unmask_cascade w = let (v, w') = cpu.inb pic1_data w in cpu.outb pic1_data (clear_bit8 v 2) w'

  pub pic_unmask : ℕ → W → W
  pic_unmask irq w =
      let (v, w') = cpu.inb (data_port irq) w in
      let w'' : W = cpu.outb (data_port irq) (clear_bit8 v (irq % 8)) w' in
      if ltb irq 8 then w'' else unmask_cascade w''

  -- The two bytes have no bit in common.
  unfoldable pub pic_read_isr : W → ℕ × W
  pic_read_isr w =
      let w' : W = cpu.outb pic2_cmd pic_read_isr_cmd (cpu.outb pic1_cmd pic_read_isr_cmd w) in
      let (high, w'') = cpu.inb pic2_cmd w' in
      let (low, w''') = cpu.inb pic1_cmd w'' in (high * 2 ^ 8 % 2 ^ 16 + low, w''')

  unfoldable pub pic_is_spurious : ℕ → W → Bool × W
  pic_is_spurious irq w =
      let (isr, w') = pic_read_isr w in
      if irq == 7
      then ((bit_and isr 0x0080 == 0), w')
      else if irq == 15
      then if bit_and isr 0x8000 == 0 then (true, cpu.outb pic1_cmd pic_eoi_cmd w') else (false, w')
      else (false, w)

  unfoldable pub pic_eoi : ℕ → W → W
  pic_eoi irq w =
      cpu.outb pic1_cmd pic_eoi_cmd (if ltb irq 8 then w else cpu.outb pic2_cmd pic_eoi_cmd w)
