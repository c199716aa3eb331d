-- ===== src/Trap.antt =====
-- amd64/trap.c, amd64/irq.c, amd64/pit.c and machine/idt.h: what an exception or a hardware
-- interrupt does. A function pointer is its address, 0 for NULL, and `call` is what a call of it
-- does to the machine. klog() and panic() are given the values that they print.
pub mod Dispatch
pub mod Tests
use mkrn.Prelude.{
  ℕ, zero, suc, ◌+◌, ◌-◌, ◌*◌, ◌/◌, ◌%◌, ◌^◌, bit_and, bit_or, ltb, ◌==◌, ◌&&◌, ◌||◌, not,
  if◌then◌else◌, Bool, true, false, Mem, List, [], ◌∷◌, get_or, ◌⊎◌, inl, inr, u32_mod, add32,
  sub32,
}
use mkrn.Cpu.{Cpu}
use mkrn.Segments.{nexc, nirq}
use mkrn.Pic.{irq_base, pic_is_spurious, pic_eoi, pic_unmask}
use mkrn.Tsc.{pit_hz}

pub record Trapframe : Type 0 where
  pub edi : ℕ
  pub esi : ℕ
  pub ebp : ℕ
  pub esp_dummy : ℕ
  pub ebx : ℕ
  pub edx : ℕ
  pub ecx : ℕ
  pub eax : ℕ
  pub vector : ℕ
  pub err : ℕ
  pub eip : ℕ
  pub cs : ℕ
  pub eflags : ℕ

pub data TrapName : Type 0 where
  divide_error debug nmi breakpoint overflow bound_range_exceeded invalid_opcode : TrapName
  device_not_available double_fault coprocessor_segment_overrun invalid_tss : TrapName
  segment_not_present stack_segment_fault general_protection page_fault reservado : TrapName
  x87_fp_exception alignment_check machine_check simd_fp_exception : TrapName
  virtualization_exception control_protection_exception excecao_desconhecida : TrapName

abbrev trap_name : List TrapName
trap_name =
    divide_error ∷ debug ∷ nmi ∷ breakpoint ∷ overflow ∷ bound_range_exceeded ∷ invalid_opcode
    ∷ device_not_available ∷ double_fault ∷ coprocessor_segment_overrun ∷ invalid_tss
    ∷ segment_not_present ∷ stack_segment_fault ∷ general_protection ∷ page_fault ∷ reservado
    ∷ x87_fp_exception ∷ alignment_check ∷ machine_check ∷ simd_fp_exception
    ∷ virtualization_exception ∷ control_protection_exception ∷ reservado ∷ reservado ∷ reservado
    ∷ reservado ∷ reservado ∷ reservado ∷ reservado ∷ reservado ∷ reservado ∷ reservado ∷ []

pub data SelectorTable : Type 0 where
  idt ldt gdt : SelectorTable

-- A line of klog(), with the values of its format.
pub data LogLine : Type 0 where
  no_selector : LogLine
  selector : SelectorTable → ℕ → Bool → LogLine
  fault_at : ℕ → ℕ → ℕ → LogLine
  fault_kind : Bool → Bool → Bool → Bool → Bool → LogLine
  opcode_bytes : List ℕ → LogLine
  cpu_state : LogLine

-- `x & bit`, as a condition
abbrev has_bit : ℕ → ℕ → Bool
has_bit x bit = not (bit_and x bit == 0)

log_selector_err : ℕ → LogLine
log_selector_err err =
    if err == 0
    then no_selector
    else selector (if has_bit err 0x02 then idt else if has_bit err 0x04 then ldt else gdt)
        (err / 2 ^ 3) (has_bit err 0x01)

-- PF_PRESENT, PF_WRITE, PF_USER, PF_INSTR and PF_RSVD, in the order of the text; `cr2` is what
-- rcr2() reads.
pagefault_handler : ℕ → Trapframe → List LogLine
pagefault_handler cr2 tf =
    fault_at cr2 tf.eip tf.err
    ∷ fault_kind (has_bit tf.err 0x01) (has_bit tf.err 0x02) (has_bit tf.err 0x04)
        (has_bit tf.err 0x10) (has_bit tf.err 0x08)
    ∷ []

log_invalid_opcode : Mem → ℕ → LogLine
log_invalid_opcode m eip = opcode_bytes (
    m eip
    ∷ m (add32 eip 1)
    ∷ m (add32 eip 2)
    ∷ m (add32 eip 3)
    ∷ m (add32 eip 4)
    ∷ m (add32 eip 5)
    ∷ [])

-- The lines in front of the panic, and the values of its message.
pub record Crash : Type 0 where
  pub lines : List LogLine
  pub vector : ℕ
  pub name : TrapName
  pub err : ℕ
  pub eip : ℕ
  pub cs : ℕ
  pub eflags : ℕ

-- The switch of trap_handler, over T_UD, T_DF, T_TS, T_NP, T_SS, T_GP and T_PF.
trap_lines : Mem → ℕ → Trapframe → List LogLine
trap_lines m cr2 tf =
    if tf.vector == 6
    then log_invalid_opcode m tf.eip ∷ []
    else if tf.vector == 8
    then cpu_state ∷ []
    else if ltb 9 tf.vector && ltb tf.vector 14
    then log_selector_err tf.err ∷ []
    else if tf.vector == 14
    then pagefault_handler cr2 tf
    else []

-- trap_handler never returns: it ends in the panic.
trap_handler : Mem → ℕ → Trapframe → Crash
trap_handler m cr2 tf = record {
  lines = trap_lines m cr2 tf;
  vector = tf.vector;
  name =
      if ltb tf.vector nexc
      then get_or trap_name tf.vector excecao_desconhecida
      else excecao_desconhecida;
  err = tf.err;
  eip = tf.eip;
  cs = tf.cs;
  eflags = tf.eflags;
}

-- `irq_table`, with the address of the handler of each interrupt.
abbrev pub IrqTable : Type 0
IrqTable = ℕ → ℕ

irq_install : IrqTable → ℕ → ℕ → IrqTable
irq_install t irq handler = if ltb irq nirq then (λ k. if k == irq then handler else t k) else t

module _ {W : Type 0} (cpu : Cpu W) (call : ℕ → Trapframe → W → W) where
  pub irq_dispatch : IrqTable → Trapframe → W → W
  irq_dispatch t tf w =
      let irq : ℕ = sub32 tf.vector irq_base in
      let (spurious, w') = pic_is_spurious cpu irq w in
      if spurious
      then w'
      else if ltb irq nirq && not (t irq == 0)
      then call (t irq) tf (pic_eoi cpu irq w')
      else pic_eoi cpu irq w'

  pub isr_dispatch : Mem → ℕ → IrqTable → Trapframe → W → Crash ⊎ W
  isr_dispatch m cr2 t tf w =
      if ltb tf.vector nexc then inl (trap_handler m cr2 tf) else inr (irq_dispatch t tf w)

abbrev pit_ch0 : ℕ
pit_ch0 = 0x40

abbrev pit_cmd : ℕ
pit_cmd = 0x43

-- PIT_CMD_CH0 | PIT_CMD_LOHI | PIT_CMD_MODE3
abbrev pit_mode : ℕ
pit_mode = bit_or (bit_or 0x00 0x30) 0x06

-- `ticks`, and what scheduler_tick() (subr_thread.c) is called on.
hardclock : {W : Type 0} → (W → W) → ℕ × W → ℕ × W
hardclock scheduler_tick (ticks, w) = (add32 ticks 1, scheduler_tick w)

-- `handler` is the address of hardclock, and `hz` not 0.
pit_init : {W : Type 0} → Cpu W → ℕ → ℕ → IrqTable → W → IrqTable × W
pit_init cpu handler hz t w =
    let divisor : ℕ = pit_hz / hz % 2 ^ 16 in
    let w1 = cpu.outb pit_ch0 (bit_and divisor 0xff) (cpu.outb pit_cmd pit_mode w) in
    let w2 = cpu.outb pit_ch0 (bit_and (divisor / 2 ^ 8) 0xff) w1 in
    (irq_install t 0 handler, pic_unmask cpu 0 w2)
