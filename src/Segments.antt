-- ===== src/Segments.antt =====
-- amd64/gdt.c, amd64/idt.c, machine/segments.h and machine/idt.h: the tables that the processor
-- reads. Loading them (lgdt, lidt, ltr) is assembly; the tables and what is loaded are the state.
pub mod Decode
use mkrn.Prelude.{
  ℕ, zero, suc, ◌+◌, ◌-◌, ◌*◌, ◌/◌, ◌%◌, ◌^◌, bit_and, bit_or, ◌==◌, if◌then◌else◌, u32_mod,
}

abbrev pub gsel_kcode : ℕ
gsel_kcode = 0x08

abbrev gsel_kdata : ℕ
gsel_kdata = 0x10

abbrev gsel_tss : ℕ
gsel_tss = 0x28

abbrev ngdt : ℕ
ngdt = 6

pub record GdtEntry : Type 0 where
  pub limit_lo : ℕ
  pub base_lo : ℕ
  pub base_mid : ℕ
  pub access : ℕ
  pub limit_hi_flags : ℕ
  pub base_hi : ℕ

-- The operand of lgdt and lidt.
pub record TablePtr : Type 0 where
  pub limit : ℕ
  pub base : ℕ

-- GDT_A_PRESENT, GDT_A_RING, GDT_A_SEGMENT, GDT_A_EXEC, GDT_A_RW and GDT_A_TSS32
abbrev gdt_a_present : ℕ
gdt_a_present = 0x80

abbrev gdt_a_ring : ℕ → ℕ
gdt_a_ring x = bit_and x 3 * 2 ^ 5

abbrev gdt_a_segment : ℕ
gdt_a_segment = 0x10

abbrev gdt_a_exec : ℕ
gdt_a_exec = 0x08

abbrev gdt_a_rw : ℕ
gdt_a_rw = 0x02

abbrev gdt_a_tss32 : ℕ
gdt_a_tss32 = 0x09

-- GDT_F_GRAN_4K | GDT_F_SZ_32
abbrev flat_flags : ℕ
flat_flags = bit_or 0x80 0x40

-- The fields of `struct tss` that are ever set; the others stay 0.
record Tss : Type 0 where
  pub esp0 : ℕ
  pub ss0 : ℕ
  pub iomap_base : ℕ

-- `sizeof(struct tss)`
abbrev tss_size : ℕ
tss_size = 104

record Gdt : Type 0 where
  pub gdt : ℕ → GdtEntry
  pub tss : Tss
  pub gdtr : TablePtr
  pub task_register : ℕ

-- A value below 16 in the low nibble and the high nibble of `flags` have no bit in common.
pub descriptor : ℕ → ℕ → ℕ → ℕ → GdtEntry
descriptor base limit access flags = record {
  limit_lo = limit % 2 ^ 16;
  base_lo = base % 2 ^ 16;
  base_mid = base / 2 ^ 16 % 2 ^ 8;
  access = access;
  limit_hi_flags = limit / 2 ^ 16 % 2 ^ 4 + flags / 2 ^ 4 % 2 ^ 4 * 2 ^ 4;
  base_hi = base / 2 ^ 24 % 2 ^ 8;
}

gdt_set : Gdt → ℕ → ℕ → ℕ → ℕ → ℕ → Gdt
gdt_set s i base limit access flags = record s {
  gdt = λ k. if k == i then descriptor base limit access flags else s.gdt k;
}

abbrev code_access : ℕ → ℕ
code_access ring =
    bit_or (bit_or (bit_or (bit_or gdt_a_present (gdt_a_ring ring)) gdt_a_segment) gdt_a_exec)
      gdt_a_rw

abbrev data_access : ℕ → ℕ
data_access ring = bit_or (bit_or (bit_or gdt_a_present (gdt_a_ring ring)) gdt_a_segment) gdt_a_rw

-- `tss_addr` and `gdt_addr` are the addresses of the static variables.
gdt_init : ℕ → ℕ → Gdt → Gdt
gdt_init tss_addr gdt_addr s0 =
    let s1 : Gdt = gdt_set s0 0 0 0 0 0 in
    let s2 : Gdt = gdt_set s1 1 0 0xfffff (code_access 0) flat_flags in
    let s3 : Gdt = gdt_set s2 2 0 0xfffff (data_access 0) flat_flags in
    let s4 : Gdt = gdt_set s3 3 0 0xfffff (code_access 3) flat_flags in
    let s5 : Gdt = gdt_set s4 4 0 0xfffff (data_access 3) flat_flags in
    let s6 : Gdt = record s5 {
      tss = record { esp0 = 0; ss0 = gsel_kdata; iomap_base = tss_size };
    } in
    let s7 : Gdt =
      gdt_set s6 5 tss_addr (tss_size - 1)
        (bit_or (bit_or gdt_a_present (gdt_a_ring 0)) gdt_a_tss32) 0 in
    record s7 { gdtr = record { limit = ngdt * 8 - 1; base = gdt_addr }; task_register = gsel_tss }

tss_set_kstack : Gdt → ℕ → Gdt
tss_set_kstack s esp0 = record s { tss = record (s.tss) { esp0 = esp0 } }

abbrev pub nidt : ℕ
nidt = 256

abbrev pub nexc : ℕ
nexc = 32

-- NIRQ of machine/pic.h
abbrev pub nirq : ℕ
nirq = 16

pub record IdtEntry : Type 0 where
  pub base_lo : ℕ
  pub selector : ℕ
  pub zeroed : ℕ
  pub type_attr : ℕ
  pub base_hi : ℕ

pub record Idt : Type 0 where
  pub idt : ℕ → IdtEntry
  pub idtr : TablePtr

pub idt_set : Idt → ℕ → ℕ → ℕ → ℕ → Idt
idt_set s vector base selector type_attr = record s {
  idt = λ k.
      if k == vector
      then record {
        base_lo = base % 2 ^ 16;
        selector = selector;
        zeroed = 0;
        type_attr = type_attr;
        base_hi = base / 2 ^ 16 % 2 ^ 16;
      }
      else s.idt k;
}

-- IDT_A_PRESENT | IDT_A_RING(0) | IDT_T_INT32
abbrev pub gate_attr : ℕ
gate_attr = bit_or (bit_or 0x80 (bit_and 0 3 * 2 ^ 5)) 0x0e

-- The rounds `i`, `i + 1`, ... of the two loops.
pub set_gates : ℕ → ℕ → (ℕ → ℕ) → Idt → Idt
set_gates zero i stubs s = s
set_gates (suc n) i stubs s = set_gates n (i + 1) stubs (idt_set s i (stubs i) gsel_kcode gate_attr)

pub clear_gates : ℕ → ℕ → Idt → Idt
clear_gates zero i s = s
clear_gates (suc n) i s = clear_gates n (i + 1) (idt_set s i 0 0 0)

-- `stubs` is `isr_stub_table`, of amd64/idt_stubs.S.
pub idt_init : (ℕ → ℕ) → ℕ → Idt → Idt
idt_init stubs idt_addr s =
    record (clear_gates (nidt - (nexc + nirq)) (nexc + nirq) (set_gates (nexc + nirq) 0 stubs s)) {
      idtr = record { limit = nidt * 8 - 1; base = idt_addr };
    }
