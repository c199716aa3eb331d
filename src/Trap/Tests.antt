-- ===== src/Trap/Tests.antt =====
-- Interrupt 12 with a handler at 0x4000.
use mkrn.Prelude.{◌≡◌, refl, arith, ◌==◌, if◌then◌else◌, [], ◌∷◌, inr}
use mkrn.Trap.{Trapframe, IrqTable, isr_dispatch}
use mkrn.Trap.Dispatch.{
  called, recorder, record_call, is_real, acknowledged, asked, dismissed, isr_dispatch_lem,
}

abbrev mouse : Trapframe
mouse = record {
  edi = 0;
  esi = 0;
  ebp = 0;
  esp_dummy = 0;
  ebx = 0;
  edx = 0;
  ecx = 0;
  eax = 0;
  vector = 44;
  err = 0;
  eip = 0x100000;
  cs = 8;
  eflags = 0;
}

abbrev handlers : IrqTable
handlers k = if k == 12 then 0x4000 else 0

isr_dispatch_lem_example :
    isr_dispatch (recorder (λ p. 0)) record_call (λ x. 0) 0 handlers mouse []
    ≡ inr (
        if is_real (λ p. 0) 12
        then if handlers 12 == 0
          then acknowledged 12 (asked 12 [])
          else called (handlers 12) ∷ acknowledged 12 (asked 12 [])
        else dismissed 12 [])
isr_dispatch_lem_example =
    isr_dispatch_lem (λ p. 0) (λ x. 0) 0 handlers mouse [] 12 refl (omega arith)
