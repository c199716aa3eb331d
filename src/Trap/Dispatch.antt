-- ===== src/Trap/Dispatch.antt =====
-- The order in which an interrupt is acknowledged and handled, on a machine that records it.
use mkrn.Prelude.{
  ℕ, ◌+◌, ◌*◌, ◌%◌, ◌^◌, ◌<◌, ◌≡◌, refl, arith, bit_and, ltb, ◌==◌, ◌||◌, not, if◌then◌else◌, Bool,
  Bool-cases, true, false, List, ◌∷◌, inl, inr, Mem, sub32,
}
use mkrn.Cpu.{Cpu}
use mkrn.Segments.{nexc, nirq}
use mkrn.Pic.{
  irq_base, pic1_cmd, pic2_cmd, pic_eoi_cmd, pic_read_isr_cmd, pic_read_isr, pic_is_spurious,
  pic_eoi,
}
use mkrn.Trap.{Trapframe, IrqTable, irq_dispatch, isr_dispatch}

pub data Event : Type 0 where
  wrote : ℕ → ℕ → Event
  called : ℕ → Event

-- The machine is the list of its events, with the last one first; `answer` is what ports read.
abbrev pub recorder : (ℕ → ℕ) → Cpu (List Event)
recorder answer = record {
  inb = λ p w. (answer p, w);
  outb = λ p v w. wrote p v ∷ w;
  rdtsc = λ w. (0, w);
}

abbrev pub record_call : ℕ → Trapframe → List Event → List Event
record_call h tf w = called h ∷ w

-- The in-service registers, and whether an interrupt 7 or 15 shows in them.
abbrev in_service : (ℕ → ℕ) → ℕ
in_service answer = answer pic2_cmd * 2 ^ 8 % 2 ^ 16 + answer pic1_cmd

abbrev pub is_real : (ℕ → ℕ) → ℕ → Bool
is_real answer irq =
    if irq == 7
    then not (bit_and (in_service answer) 0x0080 == 0)
    else if irq == 15
    then not (bit_and (in_service answer) 0x8000 == 0)
    else true

abbrev pub acknowledged : ℕ → List Event → List Event
acknowledged irq w =
    wrote pic1_cmd pic_eoi_cmd ∷ (if ltb irq 8 then w else wrote pic2_cmd pic_eoi_cmd ∷ w)

-- The commands that read the in-service registers.
abbrev pub asked : ℕ → List Event → List Event
asked irq w =
    if (irq == 7) || (irq == 15)
    then wrote pic2_cmd pic_read_isr_cmd ∷ wrote pic1_cmd pic_read_isr_cmd ∷ w
    else w

-- What is left of an interrupt that is not real: a lost one of the second controller came through
-- the first one, which waits for its acknowledgement.
abbrev pub dismissed : ℕ → List Event → List Event
dismissed irq w = if irq == 15 then wrote pic1_cmd pic_eoi_cmd ∷ asked irq w else asked irq w

module _ (answer : ℕ → ℕ) where
  spurious_lem :
      (irq : ℕ) (w : List Event)
      → pic_is_spurious (recorder answer) irq w
        ≡ (if is_real answer irq then (false, asked irq w) else (true, dismissed irq w))
  unfolding pic_is_spurious pic_read_isr
  spurious_lem irq w = elim (Bool-cases (irq == 7)) [
    | inl y ↦ elim (Bool-cases (bit_and (in_service answer) 0x0080 == 0)) [
      | inl z ↦ let first : (irq == 15) ≡ false = ground (arith, y) in rw (y, z, first) refl
      | inr z ↦ rw (y, z) refl
    ]
    | inr y ↦ elim (Bool-cases (irq == 15)) [
      | inl x ↦ elim (Bool-cases (bit_and (in_service answer) 0x8000 == 0)) [
        | inl z ↦ rw (y, x, z) refl
        | inr z ↦ rw (y, x, z) refl
      ]
      | inr x ↦ rw (y, x) refl
    ]
  ]

  -- A hardware interrupt that is real is acknowledged at its controllers first, and then its
  -- handler is called once, if there is one. One that is not real calls no handler; it is
  -- acknowledged only at the first controller, and only if it came through the second.
  pub isr_dispatch_lem :
      (m : Mem) (cr2 : ℕ) (t : IrqTable) (tf : Trapframe) (w : List Event) (irq : ℕ)
      → tf.vector ≡ irq_base + irq
      → irq < nirq
      → isr_dispatch (recorder answer) record_call m cr2 t tf w
        ≡ inr (
            if is_real answer irq
            then if t irq == 0
              then acknowledged irq (asked irq w)
              else called (t irq) ∷ acknowledged irq (asked irq w)
            else dismissed irq w)
  unfolding isr_dispatch irq_dispatch pic_eoi
  isr_dispatch_lem m cr2 t tf w irq e l =
      let line : sub32 tf.vector irq_base ≡ irq = omega (arith, e, l) in
      let hardware : ltb tf.vector nexc ≡ false = ground (arith, e) in
      let known : ltb irq nirq ≡ true = ground (arith, l) in
      elim (Bool-cases (is_real answer irq)) [
        | inl y ↦ elim (Bool-cases (t irq == 0)) [
          | inl z ↦ rw (hardware, line, spurious_lem irq w, y, known, z) refl
          | inr z ↦ rw (hardware, line, spurious_lem irq w, y, known, z) refl
        ]
        | inr y ↦ rw (hardware, line, spurious_lem irq w, y) refl
      ]
