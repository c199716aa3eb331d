-- ===== src/Segments/Decode.antt =====
-- What the processor makes of the tables.
use mkrn.Prelude.{
  ℕ, zero, suc, ◌+◌, ◌*◌, ◌/◌, ◌%◌, ◌^◌, ◌≤◌, ◌<◌, ◌≡◌, refl, ap, ◌∙◌, arith, leb, ltb, ◌==◌,
  ==_iff, ◌&&◌, if◌then◌else◌, Bool-cases, inl, inr,
}
use mkrn.Segments.{
  gsel_kcode, GdtEntry, descriptor, nidt, nexc, nirq, IdtEntry, Idt, idt_set, gate_attr, set_gates,
  clear_gates, idt_init,
}

-- The base, the limit in bytes less one, the flag for pages and the ring of a descriptor.
base_of : GdtEntry → ℕ
base_of e = e.base_lo + e.base_mid * 2 ^ 16 + e.base_hi * 2 ^ 24

limit_of : GdtEntry → ℕ
limit_of e = e.limit_lo + e.limit_hi_flags % 2 ^ 4 * 2 ^ 16

flags_of : GdtEntry → ℕ
flags_of e = e.limit_hi_flags / 2 ^ 4 * 2 ^ 4

-- Any base of 32 bits, limit of 20 bits and high nibble of flags can be read from the descriptor
-- that they are packed into.
descriptor_lem :
    (base limit access flags : ℕ)
    → base < 2 ^ 32
    → limit < 2 ^ 20
    → flags < 2 ^ 8
    → flags % 2 ^ 4 ≡ 0
    → (base_of (descriptor base limit access flags) ≡ base)
      × (limit_of (descriptor base limit access flags) ≡ limit)
      × (flags_of (descriptor base limit access flags) ≡ flags)
      × ((descriptor base limit access flags).access ≡ access)
unfolding descriptor base_of limit_of flags_of
descriptor_lem base limit access flags b l f z =
    (omega (arith, b), omega (arith, l), omega (arith, f, z), refl)

gate_base : IdtEntry → ℕ
gate_base e = e.base_lo + e.base_hi * 2 ^ 16

-- What an entry of the table becomes.
abbrev gate : ℕ → IdtEntry
gate base = record {
  base_lo = base % 2 ^ 16;
  selector = gsel_kcode;
  zeroed = 0;
  type_attr = gate_attr;
  base_hi = base / 2 ^ 16 % 2 ^ 16;
}

abbrev no_gate : IdtEntry
no_gate = record { base_lo = 0; selector = 0; zeroed = 0; type_attr = 0; base_hi = 0 }

set_gates_lem :
    (n i : ℕ) (stubs : ℕ → ℕ) (s : Idt) (v : ℕ)
    → (set_gates n i stubs s).idt v ≡ (if leb i v && ltb v (i + n) then gate (stubs v) else s.idt v)
unfolding set_gates idt_set
set_gates_lem zero i stubs s v = ground arith
set_gates_lem (suc n) i stubs s v =
    set_gates_lem n (i + 1) stubs (idt_set s i (stubs i) gsel_kcode gate_attr) v
    ∙ elim (Bool-cases (v == i)) [
      | inl e ↦ ground (arith, e, ap (λ k. gate (stubs k)) ((==_iff v i).0 e))
      | inr e ↦ ground (arith, e)
    ]

clear_gates_lem :
    (n i : ℕ) (s : Idt) (v : ℕ)
    → (clear_gates n i s).idt v ≡ (if leb i v && ltb v (i + n) then no_gate else s.idt v)
unfolding clear_gates idt_set
clear_gates_lem zero i s v = ground arith
clear_gates_lem (suc n) i s v = ground (arith, clear_gates_lem n (i + 1) (idt_set s i 0 0 0) v)

-- After idt_init, the vectors of exceptions and of hardware interrupts have a present gate of the
-- kernel at the address of their stub, the other vectors have no gate, and the whole table is
-- loaded.
idt_init_lem :
    (stubs : ℕ → ℕ) (idt_addr : ℕ) (s : Idt)
    → ((v : ℕ) → v < nexc + nirq → stubs v < 2 ^ 32)
    → ((v : ℕ)
        → v < nexc + nirq
        → (gate_base ((idt_init stubs idt_addr s).idt v) ≡ stubs v)
          × (((idt_init stubs idt_addr s).idt v).selector ≡ gsel_kcode)
          × (((idt_init stubs idt_addr s).idt v).type_attr ≡ gate_attr))
      × ((v : ℕ) → nexc + nirq ≤ v → v < nidt → (idt_init stubs idt_addr s).idt v ≡ no_gate)
      × ((v : ℕ) → nidt ≤ v → (idt_init stubs idt_addr s).idt v ≡ s.idt v)
      × ((idt_init stubs idt_addr s).idtr.limit + 1 ≡ nidt * 8)
unfolding idt_init gate_base
idt_init_lem stubs idt_addr s small =
    let set : Idt = set_gates 48 0 stubs s in
    let cleared = clear_gates_lem 208 48 set in
    let first : (v : ℕ) → v < 48 → (clear_gates 208 48 set).idt v ≡ gate (stubs v) =
      λ v l. cleared v ∙ ground (arith, set_gates_lem 48 0 stubs s v, l) in
    (
      (λ v l. (
        ap gate_base (first v l) ∙ omega (arith, small v l),
        ap (λ e. e.selector) (first v l),
        ap (λ e. e.type_attr) (first v l),
      )),
      (λ v l m. cleared v ∙ ground (arith, l, m)),
      (λ v l. cleared v ∙ ground (arith, set_gates_lem 48 0 stubs s v, l)),
      refl,
    )
