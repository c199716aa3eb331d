-- ===== src/Pic/Masks.antt =====
-- The interrupt masks, over what the controllers are documented to do: a read of a data port gives
-- its mask, and a write replaces it.
use mkrn.Prelude.{
  ℕ, ◌%◌, ◌<◌, ◌≡◌, ◌⊎◌, inl, inr, refl, ap, sym, ◌∙◌, arith, ltb, leb, ◌==◌, ◌&&◌, ◌||◌,
  if◌then◌else◌, if_both, if_true, if_false, ==_iff, Bool-cases,
}
use mkrn.Cpu.{Cpu}
use mkrn.Pmm.{set_bit8, clear_bit8, test_bit8}
use mkrn.Pmm.Bitmap.{test_bit8-set_bit8, test_bit8-clear_bit8, bit8_range}
use mkrn.Pic.{pic1_data, pic2_data, data_port, pic_mask, unmask_cascade, pic_unmask}

abbrev IsData : ℕ → Type 0
IsData p = (p ≡ pic1_data) ⊎ (p ≡ pic2_data)

pub record Controllers {W : Type 0} (cpu : Cpu W) (mask : ℕ → W → ℕ) : Type 0 where
  pub byte : (p : ℕ) (w : W) → mask p w < 256
  pub read : (p : ℕ) (w : W) → IsData p → (cpu.inb p w).0 ≡ mask p w
  pub read_keeps : (p q : ℕ) (w : W) → IsData p → mask q (cpu.inb p w).1 ≡ mask q w
  pub write :
      (p q v : ℕ) (w : W)
      → IsData p
      → v < 256
      → mask q (cpu.outb p v w) ≡ (if q == p then v else mask q w)

data_port-IsData : (irq : ℕ) → IsData (data_port irq)
data_port-IsData irq = if_both IsData (ltb irq 8) _ _ (inl refl) (inr refl)

module _ {W : Type 0} (mask : ℕ → W → ℕ) where
  -- The mask bit of an interrupt: 1 where it does not come through.
  masked : ℕ → W → ℕ
  masked irq w = test_bit8 (mask (data_port irq) w) (irq % 8)

module _ {W : Type 0} (cpu : Cpu W) (mask : ℕ → W → ℕ) (c : Controllers cpu mask) where
  -- A read of the port `p` and a write of what `g` makes of the byte, which sets bit `i` to `b`.
  rewrite_lem :
      (g : ℕ → ℕ → ℕ) (b p i k : ℕ) (w : W)
      → IsData p
      → i < 8
      → ((v j : ℕ) → v < 256 → j < 8 → test_bit8 (g v i) j ≡ (if i == j then b else test_bit8 v j))
      → ((v : ℕ) → v < 256 → g v i < 256)
      → masked mask k (cpu.outb p (g (cpu.inb p w).0 i) (cpu.inb p w).1)
        ≡ (if (data_port k == p) && (i == k % 8) then b else masked mask k w)
  unfolding masked
  rewrite_lem g b p i k w d l law bytes =
      let v : ℕ = (cpu.inb p w).0 in
      let v_is : v ≡ mask p w = c.read p w d in
      let small : v < 256 = omega (arith, v_is, c.byte p w) in
      let new = c.write p (data_port k) (g v i) (cpu.inb p w).1 d (bytes v small) in
      let old = c.read_keeps p (data_port k) w d in
      ap (λ x. test_bit8 x (k % 8)) new ∙ elim (Bool-cases (data_port k == p)) [
        | inl y ↦ rw y (
            law v (k % 8) small (omega arith)
            ∙ ap (λ x. if i == k % 8 then b else test_bit8 x (k % 8))
                (v_is ∙ ap (λ q. mask q w) (sym ((==_iff _ _).0 y))))
        | inr y ↦ rw y (ap (λ x. test_bit8 x (k % 8)) old)
      ]

  set_lem :
      (p i k : ℕ) (w : W)
      → IsData p
      → i < 8
      → masked mask k (cpu.outb p (set_bit8 (cpu.inb p w).0 i) (cpu.inb p w).1)
        ≡ (if (data_port k == p) && (i == k % 8) then 1 else masked mask k w)
  set_lem p i k w d l =
      rewrite_lem set_bit8 1 p i k w d l (λ v j h m. test_bit8-set_bit8 v i j h l m)
        (λ v h. (bit8_range v i 0 h l (omega arith)).0)

  clear_lem :
      (p i k : ℕ) (w : W)
      → IsData p
      → i < 8
      → masked mask k (cpu.outb p (clear_bit8 (cpu.inb p w).0 i) (cpu.inb p w).1)
        ≡ (if (data_port k == p) && (i == k % 8) then 0 else masked mask k w)
  clear_lem p i k w d l =
      rewrite_lem clear_bit8 0 p i k w d l (λ v j h m. test_bit8-clear_bit8 v i j h l m)
        (λ v h. (bit8_range v i 0 h l (omega arith)).1)

  -- Two interrupts have the same bit of the same port only if they are the same.
  same_line :
      (irq k : ℕ)
      → irq < 16
      → k < 16
      → ((data_port k == data_port irq) && (irq % 8 == k % 8)) ≡ (k == irq)
  same_line irq k l m = ground (arith, l, m)

  -- On controllers whose data ports hold their masks, pic_mask masks its interrupt and no other.
  -- pic_unmask unmasks its interrupt and, for one of the second controller, the interrupt 2 through
  -- which that one reports; it changes no other.
  pic_mask_unmask :
      (irq k : ℕ) (w : W)
      → irq < 16
      → k < 16
      → (masked mask k (pic_mask cpu irq w) ≡ (if k == irq then 1 else masked mask k w))
        × (masked mask k (pic_unmask cpu irq w)
            ≡ (if (k == irq) || (leb 8 irq && (k == 2)) then 0 else masked mask k w))
  unfolding pic_mask pic_unmask unmask_cascade
  pic_mask_unmask irq k w l m =
      let same = same_line irq k l m in
      let d = data_port-IsData irq in
      let (v, w') = cpu.inb (data_port irq) w in
      let w'' : W = cpu.outb (data_port irq) (clear_bit8 v (irq % 8)) w' in
      let one : masked mask k w'' ≡ (if k == irq then 0 else masked mask k w) =
        clear_lem (data_port irq) (irq % 8) k w d (omega arith)
        ∙ ap (λ b. if b then 0 else masked mask k w) same in
      (
        set_lem (data_port irq) (irq % 8) k w d (omega arith)
            ∙ ap (λ b. if b then 1 else masked mask k w) same,
        elim (Bool-cases (ltb irq 8)) [
          | inl y ↦
              ap (masked mask k) (if_true (ltb irq 8) w'' (unmask_cascade cpu w'') y)
              ∙ one
              ∙ ground (arith, y)
          | inr y ↦
              ap (masked mask k) (if_false (ltb irq 8) w'' (unmask_cascade cpu w'') y)
              ∙ clear_lem pic1_data 2 k w'' (inl refl) (omega arith)
              ∙ ground (arith, y, one, m)
        ],
      )
