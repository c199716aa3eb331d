-- ===== src/PmmBoot/Safety.antt =====
-- From the blob to a page allocator in which everything that is in use is busy.
use mkrn.Prelude.{
  ℕ, zero, suc, ◌+◌, ◌-◌, ◌^◌, ◌≤◌, ◌<◌, ◌≡◌, ◌≢◌, refl, ap, sym, subst, ◌∙◌, arith, ◌==◌, if_true,
  if_false, Bool-cases, true, false, inl, inr, List, Mem, load32, sub32, done,
}
use mathlib.Core.List.{Memᴰ}
use mathlib.Core.List.Memᴰ
use mkrn.Pmm.{Pmm}
use mkrn.Pmm.Bitmap.{IsBytes}
use mkrn.PmmBoot.{
  tag_end, tag_module, tag_type, tag_first, tag_second, next_tag, each_tag, reserve_module,
}
use mkrn.PmmBoot.Blob.{Tags, Tags-bound}
use mkrn.PmmBoot.Regions.{Sound, Busy, Grows, Sound-load32, reserve-Sound}

-- A module's tag has its two addresses, in order.
abbrev pub IsModule : Mem → ℕ → Type 0
IsModule m p = (p + 16 ≤ next_tag m p) × (tag_first m p ≤ tag_second m p)

abbrev pub AllModules : Mem → List ℕ → Type 0
AllModules m ts = (p : ℕ) → Memᴰ p ts → tag_type m p ≡ tag_module → IsModule m p

load32-lt : (m : Mem) (p : ℕ) → IsBytes m → load32 m p < 2 ^ 32
load32-lt m p b = omega (arith, b p, b (p + 1), b (p + 2), b (p + 3))

-- The module of a tag is busy in `t`, if it is one.
abbrev pub ModuleBusy : Mem → Pmm → ℕ → Type 0
ModuleBusy m t p =
    tag_type m p ≡ tag_module → Busy t (tag_first m p) (tag_second m p - tag_first m p)

module _ (m : Mem) (bytes : IsBytes m) (b n : ℕ) where
  reserve_module-Sound :
      (t : Pmm) (p : ℕ)
      → Sound m b n t
      → p + 4 ≤ b
      → (tag_type m p ≡ tag_module → (p + 16 ≤ b) × (tag_first m p ≤ tag_second m p))
      → Sound m b n (reserve_module t p)
        × ModuleBusy m (reserve_module t p) p
        × Grows t (reserve_module t p)
  unfolding reserve_module
  reserve_module-Sound t p h l k = elim (Bool-cases (tag_type t.mem p == tag_module)) [
    | inl y ↦
        let is : tag_type m p ≡ tag_module = ground (arith, y, Sound-load32 m b n t p h l) in
        let start = Sound-load32 m b n t (p + 8) h (omega (arith, k is)) in
        let stop = Sound-load32 m b n t (p + 12) h (omega (arith, k is)) in
        let size : sub32 (tag_second t.mem p) (tag_first t.mem p) ≡ tag_second m p - tag_first m p =
          omega (arith, start, stop, k is, load32-lt m (p + 12) bytes) in
        let r =
          reserve-Sound m b n t (tag_first m p) (tag_second m p - tag_first m p) h
            (omega (arith, k is, load32-lt m (p + 12) bytes)) in
        rw (y, size, start) (r.0, (λ _. r.1), r.2)
    | inr y ↦
        let other : tag_type m p ≢ tag_module = ground (arith, y, Sound-load32 m b n t p h l) in
        rw y (h, (λ e. absurd (other e)), (λ base len busy. busy))
  ]

  pub modules_lem :
      (fuel : ℕ) {stop p : ℕ} {ts : List ℕ} (t : Pmm)
      → Tags m stop p ts
      → stop ≤ p + fuel
      → stop ≤ b
      → AllModules m ts
      → Sound m b n t
      → (u : Pmm) × (each_tag (λ t. t.mem) reserve_module fuel p t ≡ done u)
        × Sound m b n u
        × Grows t u
        × ((q : ℕ) → Memᴰ q ts → ModuleBusy m u q)
  unfolding each_tag
  modules_lem zero t g l k all h = absurd (omega (arith, l, Tags-bound g))
  modules_lem (suc fuel) {p = p} t (Tags.last a e) l k all h =
      let at_end : (tag_type t.mem p == tag_end) ≡ true =
        ground (arith, Sound-load32 m b n t p h (omega (arith, a, k)), e) in
      (
        t,
        if_true (tag_type t.mem p == tag_end) _ _ at_end,
        h,
        (λ base len busy. busy),
        (λ q i. absurd (Memᴰ.not-nil i)),
      )
  modules_lem (suc fuel) {p = p} t (Tags.more e a g) l k all h =
      let inside = Tags-bound g in
      let not_end : (tag_type t.mem p == tag_end) ≡ false =
        ground (arith, Sound-load32 m b n t p h (omega (arith, a, k, inside)), e) in
      let (h', busy, grows) = reserve_module-Sound t p h (omega (arith, a, k, inside)) (λ i.
        (omega (arith, (all p (Memᴰ.head refl) i).0, k, inside), (all p (Memᴰ.head refl) i).1)) in
      let t' : Pmm = reserve_module t p in
      let next : next_tag t'.mem p ≡ next_tag m p =
        omega (arith, Sound-load32 m b n t' (p + 4) h' (omega (arith, a, k, inside))) in
      let (u, run, v, more, rest) =
        modules_lem fuel t' g (omega (arith, l, a)) k (λ q i. all q (Memᴰ.tail i)) h' in
      (
        u,
        if_false (tag_type t.mem p == tag_end) _ _ not_end
            ∙ (ap (λ x. each_tag (λ t. t.mem) reserve_module fuel x t') next ∙ run),
        v,
        (λ base len x. more base len (grows base len x)),
        (λ q i. elim (Memᴰ.cases_cons i) [
          | inl same ↦ subst (ModuleBusy m u) (sym same) (λ is. more _ _ (busy is))
          | inr j ↦ rest q j
        ]),
      )
