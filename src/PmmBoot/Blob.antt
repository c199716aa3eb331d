-- ===== src/PmmBoot/Blob.antt =====
-- The tags of a boot loader's blob, and what the loops over them return.
use mkrn.Prelude.{
  ℕ, zero, suc, ◌+◌, ◌≤◌, ◌<◌, ◌≡◌, ◌≢◌, refl, ap, sym, ◌∙◌, arith, ltb, ◌==◌, if◌then◌else◌,
  Bool-cases, false, if_true, if_false, inl, inr, List, [], ◌∷◌, Mem, add32, done,
}
use mathlib.Core.List.{Memᴰ}
use mathlib.Core.List.Memᴰ
use mkrn.PmmBoot.{
  tag_end, tag_module, total_size, tag_type, tag_second, next_tag, find_tag_loop, mb2_find_tag,
  each_tag, max_module, boot_data_end,
}

-- From `p` on, up to `stop`, there are the tags at the addresses `ts` and then the end tag.
pub data Tags (m : Mem) (stop : ℕ) : ℕ → List ℕ → Type 0 where
  last : {p : ℕ} → p + 8 ≤ stop → tag_type m p ≡ tag_end → Tags m stop p []
  more :
      {p : ℕ} {ts : List ℕ}
      → tag_type m p ≢ tag_end
      → p + 8 ≤ next_tag m p
      → Tags m stop (next_tag m p) ts
      → Tags m stop p (p ∷ ts)

pub Tags-bound : {m : Mem} {stop p : ℕ} {ts : List ℕ} → Tags m stop p ts → p < stop
Tags-bound (last l e) = omega (arith, l)
Tags-bound (more n l t) = omega (arith, l, Tags-bound t)

-- A loop over the tags that leaves the memory alone is a fold over their list.
module _ {A : Type 0} (m : Mem) (body : A → ℕ → A) where
  fold : List ℕ → A → A
  fold [] a = a
  fold (p ∷ ts) a = fold ts (body a p)

  each_tag-Tags :
      (fuel : ℕ) {stop p : ℕ} {ts : List ℕ} (a : A)
      → Tags m stop p ts
      → stop ≤ p + fuel
      → each_tag (λ _. m) body fuel p a ≡ done (fold ts a)
  unfolding each_tag fold
  each_tag-Tags zero a t l = absurd (omega (arith, l, Tags-bound t))
  each_tag-Tags (suc fuel) {p = p} a (last b e) l =
      if_true (tag_type m p == tag_end) _ _ (ground (arith, e))
  each_tag-Tags (suc fuel) {p = p} a (more n b t) l =
      if_false (tag_type m p == tag_end) _ _ (ground (arith, n))
      ∙ each_tag-Tags fuel (body a p) t (omega (arith, l, b))

module _ (m : Mem) where
  -- The end that a module asks for is the only one that `max_module` rises to.
  max_module_lem :
      (e p : ℕ)
      → (e ≤ max_module m e p)
        × (tag_type m p ≡ tag_module → tag_second m p ≤ max_module m e p)
        × ((b : ℕ)
            → e ≤ b
            → (tag_type m p ≡ tag_module → tag_second m p ≤ b)
            → max_module m e p ≤ b)
  unfolding max_module
  max_module_lem e p = (ground arith, λ h. ground (arith, h), λ b l h. ground (arith, l, h))

  fold_max :
      (ts : List ℕ) (e : ℕ)
      → (e ≤ fold m (max_module m) ts e)
        × ((p : ℕ)
            → Memᴰ p ts
            → tag_type m p ≡ tag_module
            → tag_second m p ≤ fold m (max_module m) ts e)
        × ((b : ℕ)
            → e ≤ b
            → ((p : ℕ) → Memᴰ p ts → tag_type m p ≡ tag_module → tag_second m p ≤ b)
            → fold m (max_module m) ts e ≤ b)
  unfolding fold
  fold_max [] e = (omega arith, λ p i. absurd (Memᴰ.not-nil i), λ b l h. l)
  fold_max (q ∷ ts) e =
      let (low, has, high) = max_module_lem e q in
      let (low', has', high') = fold_max ts (max_module m e q) in
      (
        omega (arith, low, low'),
        λ p i t. elim (Memᴰ.cases_cons i) [
          | inl same ↦
              omega (arith, has (ap (tag_type m) (sym same) ∙ t), low', ap (tag_second m) same)
          | inr j ↦ has' p j t
        ],
        λ b l h. high' b (high b l (h q (Memᴰ.head refl))) (λ p i. h p (Memᴰ.tail i)),
      )

-- On a blob of tags, boot_data_end returns the least address that no byte of the kernel, of the
-- blob or of a module reaches: it is at least the kernel's end, the blob's end and each module's
-- end, and at most any other such bound.
pub boot_data_end_lem :
    (m : Mem) (kernel_end mbi : ℕ) (ts : List ℕ)
    → Tags m (mbi + total_size m mbi) (mbi + 8) ts
    → (e : ℕ) × (boot_data_end m kernel_end mbi ≡ done e)
      × (kernel_end ≤ e)
      × (add32 mbi (total_size m mbi) ≤ e)
      × ((p : ℕ) → Memᴰ p ts → tag_type m p ≡ tag_module → tag_second m p ≤ e)
      × ((b : ℕ)
          → kernel_end ≤ b
          → add32 mbi (total_size m mbi) ≤ b
          → ((p : ℕ) → Memᴰ p ts → tag_type m p ≡ tag_module → tag_second m p ≤ b)
          → e ≤ b)
unfolding boot_data_end
boot_data_end_lem m kernel_end mbi ts t =
    let v : ℕ = add32 mbi (total_size m mbi) in
    let start : ℕ = if ltb kernel_end v then v else kernel_end in
    let (low, has, high) = fold_max m ts start in
    (
      fold m (max_module m) ts start,
      each_tag-Tags m (max_module m) _ start t (omega arith),
      ground (arith, low),
      ground (arith, low),
      has,
      λ b l k h. high b (ground (arith, l, k)) h,
    )

-- `q` is the first of the tags `ts` with the type `type`, or 0 where there is none.
data IsFirst (m : Mem) (type : ℕ) : List ℕ → ℕ → Type 0 where
  absent : IsFirst m type [] 0
  found : {p : ℕ} {ts : List ℕ} → tag_type m p ≡ type → IsFirst m type (p ∷ ts) p
  later :
      {p q : ℕ} {ts : List ℕ}
      → tag_type m p ≢ type
      → IsFirst m type ts q
      → IsFirst m type (p ∷ ts) q

find_tag_loop_lem :
    (fuel : ℕ) {m : Mem} {stop p : ℕ} {ts : List ℕ} (type : ℕ)
    → type ≢ tag_end
    → Tags m stop p ts
    → stop ≤ p + fuel
    → (q : ℕ) × (find_tag_loop fuel m p type ≡ done q) × IsFirst m type ts q
unfolding find_tag_loop
find_tag_loop_lem zero type h t l = absurd (omega (arith, l, Tags-bound t))
find_tag_loop_lem (suc fuel) {m = m} {p = p} type h (last b e) l =
    (0, if_true (tag_type m p == tag_end) _ _ (ground (arith, e)), absent)
find_tag_loop_lem (suc fuel) {m = m} {p = p} type h (more n b t) l =
    elim (Bool-cases (tag_type m p == type)) [
      | inl y ↦ (p, rw (open_tag, y), found (ground (arith, y)))
      | inr y ↦
          let (q, e, f) = find_tag_loop_lem fuel type h t (omega (arith, l, b)) in
          (q, rw (open_tag, y, e), later (ground (arith, y)) f)
    ]
  where
    open_tag : (tag_type m p == tag_end) ≡ false
    open_tag = ground (arith, n)

-- On a blob of tags, mb2_find_tag returns for any type but that of the end tag: the first tag with
-- that type, or NULL where there is none.
mb2_find_tag_lem :
    (m : Mem) (mbi type : ℕ) (ts : List ℕ)
    → Tags m (mbi + total_size m mbi) (mbi + 8) ts
    → type ≢ tag_end
    → (q : ℕ) × (mb2_find_tag m mbi type ≡ done q) × IsFirst m type ts q
unfolding mb2_find_tag
mb2_find_tag_lem m mbi type ts t h = find_tag_loop_lem (total_size m mbi + 1) type h t (omega arith)
