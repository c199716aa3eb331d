-- ===== src/Pmap/Map.antt =====
-- pmap_map, pmap_unmap and pmap_extract, and the vmm functions over them.
use mkrn.Prelude.{
  ℕ, ◌+◌, ◌*◌, ◌/◌, ◌%◌, ◌^◌, ◌<◌, ◌≡◌, refl, ap, sym, ◌∙◌, arith, ◌==◌, if◌then◌else◌, Bool,
  Bool-cases, true, false, inl, inr, ◌⊎◌, Outcome, done,
}
use mkrn.Pmm.{pmm_enomem}
use mkrn.Pmap.{
  Tables, is_reached, pde_index, pte_index, pte_addr, page_offset, is_present, pte_of, put_word,
  pde, add_table, pt_for, pmap_map, pmap_unmap, pmap_extract, pte_flags, vmm_map, vmm_unmap,
  vmm_extract,
}
use mkrn.Pmap.Entry.{
  entry, IsTables, Fresh, pde_made, write-IsTables, add_table-IsTables, entry-write,
  entry-add_table,
}

-- The physical address that an entry gives a virtual address of its page; 0 if there is none.
abbrev pub address : ℕ → ℕ → ℕ
address e v = if is_present e then pte_addr e + page_offset v else 0

flags_lem :
    (flags : ℕ)
    → (pte_flags flags < 4096)
      × (pte_flags flags % 2 ≡ 0)
      × (pte_flags flags / 2 % 2 ≡ flags / 2 % 2)
      × (pte_flags flags / 4 % 2 ≡ flags / 4 % 2)
unfolding pte_flags
flags_lem flags = ground arith

module _ {W : Type 0} (pmm_alloc : W → ℕ × W) where
  -- There is a table for `va`, or the page allocator hands out a fresh page for one.
  abbrev pub HasRoom : W → Tables → ℕ → Type 0
  HasRoom w s va = (is_present (pde s (pde_index va)) ≡ true) ⊎ (Fresh s (pmm_alloc w).0)

  -- What pt_for leaves: the table of `va`, with no entry changed.
  record Found (s : Tables) (va pt : ℕ) (t : Tables) : Type 0 where
    valid : IsTables t
    present : is_present (pde t (pde_index va)) ≡ true
    table : pte_addr (pde t (pde_index va)) ≡ pt
    same : (v : ℕ) → entry t v ≡ entry s v

  pt_for_lem :
      (w : W) (s : Tables) (va : ℕ)
      → IsTables s
      → HasRoom w s va
      → (r : ℕ × W × Tables) × (pt_for pmm_alloc w s (pde_index va) true ≡ done r)
        × Found s va r.0 r.2
  unfolding pt_for
  pt_for_lem w s va h room = elim (Bool-cases (is_present (pde s (pde_index va)))) [
    | inl p ↦ (
      (pte_addr (pde s (pde_index va)), w, s),
      rw p,
      record { valid = h; present = p; table = refl; same = λ v. refl },
    )
    | inr p ↦ elim room [
      | inl q ↦ absurd (ground (arith, p, q))
      | inr f ↦
          let some_page : ((pmm_alloc w).0 == pmm_enomem) ≡ false = ground (arith, f.page) in
          let within : is_reached s (pmm_alloc w).0 ≡ true = ground (arith, f.reached) in
          (
            ((pmm_alloc w).0, (pmm_alloc w).1, add_table s (pde_index va) (pmm_alloc w).0),
            rw (p, some_page, within),
            record {
              valid = add_table-IsTables s (pde_index va) (pmm_alloc w).0 h f (omega arith);
              present = (pde_made s (pde_index va) (pmm_alloc w).0 h f (omega arith)).0;
              table = (pde_made s (pde_index va) (pmm_alloc w).0 h f (omega arith)).1;
              same = λ v. entry-add_table s (pde_index va) (pmm_alloc w).0 v h f p (omega arith);
            },
          )
    ]
  ]

  pub pmap_map_lem :
      (w : W) (s : Tables) (va pa flags : ℕ)
      → IsTables s
      → HasRoom w s va
      → va < 2 ^ 32
      → (r : W × Tables) × (pmap_map pmm_alloc w s va pa flags ≡ done r)
        × IsTables r.1
        × ((v : ℕ)
            → v < 2 ^ 32
            → entry r.1 v ≡ (if v / 4096 == va / 4096 then pte_of pa flags else entry s v))
  unfolding pmap_map
  pmap_map_lem w s va pa flags h room l =
      let (r, e, f) = pt_for_lem w s va h room in
      let t : Tables = r.2 in
      let at : ℕ = pte_addr (pde t (pde_index va)) + 4 * pte_index va in
      (
        (r.1, put_word t at (pte_of pa flags)),
        rw e (
            ap (λ a. done (r.1, put_word t (a + 4 * pte_index va) (pte_of pa flags)))
              (sym f.table)),
        write-IsTables t (pde_index va) (pte_index va) (pte_of pa flags) f.valid f.present
            (omega arith) (omega arith),
        λ v lv.
            entry-write t va (pte_of pa flags) v f.valid f.present l lv
            ∙ ap (λ e. if v / 4096 == va / 4096 then pte_of pa flags else e) (f.same v),
      )

  -- pmap_extract reads the entry.
  pmap_extract_lem :
      (w : W) (s : Tables) (v : ℕ)
      → IsTables s
      → pmap_extract pmm_alloc w s v ≡ done (address (entry s v) v)
  unfolding pmap_extract pt_for
  pmap_extract_lem w s v h = elim (Bool-cases (is_present (pde s (pde_index v)))) [
    | inl p ↦ rw p (ground (arith, h.not_null (pde_index v) (omega arith) p))
    | inr p ↦ rw p refl
  ]

  pub vmm_extract-address :
      (w : W) (s : Tables) (v : ℕ)
      → IsTables s
      → vmm_extract pmm_alloc w s v ≡ done (address (entry s v) v)
  unfolding vmm_extract
  vmm_extract-address w s v h = pmap_extract_lem w s v h

  pmap_unmap_lem :
      (w : W) (s : Tables) (va : ℕ)
      → IsTables s
      → va < 2 ^ 32
      → (r : W × Tables) × (pmap_unmap pmm_alloc w s va ≡ done r)
        × IsTables r.1
        × ((v : ℕ) → v < 2 ^ 32 → entry r.1 v ≡ (if v / 4096 == va / 4096 then 0 else entry s v))
  unfolding pmap_unmap pt_for
  pmap_unmap_lem w s va h l = elim (Bool-cases (is_present (pde s (pde_index va)))) [
    | inl p ↦
        let nz : (pte_addr (pde s (pde_index va)) == 0) ≡ false =
          ground (arith, h.not_null (pde_index va) (omega arith) p) in
        (
          (w, put_word s (pte_addr (pde s (pde_index va)) + 4 * pte_index va) 0),
          rw (p, nz),
          write-IsTables s (pde_index va) (pte_index va) 0 h p (omega arith) (omega arith),
          λ v lv. entry-write s va 0 v h p l lv,
        )
    | inr p ↦ (
      (w, s),
      rw p,
      h,
      λ v lv. ground (arith, ap (pde s) {x = pde_index v} {y = pde_index va}, p),
    )
  ]

  -- After a vmm_map for which there is room, which does not panic, vmm_extract gives for every
  -- address of the page its place in the physical page, and for every other address what it gave
  -- before. The entry allows writes and user access exactly as the flags ask for. The tables stay
  -- pages of their own.
  pub vmm_extract-vmm_map :
      (w : W) (s : Tables) (va pa flags : ℕ)
      → IsTables s
      → HasRoom w s va
      → va < 2 ^ 32
      → (r : W × Tables) × (vmm_map pmm_alloc w s va pa flags ≡ done r)
        × IsTables r.1
        × ((v : ℕ)
            → v < 2 ^ 32
            → vmm_extract pmm_alloc r.0 r.1 v ≡ (
                if v / 4096 == va / 4096
                then done (pte_addr pa + page_offset v)
                else vmm_extract pmm_alloc w s v))
        × (entry r.1 va / 2 % 2 ≡ flags / 2 % 2)
        × (entry r.1 va / 4 % 2 ≡ flags / 4 % 2)
  unfolding vmm_map vmm_extract
  vmm_extract-vmm_map w s va pa flags h room l =
      let (r, e, valid, entries) = pmap_map_lem w s va pa (pte_flags flags) h room l in
      (
        r,
        e,
        valid,
        λ v lv.
            pmap_extract_lem r.0 r.1 v valid
            ∙ ap (λ a. done (address a v)) (entries v lv)
            ∙ made v (v / 4096 == va / 4096)
            ∙ ap (λ q. if v / 4096 == va / 4096 then done (pte_addr pa + page_offset v) else q)
                (sym (pmap_extract_lem w s v h)),
        ground (arith, entries va l, flags_lem flags),
        ground (arith, entries va l, flags_lem flags),
      )
    where
      made :
          (v : ℕ) (b : Bool)
          → ◌≡◌ {A = Outcome ℕ}
              (done (address (if b then pte_of pa (pte_flags flags) else entry s v) v))
              (if b then done (pte_addr pa + page_offset v) else done (address (entry s v) v))
      made v true = ap done (ground arith)
      made v false = refl

  -- After a vmm_unmap, which does not panic, vmm_extract gives 0 for every address of the page,
  -- and for every other address what it gave before. The tables stay pages of their own.
  pub vmm_extract-vmm_unmap :
      (w : W) (s : Tables) (va : ℕ)
      → IsTables s
      → va < 2 ^ 32
      → (r : W × Tables) × (vmm_unmap pmm_alloc w s va ≡ done r)
        × IsTables r.1
        × ((v : ℕ)
            → v < 2 ^ 32
            → vmm_extract pmm_alloc r.0 r.1 v
              ≡ (if v / 4096 == va / 4096 then done 0 else vmm_extract pmm_alloc w s v))
  unfolding vmm_unmap vmm_extract
  vmm_extract-vmm_unmap w s va h l =
      let (r, e, valid, entries) = pmap_unmap_lem w s va h l in
      (
        r,
        e,
        valid,
        λ v lv.
            pmap_extract_lem r.0 r.1 v valid
            ∙ ap (λ a. done (address a v)) (entries v lv)
            ∙ gone v (v / 4096 == va / 4096)
            ∙ ap (λ q. if v / 4096 == va / 4096 then done 0 else q)
                (sym (pmap_extract_lem w s v h)),
      )
    where
      gone :
          (v : ℕ) (b : Bool)
          → ◌≡◌ {A = Outcome ℕ}
              (done (address (if b then 0 else entry s v) v))
              (if b then done 0 else done (address (entry s v) v))
      gone v true = refl
      gone v false = refl
