-- ===== src/Pmap/Entry.antt =====
-- What the tables say about each page, and the writes of pmap_map and pmap_unmap to them.
use mkrn.Prelude.{
  ℕ, ◌+◌, ◌*◌, ◌/◌, ◌%◌, ◌^◌, ◌≤◌, ◌<◌, ◌≡◌, ◌≢◌, refl, ap, sym, subst, ◌∙◌, arith, ltb, leb, ◌==◌,
  if◌then◌else◌, if_false, ◌&&◌, Bool-cases, true, false, inl, inr,
}
use mkrn.Pmap.{Tables, pde_index, pte_index, pte_addr, is_present, pde_of, put_word, pde, add_table}

-- The entry that a virtual address stands for, 0 where there is no table.
abbrev pub entry : Tables → ℕ → ℕ
entry s va =
    if is_present (pde s (pde_index va))
    then s.word (pte_addr (pde s (pde_index va)) + 4 * pte_index va)
    else 0

-- The directory and the tables are pages of their own.
pub record IsTables (s : Tables) : Type 0 where
  pub aligned : s.pgdir % 4096 ≡ 0
  pub not_null : (i : ℕ) → i < 1024 → is_present (pde s i) ≡ true → pte_addr (pde s i) ≢ 0
  pub off_directory :
      (i : ℕ) → i < 1024 → is_present (pde s i) ≡ true → pte_addr (pde s i) ≢ s.pgdir
  pub apart :
      (i j : ℕ)
      → i < 1024
      → j < 1024
      → i ≢ j
      → is_present (pde s i) ≡ true
      → is_present (pde s j) ≡ true
      → pte_addr (pde s i) ≢ pte_addr (pde s j)

-- A page that may become a table: it is none yet, and can be cleared.
pub record Fresh (s : Tables) (p : ℕ) : Type 0 where
  pub page : p % 4096 ≡ 0
  pub not_null : p ≢ 0
  pub reached : p + 4096 ≤ s.window
  pub off_directory : p ≢ s.pgdir
  pub no_table : (i : ℕ) → i < 1024 → is_present (pde s i) ≡ true → pte_addr (pde s i) ≢ p

pub pgdir-add_table : (s : Tables) (i p : ℕ) → (add_table s i p).pgdir ≡ s.pgdir
unfolding add_table
pgdir-add_table s i p = refl

pub window-add_table : (s : Tables) (i p : ℕ) → (add_table s i p).window ≡ s.window
unfolding add_table
window-add_table s i p = refl

pub pde-add_table :
    (s : Tables) (i p j : ℕ)
    → IsTables s
    → Fresh s p
    → j < 1024
    → pde (add_table s i p) j ≡ (if j == i then pde_of p else pde s j)
unfolding add_table
pde-add_table s i p j v f l = ground (arith, v.aligned, f.page, f.off_directory)

pub pde-write :
    (s : Tables) (i k j v : ℕ)
    → IsTables s
    → is_present (pde s i) ≡ true
    → i < 1024
    → k < 1024
    → j < 1024
    → pde (put_word s (pte_addr (pde s i) + 4 * k) v) j ≡ pde s j
pde-write s i k j v h e li lk lj =
    if_false (s.pgdir + 4 * j == pte_addr (pde s i) + 4 * k) v (pde s j)
      (ground (arith, h.aligned, h.off_directory i li e))

-- The invariant reads the directory alone.
IsTables-ext :
    (s t : Tables)
    → t.pgdir ≡ s.pgdir
    → ((j : ℕ) → j < 1024 → pde t j ≡ pde s j)
    → IsTables s
    → IsTables t
IsTables-ext s t d same h = record {
  aligned = ap (λ a. a % 4096) d ∙ h.aligned;
  not_null =
      λ j l. subst (λ e. is_present e ≡ true → pte_addr e ≢ 0) (sym (same j l)) (h.not_null j l);
  off_directory = λ j l p q.
      subst (λ e. is_present e ≡ true → pte_addr e ≢ s.pgdir) (sym (same j l)) (h.off_directory j l)
        p (q ∙ d);
  apart = λ i j li lj n.
      subst
        (λ e. is_present e ≡ true → is_present (pde t j) ≡ true → pte_addr e ≢ pte_addr (pde t j))
        (sym (same i li))
        (subst
          (λ e. is_present (pde s i) ≡ true → is_present e ≡ true → pte_addr (pde s i) ≢ pte_addr e)
          (sym (same j lj)) (h.apart i j li lj n));
}

pub write-IsTables :
    (s : Tables) (i k v : ℕ)
    → IsTables s
    → is_present (pde s i) ≡ true
    → i < 1024
    → k < 1024
    → IsTables (put_word s (pte_addr (pde s i) + 4 * k) v)
write-IsTables s i k v h e li lk =
    IsTables-ext s (put_word s (pte_addr (pde s i) + 4 * k) v) refl
      (λ j lj. pde-write s i k j v h e li lk lj) h

pub add_table-IsTables :
    (s : Tables) (i p : ℕ) → IsTables s → Fresh s p → i < 1024 → IsTables (add_table s i p)
add_table-IsTables s i p h f l = record {
  aligned = ap (λ a. a % 4096) (pgdir-add_table s i p) ∙ h.aligned;
  not_null =
      λ j lj. ground (arith, pde-add_table s i p j h f lj, h.not_null j lj, f.page, f.not_null);
  off_directory = λ j lj. ground (
    arith,
    pde-add_table s i p j h f lj,
    h.off_directory j lj,
    f.page,
    f.off_directory,
    pgdir-add_table s i p,
  );
  apart = λ a b la lb n. ground (
    arith,
    pde-add_table s i p a h f la,
    pde-add_table s i p b h f lb,
    h.apart a b la lb n,
    f.no_table a la,
    f.no_table b lb,
    f.page,
  );
}

-- A write of the entry of `va` changes the entries of its page and no other.
pub entry-write :
    (s : Tables) (va e v : ℕ)
    → IsTables s
    → is_present (pde s (pde_index va)) ≡ true
    → va < 2 ^ 32
    → v < 2 ^ 32
    → entry (put_word s (pte_addr (pde s (pde_index va)) + 4 * pte_index va) e) v
      ≡ (if v / 4096 == va / 4096 then e else entry s v)
entry-write s va e v h p la lv =
    let t : Tables = put_word s (pte_addr (pde s (pde_index va)) + 4 * pte_index va) e in
    let same : pde t (pde_index v) ≡ pde s (pde_index v) =
      pde-write s (pde_index va) (pte_index va) (pde_index v) e h p (omega arith) (omega arith)
        (omega arith) in
    ap (λ d. if is_present d then t.word (pte_addr d + 4 * pte_index v) else 0) same
    ∙ ground (
      arith,
      ap (pde s) {x = pde_index v} {y = pde_index va},
      p,
      h.apart (pde_index v) (pde_index va) (omega arith) (omega arith),
    )

word-add_table :
    (s : Tables) (i p a : ℕ)
    → (add_table s i p).word a ≡ (
        if a == s.pgdir + 4 * i
        then pde_of p
        else if leb p a && ltb a (p + 4096)
        then 0
        else s.word a)
unfolding add_table
word-add_table s i p a = refl

pub entry-add_table :
    (s : Tables) (i p v : ℕ)
    → IsTables s
    → Fresh s p
    → is_present (pde s i) ≡ false
    → i < 1024
    → entry (add_table s i p) v ≡ entry s v
entry-add_table s i p v h f e l =
    let same : pde (add_table s i p) (pde_index v)
        ≡ (if pde_index v == i then pde_of p else pde s (pde_index v)) =
      pde-add_table s i p (pde_index v) h f (omega arith) in
    ap (λ d. if is_present d then (add_table s i p).word (pte_addr d + 4 * pte_index v) else 0) same
    ∙ elim (Bool-cases (pde_index v == i)) [
      | inl q ↦ rw q (
          ground (
            arith,
            f.page,
            f.off_directory,
            h.aligned,
            ap (pde s) {x = pde_index v} {y = i},
            e,
            word-add_table s i p (pde_of p / 4096 * 4096 + 4 * pte_index v),
          ))
      | inr q ↦ rw q (
          ground (
            arith,
            f.page,
            h.aligned,
            f.no_table (pde_index v) (omega arith),
            h.off_directory (pde_index v) (omega arith),
            word-add_table s i p (pte_addr (pde s (pde_index v)) + 4 * pte_index v),
          ))
    ]

-- The directory has the new table.
pub pde_made :
    (s : Tables) (i p : ℕ)
    → IsTables s
    → Fresh s p
    → i < 1024
    → (is_present (pde (add_table s i p) i) ≡ true) × (pte_addr (pde (add_table s i p) i) ≡ p)
pde_made s i p h f l = ground (arith, pde-add_table s i p i h f l, f.page)
