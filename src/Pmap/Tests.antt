-- ===== src/Pmap/Tests.antt =====
-- An empty directory at 0x5000, and a page allocator that counts pages; pmap_init on the one of Pmm.
use mkrn.Prelude.{
  ℕ, ◌+◌, ◌-◌, ◌*◌, ◌/◌, ◌%◌, ◌^◌, ◌<◌, ◌≡◌, refl, arith, ◌==◌, if◌then◌else◌, inr, done,
}
use mkrn.Pmm.{Pmm, page_size, pmm_alloc}
use mkrn.Pmm.Tests.{roomy, roomy-IsValid, roomy_bits, roomy_low}
use mkrn.Pmap.{Tables, kernbase, pmap_init, pte_addr, page_offset, vmm_map, vmm_unmap, vmm_extract}
use mkrn.Pmap.Entry.{entry, IsTables, Fresh}
use mkrn.Pmap.Pages.{IsPaged}
use mkrn.Pmap.Window.{in_pages}
use mkrn.Pmap.Init.{Took, low_end, pmap_init_lem}
use mkrn.Pmap.Map.{vmm_extract-vmm_map, vmm_extract-vmm_unmap}

abbrev empty : Tables
empty = record { word = λ x. 0; pgdir = 0x5000; cr3 = 0x5000; window = 0x400000 }

abbrev next_page : ℕ → ℕ × ℕ
next_page n = (n * 4096, n + 1)

empty-IsTables : IsTables empty
empty-IsTables = record {
  aligned = refl;
  not_null = λ i l p. cc;
  off_directory = λ i l p. cc;
  apart = λ i j li lj n p q. cc;
}

page-Fresh : Fresh empty 0x7000
page-Fresh = record {
  page = refl;
  reached = omega arith;
  not_null = omega arith;
  off_directory = omega arith;
  no_table = λ i l p. cc;
}

vmm_extract-vmm_map_example :
    (r : ℕ × Tables) × (vmm_map next_page 7 empty 0xd1000000 0x9000 3 ≡ done r)
    × IsTables r.1
    × ((v : ℕ)
        → v < 2 ^ 32
        → vmm_extract next_page r.0 r.1 v ≡ (
            if v / 4096 == 0xd1000000 / 4096
            then done (pte_addr 0x9000 + page_offset v)
            else vmm_extract next_page 7 empty v))
    × (entry r.1 0xd1000000 / 2 % 2 ≡ 3 / 2 % 2)
    × (entry r.1 0xd1000000 / 4 % 2 ≡ 3 / 4 % 2)
vmm_extract-vmm_map_example =
    vmm_extract-vmm_map next_page 7 empty 0xd1000000 0x9000 3 empty-IsTables (inr page-Fresh)
      (omega arith)

vmm_extract-vmm_unmap_example :
    (r : ℕ × Tables) × (vmm_unmap next_page 7 empty 0xd1000000 ≡ done r)
    × IsTables r.1
    × ((v : ℕ)
        → v < 2 ^ 32
        → vmm_extract next_page r.0 r.1 v
          ≡ (if v / 4096 == 0xd1000000 / 4096 then done 0 else vmm_extract next_page 7 empty v))
vmm_extract-vmm_unmap_example =
    vmm_extract-vmm_unmap next_page 7 empty 0xd1000000 empty-IsTables (omega arith)

pmap_init_lem_example :
    (m : Pmm × Tables) × (pmap_init pmm_alloc 600 0x100000 0x110800 roomy empty ≡ done m)
    × IsPaged m.0 m.1
    × Took roomy m
    × (m.1.cr3 ≡ m.1.pgdir)
    × ((v : ℕ)
        → v < 2 ^ 32
        → vmm_extract pmm_alloc m.0 m.1 v
          ≡ done (
              if in_pages (kernbase + 0x100000) (kernbase + 0x110800) v
              then v - kernbase
              else if in_pages page_size (low_end 600) v
              then v
              else 0))
pmap_init_lem_example =
    pmap_init_lem 600 0x100000 0x110800 roomy empty roomy-IsValid roomy_bits.0 refl (omega arith)
      (omega arith) (omega (arith, roomy_low))
