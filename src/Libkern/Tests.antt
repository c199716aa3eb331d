-- ===== src/Libkern/Tests.antt =====
-- The block operations at overlapping blocks.
use mkrn.Prelude.{ℕ, ◌+◌, ◌≡◌, ◌<◌, ◌≤◌, ◌⊎◌}
use mkrn.Libkern.{memmove}
use mkrn.Libkern.Block.{memmove_lem}

memmove_lem_example :
    ((k : ℕ) → k < 6 → memmove (λ x. x) 12 10 6 (12 + k) ≡ 10 + k)
    × ((x : ℕ) → (x < 12) ⊎ (18 ≤ x) → memmove (λ x. x) 12 10 6 x ≡ x)
memmove_lem_example = memmove_lem (λ x. x) 12 10 6
