-- ===== src/Libkern/Block.antt =====
-- What memset, memcpy and memmove leave in memory.
use mkrn.Prelude.{
  ℕ, zero, suc, ◌+◌, ◌-◌, ◌%◌, ◌≤◌, ◌<◌, ◌≡◌, refl, ◌∙◌, ◌⊎◌, inl, inr, arith, Mem, store, ◌==◌, ap,
  Bool-cases,
}
use mkrn.Libkern.{copy_up, copy_down, memcpy, memmove, memset}

-- Whether an address lies in the block of `len` bytes at `d`.
abbrev Within : ℕ → ℕ → ℕ → Type 0
Within d len x = (d ≤ x) × (x < d + len)

pub memset-outside : (m : Mem) (d c len x : ℕ) → (x < d) ⊎ (d + len ≤ x) → memset m d c len x ≡ m x
unfolding memset
memset-outside m d c zero x h = refl
memset-outside m d c (suc len) x h =
    memset-outside (store m d (c % 256)) (d + 1) c len x (ground arith) ∙ ground arith

-- After memset every byte of the block is the low byte of `c`.
pub memset-Within : (m : Mem) (d c len x : ℕ) → Within d len x → memset m d c len x ≡ c % 256
unfolding memset
memset-Within m d c zero x h = absurd (omega arith)
memset-Within m d c (suc len) x h = elim (Bool-cases (x == d)) [
  | inl e ↦ memset-outside (store m d (c % 256)) (d + 1) c len x (ground arith) ∙ ground arith
  | inr e ↦ memset-Within (store m d (c % 256)) (d + 1) c len x (ground arith)
]

copy_up-outside : (m : Mem) (d s len x : ℕ) → (x < d) ⊎ (d + len ≤ x) → copy_up m d s len x ≡ m x
unfolding copy_up
copy_up-outside m d s zero x h = refl
copy_up-outside m d s (suc len) x h =
    copy_up-outside (store m d (m s)) (d + 1) (s + 1) len x (ground arith) ∙ ground arith

-- Copying upwards is right unless the destination starts inside the source.
copy_up-within :
    (m : Mem) (d s len k : ℕ)
    → (d ≤ s) ⊎ (s + len ≤ d)
    → k < len
    → copy_up m d s len (d + k) ≡ m (s + k)
unfolding copy_up
copy_up-within m d s zero k a h = absurd (omega arith)
copy_up-within m d s (suc len) zero a h =
    copy_up-outside (store m d (m s)) (d + 1) (s + 1) len (d + 0) (inl (omega arith))
    ∙ ground (arith, ap m {x = s} {y = s + 0} (omega arith))
copy_up-within m d s (suc len) (suc k) a h =
    ap (copy_up (store m d (m s)) (d + 1) (s + 1) len) (omega arith)
    ∙ copy_up-within (store m d (m s)) (d + 1) (s + 1) len k (ground arith) (omega arith)
    ∙ ground (arith, ap m {x = s + 1 + k} {y = s + suc k} (omega arith))

copy_down-outside :
    (m : Mem) (d s len x : ℕ) → len ≤ d → (x < d - len) ⊎ (d ≤ x) → copy_down m d s len x ≡ m x
unfolding copy_down
copy_down-outside m d s zero x l h = refl
copy_down-outside m d s (suc len) x l h =
    copy_down-outside (store m (d - 1) (m (s - 1))) (d - 1) (s - 1) len x (omega arith)
      (ground arith)
    ∙ ground arith

-- Copying downwards is right if the destination does not start below the source.
copy_down-within :
    (m : Mem) (d s len k : ℕ)
    → s ≤ d
    → len ≤ s
    → k < len
    → copy_down m d s len (d - len + k) ≡ m (s - len + k)
unfolding copy_down
copy_down-within m d s zero k a l h = absurd (omega arith)
copy_down-within m d s (suc len) k a l h = elim (Bool-cases (k == len)) [
  | inl e ↦
      copy_down-outside (store m (d - 1) (m (s - 1))) (d - 1) (s - 1) len (d - suc len + k)
        (omega arith) (inr (ground arith))
      ∙ ground (arith, ap m {x = s - 1} {y = s - suc len + k} (ground arith))
  | inr e ↦
      ap (copy_down (store m (d - 1) (m (s - 1))) (d - 1) (s - 1) len) {x = d - suc len + k}
        {y = d - 1 - len + k} (ground arith)
      ∙ copy_down-within (store m (d - 1) (m (s - 1))) (d - 1) (s - 1) len k (omega arith)
          (omega arith) (ground arith)
      ∙ ground (arith, ap m {x = s - 1 - len + k} {y = s - suc len + k} (ground arith))
]

memmove-inside :
    (m : Mem) (dst src len k : ℕ) → k < len → memmove m dst src len (dst + k) ≡ m (src + k)
unfolding memmove
memmove-inside m dst src len k h = ground (
  arith,
  ap m {x = dst + k} {y = src + k},
  copy_up-within m dst src len k,
  copy_down-within m (dst + len) (src + len) len k,
  ap (copy_down m (dst + len) (src + len) len) {x = dst + len - len + k} {y = dst + k}
      (omega arith),
  ap m {x = src + len - len + k} {y = src + k} (omega arith),
)

pub memmove-outside :
    (m : Mem) (dst src len x : ℕ) → (x < dst) ⊎ (dst + len ≤ x) → memmove m dst src len x ≡ m x
unfolding memmove
memmove-outside m dst src len x h =
    ground
      (arith, copy_up-outside m dst src len x h, copy_down-outside m (dst + len) (src + len) len x)

-- memmove leaves at the destination the bytes that the source held before the call, however the
-- two blocks overlap, and changes no byte outside the destination.
pub memmove_lem :
    (m : Mem) (dst src len : ℕ)
    → ((k : ℕ) → k < len → memmove m dst src len (dst + k) ≡ m (src + k))
      × ((x : ℕ) → (x < dst) ⊎ (dst + len ≤ x) → memmove m dst src len x ≡ m x)
memmove_lem m dst src len = (memmove-inside m dst src len, memmove-outside m dst src len)

-- memcpy leaves at the destination the bytes that the source held before the call, and changes
-- no byte outside the destination, if the destination does not start inside the source.
memcpy_lem :
    (m : Mem) (dst src len : ℕ)
    → (dst ≤ src) ⊎ (src + len ≤ dst)
    → ((k : ℕ) → k < len → memcpy m dst src len (dst + k) ≡ m (src + k))
      × ((x : ℕ) → (x < dst) ⊎ (dst + len ≤ x) → memcpy m dst src len x ≡ m x)
unfolding memcpy
memcpy_lem m dst src len apart =
    (λ k. copy_up-within m dst src len k apart, copy_up-outside m dst src len)
