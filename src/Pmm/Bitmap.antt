-- ===== src/Pmm/Bitmap.antt =====
-- The bits of the page bitmap: what bit_set and bit_clear do to bit_test.
use mkrn.Prelude.{
  ℕ, ◌+◌, ◌/◌, ◌%◌, ◌<◌, ◌≡◌, refl, ap, arith, holds_below, holds_below-at, ltb, ◌==◌, ==_iff,
  if◌then◌else◌, ◌&&◌, true, Bool, Mem,
}
use mkrn.Pmm.{Pmm, set_bit8, clear_bit8, test_bit8, bit_set, bit_clear, bit_test}

abbrev on_bytes : (ℕ → ℕ → ℕ → Bool) → Bool
on_bytes p = holds_below (λ b. holds_below (λ i. holds_below (λ j. p b i j) 8) 8) 256

on_bytes_sound :
    (p : ℕ → ℕ → ℕ → Bool) (b i j : ℕ)
    → on_bytes p ≡ true
    → b < 256
    → i < 8
    → j < 8
    → p b i j ≡ true
on_bytes_sound p b i j all hb hi hj =
    holds_below-at (λ j. p b i j) 8 j hj
      (holds_below-at (λ i. holds_below (λ j. p b i j) 8) 8 i hi (holds_below-at _ 256 b hb all))

abbrev set_ok : ℕ → ℕ → ℕ → Bool
set_ok b i j = test_bit8 (set_bit8 b i) j == (if i == j then 1 else test_bit8 b j)

abbrev clear_ok : ℕ → ℕ → ℕ → Bool
clear_ok b i j = test_bit8 (clear_bit8 b i) j == (if i == j then 0 else test_bit8 b j)

abbrev range_ok : ℕ → ℕ → ℕ → Bool
range_ok b i j = (ltb (set_bit8 b i) 256 && ltb (clear_bit8 b i) 256) && ltb (test_bit8 b j) 2

set_table : on_bytes set_ok ≡ true
unfolding holds_below set_bit8 test_bit8
set_table = refl

clear_table : on_bytes clear_ok ≡ true
unfolding holds_below clear_bit8 test_bit8
clear_table = refl

range_table : on_bytes range_ok ≡ true
unfolding holds_below set_bit8 clear_bit8 test_bit8
range_table = refl

-- A bit after set_bit8 and clear_bit8, at any byte and any two positions.
pub test_bit8-set_bit8 :
    (b i j : ℕ)
    → b < 256
    → i < 8
    → j < 8
    → test_bit8 (set_bit8 b i) j ≡ (if i == j then 1 else test_bit8 b j)
test_bit8-set_bit8 b i j hb hi hj = (==_iff _ _).0 (on_bytes_sound set_ok b i j set_table hb hi hj)

pub test_bit8-clear_bit8 :
    (b i j : ℕ)
    → b < 256
    → i < 8
    → j < 8
    → test_bit8 (clear_bit8 b i) j ≡ (if i == j then 0 else test_bit8 b j)
test_bit8-clear_bit8 b i j hb hi hj =
    (==_iff _ _).0 (on_bytes_sound clear_ok b i j clear_table hb hi hj)

pub bit8_range :
    (b i j : ℕ)
    → b < 256
    → i < 8
    → j < 8
    → (set_bit8 b i < 256) × (clear_bit8 b i < 256) × (test_bit8 b j < 2)
bit8_range b i j hb hi hj =
    let h : range_ok b i j ≡ true = on_bytes_sound range_ok b i j range_table hb hi hj in
    ground arith

-- Every address holds a byte.
abbrev pub IsBytes : Mem → Type 0
IsBytes m = (x : ℕ) → m x < 256

module _ (s : Pmm) (bytes : IsBytes s.mem) where
  pub bit_test-bit_set : (p q : ℕ) → bit_test (bit_set s p) q ≡ (if p == q then 1 else bit_test s q)
  unfolding bit_test bit_set
  bit_test-bit_set p q = ground (
    arith,
    test_bit8-set_bit8 (s.mem (s.bitmap + p / 8)) (p % 8) (q % 8) (bytes _),
    ap s.mem {x = s.bitmap + p / 8} {y = s.bitmap + q / 8},
  )

  pub bit_test-bit_clear :
      (p q : ℕ) → bit_test (bit_clear s p) q ≡ (if p == q then 0 else bit_test s q)
  unfolding bit_test bit_clear
  bit_test-bit_clear p q = ground (
    arith,
    test_bit8-clear_bit8 (s.mem (s.bitmap + p / 8)) (p % 8) (q % 8) (bytes _),
    ap s.mem {x = s.bitmap + p / 8} {y = s.bitmap + q / 8},
  )

  pub bit_test-lt : (q : ℕ) → bit_test s q < 2
  unfolding bit_test
  bit_test-lt q =
      (bit8_range (s.mem (s.bitmap + q / 8)) 0 (q % 8) (bytes _) (omega arith) (omega arith)).2

  pub bit_set-IsBytes : (p : ℕ) → IsBytes (bit_set s p).mem
  unfolding bit_set
  bit_set-IsBytes p x =
      ground (arith, bytes x, bit8_range (s.mem (s.bitmap + p / 8)) (p % 8) 0 (bytes _))

  pub bit_clear-IsBytes : (p : ℕ) → IsBytes (bit_clear s p).mem
  unfolding bit_clear
  bit_clear-IsBytes p x =
      ground (arith, bytes x, bit8_range (s.mem (s.bitmap + p / 8)) (p % 8) 0 (bytes _))
