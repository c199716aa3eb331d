-- ===== src/Prelude/Words.antt =====
-- Machine words as native numbers, and a byte-addressed memory.
use Prim.Native.Nat.{ℕ, ◌+◌, ◌-◌, ◌*◌, ◌%◌, ◌^◌}
use Prim.Native.Nat.{compare, Ordering}
use mathlib.Core.List.{List, [], ◌∷◌}
use Prim.Native.Char.{code}
use Prim.Native.String.{String}

abbrev pub u32_mod : ℕ
u32_mod = 2 ^ 32

abbrev pub u64_mod : ℕ
u64_mod = 2 ^ 64

-- Addition and subtraction of `uint32_t` (also `size_t` and `unsigned long`: the target is i386).
abbrev pub add32 : ℕ → ℕ → ℕ
add32 a b = (a + b) % u32_mod

abbrev pub sub32 : ℕ → ℕ → ℕ
sub32 a b = (a + u32_mod - b) % u32_mod

-- A memory: the value of each address.
abbrev pub Mem : Type 0
Mem = ℕ → ℕ

abbrev pub store : Mem → ℕ → ℕ → Mem
store m a v x = elim (compare x a) [ Ordering.eq ↦ v | _ ↦ m x ]

-- The little-endian word of 32 or 64 bits at an address.
abbrev pub load32 : Mem → ℕ → ℕ
load32 m a = m a + 256 * m (a + 1) + 65536 * m (a + 2) + 16777216 * m (a + 3)

abbrev pub load64 : Mem → ℕ → ℕ
load64 m a = load32 m a + 2 ^ 32 * load32 m (a + 4)

-- The bytes of a text literal.
abbrev pub codes : String → List ℕ
codes String.[] = []
codes (String.◌∷◌ c s) = code c ∷ codes s
