-- ===== src/Libkern.antt =====
-- src/kern/subr_libkern.c: the block operations, over a byte-addressed memory.
pub mod Block
pub mod Strings
pub mod Tests
use mkrn.Prelude.{ℕ, zero, suc, ◌+◌, ◌-◌, ◌%◌, Mem, store, ltb, ◌==◌, if◌then◌else◌, ◌||◌}

-- `while (len-- > 0) *d++ = *s++;`
pub copy_up : Mem → ℕ → ℕ → ℕ → Mem
copy_up m d s zero = m
copy_up m d s (suc len) = copy_up (store m d (m s)) (d + 1) (s + 1) len

pub memcpy : Mem → ℕ → ℕ → ℕ → Mem
memcpy m dst src len = copy_up m dst src len

-- `while (len-- > 0) *--d = *--s;`
pub copy_down : Mem → ℕ → ℕ → ℕ → Mem
copy_down m d s zero = m
copy_down m d s (suc len) = copy_down (store m (d - 1) (m (s - 1))) (d - 1) (s - 1) len

pub memmove : Mem → ℕ → ℕ → ℕ → Mem
memmove m dst src len =
    if (dst == src) || (len == 0)
    then m
    else if ltb dst src
    then copy_up m dst src len
    else copy_down m (dst + len) (src + len) len

unfoldable pub memset : Mem → ℕ → ℕ → ℕ → Mem
memset m d c zero = m
memset m d c (suc len) = memset (store m d (c % 256)) (d + 1) c len
