-- ===== src/Libkern/Strings.antt =====
-- src/kern/subr_libkern.c: memcmp and the functions on NUL-terminated strings. An `int` result is
-- the library's ℤ over native numbers.
pub mod Text
pub mod Tests
use mkrn.Prelude.{
  ℕ, zero, suc, ◌+◌, ◌-◌, ◌^◌, ◌%◌, Mem, store, leb, ◌==◌, if◌then◌else◌, ◌||◌, not, Option, none,
  some, Outcome, done, out_of_fuel, ◌>>=◌,
}

pub data ℤ : Type 0 where
  pos negsuc : ℕ → ℤ

-- `(int)a - (int)b` of two bytes
pub byte_sub : ℕ → ℕ → ℤ
byte_sub a b = if leb b a then pos (a - b) else negsuc (b - a - 1)

memcmp : Mem → ℕ → ℕ → ℕ → ℤ
memcmp m a b zero = pos 0
memcmp m a b (suc len) =
    let rest : ℤ = memcmp m (a + 1) (b + 1) len in if m a == m b then rest else byte_sub (m a) (m b)

-- Rounds for a loop over a string: no string is longer than the address space.
pub str_fuel : ℕ
str_fuel = 2 ^ 32

pub strlen_loop : ℕ → Mem → ℕ → ℕ → Outcome ℕ
strlen_loop zero m s n = out_of_fuel
strlen_loop (suc fuel) m s n =
    let rest : Outcome ℕ = strlen_loop fuel m s (n + 1) in if m (s + n) == 0 then done n else rest

pub strlen : Mem → ℕ → Outcome ℕ
strlen m s = strlen_loop str_fuel m s 0

pub strcpy_loop : ℕ → Mem → ℕ → ℕ → Outcome Mem
strcpy_loop zero m dst src = out_of_fuel
strcpy_loop (suc fuel) m dst src =
    let m' : Mem = store m dst (m src) in
    let rest : Outcome Mem = strcpy_loop fuel m' (dst + 1) (src + 1) in
    if m src == 0 then done m' else rest

pub strcpy : Mem → ℕ → ℕ → Outcome Mem
strcpy m dst src = strcpy_loop str_fuel m dst src

-- The second loop of strncpy.
strncpy_pad : Mem → ℕ → ℕ → Mem
strncpy_pad m dst zero = m
strncpy_pad m dst (suc len) = strncpy_pad (store m dst 0) (dst + 1) len

strncpy : Mem → ℕ → ℕ → ℕ → Mem
strncpy m dst src zero = m
strncpy m dst src (suc len) =
    let rest : Mem = strncpy (store m dst (m src)) (dst + 1) (src + 1) len in
    if m src == 0 then strncpy_pad m dst (suc len) else rest

pub strcmp_loop : ℕ → Mem → ℕ → ℕ → Outcome ℤ
strcmp_loop zero m a b = out_of_fuel
strcmp_loop (suc fuel) m a b =
    let rest : Outcome ℤ = strcmp_loop fuel m (a + 1) (b + 1) in
    if m a == 0 || not (m a == m b) then done (byte_sub (m a) (m b)) else rest

pub strcmp : Mem → ℕ → ℕ → Outcome ℤ
strcmp m a b = strcmp_loop str_fuel m a b

strncmp : Mem → ℕ → ℕ → ℕ → ℤ
strncmp m a b zero = pos 0
strncmp m a b (suc len) =
    let rest : ℤ = strncmp m (a + 1) (b + 1) len in
    if not (m a == m b) || m a == 0 then byte_sub (m a) (m b) else rest

-- The first loop of strcat: the address of the terminator.
pub strcat_end : ℕ → Mem → ℕ → Outcome ℕ
strcat_end zero m dst = out_of_fuel
strcat_end (suc fuel) m dst =
    let rest : Outcome ℕ = strcat_end fuel m (dst + 1) in if m dst == 0 then done dst else rest

pub strcat : Mem → ℕ → ℕ → Outcome Mem
strcat m dst src = do end ← strcat_end str_fuel m dst; strcpy_loop str_fuel m end src

-- `c` is an int, in two's complement; `none` is NULL.
strchr_loop : ℕ → Mem → ℕ → ℕ → Outcome (Option ℕ)
strchr_loop zero m s c = out_of_fuel
strchr_loop (suc fuel) m s c =
    let rest : Outcome (Option ℕ) = strchr_loop fuel m (s + 1) c in
    if m s == 0
    then done (if c == 0 then some s else none)
    else if m s == c % 256
    then done (some s)
    else rest

strchr : Mem → ℕ → ℕ → Outcome (Option ℕ)
strchr m s c = strchr_loop str_fuel m s c
