-- ===== src/Prf/Tests.antt =====
-- Printing 1234 in a field of eight characters.
use mkrn.Prelude.{
  ℕ, ◌≡◌, ◌<◌, ◌≤◌, inl, refl, arith, ltb, if◌then◌else◌, true, List, [], ◌∷◌, length, done, ◌%◌,
  ◌^◌, ◌++◌, none,
}
use mkrn.Prf.{
  kputnum_bufsz, width_max, put_digits, put_pad, num_fuel, kputnum, VaList, kvprintf, kvprintf_loop,
}
use mkrn.Prf.Number.{read, kputnum_lem}
use mkrn.Prf.Format.{IsPlain, kvprintf_lem}

printed : kputnum 1234 10 8 true ≡ done (48 ∷ 48 ∷ 48 ∷ 48 ∷ 49 ∷ 50 ∷ 51 ∷ 52 ∷ [])
unfolding kputnum put_digits put_pad num_fuel
printed = refl

kputnum_lem_example :
    (chars : List ℕ) × (kputnum 1234 10 8 true ≡ done chars)
    × (read 10 0 chars ≡ 1234)
    × (0 < length chars)
    × (length chars ≤ kputnum_bufsz)
    × ((if ltb width_max 8 then width_max else 8) ≤ length chars)
kputnum_lem_example = kputnum_lem 1234 10 8 true (inl refl) (omega arith)

-- Arguments that are all numbers.
abbrev numbers : VaList (List ℕ)
numbers = record { word = next; text = λ v. (none, v) }
  where
    next : List ℕ → ℕ × List ℕ
    next [] = (0, [])
    next (x ∷ xs) = (x % 2 ^ 32, xs)

numbers_are_words : (v : List ℕ) → (numbers.word v).0 < 2 ^ 32
numbers_are_words [] = omega arith
numbers_are_words (x ∷ xs) = omega arith

-- "%4x|%d" with 255 and -7
format_run :
    kvprintf numbers (b'%' ∷ b'4' ∷ b'x' ∷ b'|' ∷ b'%' ∷ b'd' ∷ []) (255 ∷ 0xfffffff9 ∷ [])
    ≡ done (b' ' ∷ b' ' ∷ b'f' ∷ b'f' ∷ b'|' ∷ b'-' ∷ b'7' ∷ [], [])
unfolding kvprintf kvprintf_loop mkrn.Prf.put_spec mkrn.Prf.read_spec mkrn.Prf.read_conversion
    mkrn.Prf.skip mkrn.Prf.read_width mkrn.Prf.convert mkrn.Prf.put_number kputnum put_digits
    num_fuel mkrn.Prf.put_signed put_pad
format_run = refl

kvprintf_lem_example :
    (r : List ℕ × List ℕ) × (kvprintf numbers (b'%' ∷ b'u' ∷ []) (12 ∷ []) ≡ done r)
    × ((xs : List ℕ)
        → IsPlain xs
        → kvprintf numbers (xs ++ (b'%' ∷ b'u' ∷ [])) (12 ∷ []) ≡ done (xs ++ r.0, r.1))
kvprintf_lem_example = kvprintf_lem numbers numbers_are_words (b'%' ∷ b'u' ∷ []) (12 ∷ [])
