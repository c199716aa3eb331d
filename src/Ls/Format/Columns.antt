-- ===== src/Ls/Format/Columns.antt =====
-- What the permissions of a long listing show, and where the cells of a table stand.
use mkrn.Prelude.{
  ℕ, ◌+◌, ◌*◌, ◌/◌, ◌%◌, ◌≤◌, ◌<◌, ltb, ltb→lt, ◌≡◌, ◌≢◌, inl, inr, ap, sym, ◌∙◌, arith, Bool,
  Bool-cases, true, false, get_or,
}
use mkrn.FileMode.{user, group, other, Bit, read, write, exec, suid, sgid, svtx, Mode}
use mkrn.Ls.Format.{letter, exec_letter, permstr, cell_index, columns, rows}

letter_sound : (a b : Bool) (c : ℕ) → c ≢ b'-' → letter a c ≡ letter b c → a ≡ b
letter_sound a b c n e = ground arith

-- A place with four different characters shows both of its bits.
exec_letter_sound :
    (s s' x x' : Bool) (c d : ℕ)
    → c ≢ d
    → c ≢ b'x'
    → c ≢ b'-'
    → d ≢ b'x'
    → d ≢ b'-'
    → exec_letter s x c d ≡ exec_letter s' x' c d
    → (s ≡ s') × (x ≡ x')
exec_letter_sound s s' x x' c d n1 n2 n3 n4 n5 e = ground arith

place_s :
    {s s' x x' : Bool}
    → exec_letter s x b's' b'S' ≡ exec_letter s' x' b's' b'S'
    → (s ≡ s') × (x ≡ x')
place_s {s} {s'} {x} {x'} e =
    exec_letter_sound s s' x x' b's' b'S' (omega arith) (omega arith) (omega arith) (omega arith)
      (omega arith) e

place_t :
    {s s' x x' : Bool}
    → exec_letter s x b't' b'T' ≡ exec_letter s' x' b't' b'T'
    → (s ≡ s') × (x ≡ x')
place_t {s} {s'} {x} {x'} e =
    exec_letter_sound s s' x x' b't' b'T' (omega arith) (omega arith) (omega arith) (omega arith)
      (omega arith) e

-- The permissions of a long listing tell everything about the twelve bits of a directory: two modes
-- with the same text are the same in each bit.
permstr_lem : (m m' : Mode) → permstr m true ≡ permstr m' true → (b : Bit) → m b ≡ m' b
unfolding permstr
permstr_lem m m' e b = by_bit b
  where
    at : (i : ℕ) → get_or (permstr m true) i 0 ≡ get_or (permstr m' true) i 0
    at i = ap (λ t. get_or t i 0) e

    by_bit : (b : Bit) → m b ≡ m' b
    by_bit (read user) = letter_sound _ _ b'r' (omega arith) (at 0)
    by_bit (write user) = letter_sound _ _ b'w' (omega arith) (at 1)
    by_bit (read group) = letter_sound _ _ b'r' (omega arith) (at 3)
    by_bit (write group) = letter_sound _ _ b'w' (omega arith) (at 4)
    by_bit (read other) = letter_sound _ _ b'r' (omega arith) (at 6)
    by_bit (write other) = letter_sound _ _ b'w' (omega arith) (at 7)
    by_bit (exec user) = (place_s (at 2)).1
    by_bit (exec group) = (place_s (at 5)).1
    by_bit (exec other) = (place_t (at 8)).1
    by_bit suid = (place_s (at 2)).0
    by_bit sgid = (place_s (at 5)).0
    by_bit svtx = (place_t (at 8)).0

columns_pos : (width maxw : ℕ) → 0 < columns width maxw
unfolding columns
columns_pos width maxw = ground arith

-- There are enough rows.
rows_enough : (n ncols : ℕ) → 0 < ncols → n ≤ rows n ncols * ncols
unfolding rows
rows_enough n ncols h = grind arith

quotient_lt : (i n d : ℕ) → 0 < d → i < n * d → i / d < n
quotient_lt i n d h l = grind arith

mul_gap : (d q q' : ℕ) → q < q' → q * d + d ≤ q' * d
mul_gap d q q' l = grind arith

split_unique : (d q r q' r' : ℕ) → r < d → r' < d → q * d + r ≡ q' * d + r' → (q ≡ q') × (r ≡ r')
split_unique d q r q' r' l l' e = elim (Bool-cases (ltb q q')) [
  | inl y ↦ absurd (omega (arith, mul_gap d q q' (ltb→lt q q' y), l, l', e))
  | inr y ↦ elim (Bool-cases (ltb q' q)) [
    | inl z ↦ absurd (omega (arith, mul_gap d q' q (ltb→lt q' q z), l, l', e))
    | inr z ↦
        let same : q ≡ q' = ground (arith, y, z) in
        (same, omega (arith, e, ap (λ (t : ℕ). t * d) same))
  ]
]

-- A place of the table that shows the entry `i`.
abbrev pub Shows : Bool → ℕ → ℕ → ℕ → ℕ → ℕ → Type 0
Shows by_row ncols nrows i row col =
    (row < nrows) × (col < ncols) × (cell_index by_row ncols nrows row col ≡ i)

place_unique :
    (by_row : Bool) (ncols nrows i row col row' col' : ℕ)
    → Shows by_row ncols nrows i row col
    → Shows by_row ncols nrows i row' col'
    → (row ≡ row') × (col ≡ col')
unfolding cell_index
place_unique true ncols nrows i row col row' col' h k =
    split_unique ncols row col row' col' h.1 k.1 (h.2 ∙ sym k.2)
place_unique false ncols nrows i row col row' col' h k =
    let (c, r) = split_unique nrows col row col' row' h.0 k.0 (h.2 ∙ sym k.2) in (r, c)

place_exists :
    (by_row : Bool) (ncols nrows i : ℕ)
    → 0 < ncols
    → i < nrows * ncols
    → (row : ℕ) × (col : ℕ) × Shows by_row ncols nrows i row col
unfolding cell_index
place_exists true ncols nrows i p l =
    (i / ncols, i % ncols, (quotient_lt i nrows ncols p l, grind arith, grind arith))
place_exists false ncols nrows i p l =
    let some_row : 0 < nrows = grind arith in
    let l' : i < ncols * nrows = grind arith in
    (i % nrows, i / nrows, (grind arith, quotient_lt i ncols nrows some_row l', grind arith))

-- In the table of printcols, with the columns that fit into a width and the rows that these take,
-- each of `n` entries stands at exactly one place, whether the entries go along the rows or down
-- the columns.
pub printcols_places :
    (by_row : Bool) (width maxw n i : ℕ)
    → i < n
    → let ncols = columns width maxw in
      let nrows = rows n ncols in
      (row : ℕ) × (col : ℕ) × Shows by_row ncols nrows i row col
      × ((row' : ℕ) (col' : ℕ) → Shows by_row ncols nrows i row' col' → (row ≡ row') × (col ≡ col'))
printcols_places by_row width maxw n i l =
    let ncols : ℕ = columns width maxw in
    let nrows : ℕ = rows n ncols in
    let pos = columns_pos width maxw in
    let (row, col, shows) =
      place_exists by_row ncols nrows i pos (omega (arith, l, rows_enough n ncols pos)) in
    (row, col, shows, λ row' col' h. place_unique by_row ncols nrows i row col row' col' shows h)
