-- ===== src/Vga/Screen.antt =====
-- The screen as rows of cells, and what vga_putc makes of it.
use mkrn.Prelude.{
  ℕ, zero, suc, ◌+◌, ◌-◌, ◌*◌, ◌≤◌, ◌<◌, ◌≡◌, inl, inr, refl, sym, ◌∙◌, arith, ltb, leb, ◌==◌,
  ==_iff, ◌&&◌, ◌||◌, if◌then◌else◌, Bool, Bool-cases, true, false, Mem, store, add32,
}
use mkrn.Cpu.{Cpu}
use mkrn.Vga.{
  vga_cols, vga_rows, vga_attr, vga_attr_log, vga_cell, blank, Vga, move_up, blank_out,
  vga_setcursor, vga_scroll, new_line, put_cell, place, vga_putc,
}

move_up_lem :
    (n i : ℕ) (m : Mem) (j : ℕ)
    → move_up n i m j ≡ (if leb i j && ltb j (i + n) then m (j + vga_cols) else m j)
unfolding move_up
move_up_lem zero i m j = ground arith
move_up_lem (suc n) i m j = ground (arith, move_up_lem n (i + 1) (store m i (m (i + vga_cols))) j)

blank_out_lem :
    (n i : ℕ) (m : Mem) (j : ℕ)
    → blank_out n i m j ≡ (if leb i j && ltb j (i + n) then blank else m j)
unfolding blank_out
blank_out_lem zero i m j = ground arith
blank_out_lem (suc n) i m j = ground (arith, blank_out_lem n (i + 1) (store m i blank) j)

abbrev pub moved_up : Mem → Mem
moved_up m j =
    if ltb j (vga_cols * (vga_rows - 1))
    then m (j + vga_cols)
    else if ltb j (vga_cols * vga_rows)
    then blank
    else m j

moved_up-ext : (m m' : Mem) → ((j : ℕ) → m j ≡ m' j) → (j : ℕ) → moved_up m j ≡ moved_up m' j
moved_up-ext m m' e j = ground (arith, e j, e (j + vga_cols))

module _ {W : Type 0} where
  -- The cursor stands on the screen.
  abbrev pub IsOnScreen : Vga W → Type 0
  IsOnScreen s = (s.vga_row < vga_rows) × (s.vga_col < vga_cols)

  -- The character takes the last place of the screen, so everything moves up by a row.
  abbrev pub is_full : Vga W → ℕ → Bool
  is_full s c = (s.vga_row == vga_rows - 1) && ((c == b'\n') || (s.vga_col == vga_cols - 1))

  -- The cells with the character at the cursor.
  abbrev pub written : Vga W → ℕ → Bool → Mem
  written s c log =
      if c == b'\n'
      then s.cells
      else store s.cells (s.vga_row * vga_cols + s.vga_col)
          (vga_cell (if log then vga_attr_log else vga_attr) c)

  -- The place of the next character.
  abbrev pub next_place : Vga W → ℕ → ℕ
  next_place s c =
      if is_full s c
      then (vga_rows - 1) * vga_cols
      else if c == b'\n'
      then (s.vga_row + 1) * vga_cols
      else s.vga_row * vga_cols + s.vga_col + 1

module _ {W : Type 0} (cpu : Cpu W) where
  vga_scroll-cells : (s : Vga W) (j : ℕ) → (vga_scroll cpu s).cells j ≡ moved_up s.cells j
  unfolding vga_scroll
  vga_scroll-cells s j =
      ground (arith, blank_out_lem 80 1920 (move_up 1920 0 s.cells) j, move_up_lem 1920 0 s.cells j)

  record Placed (s : Vga W) (c : ℕ) (log : Bool) (t : Vga W) : Type 0 where
    row : t.vga_row ≤ vga_rows
    col : t.vga_col < vga_cols
    full : (t.vga_row == vga_rows) ≡ is_full s c
    at_start : t.vga_row ≡ vga_rows → t.vga_col ≡ 0
    place :
        t.vga_row * vga_cols + t.vga_col
        ≡ (if c == b'\n' then (s.vga_row + 1) * vga_cols else s.vga_row * vga_cols + s.vga_col + 1)
    cells : (j : ℕ) → t.cells j ≡ written s c log j

  place_lem :
      (s : Vga W) (c : ℕ) (log : Bool)
      → IsOnScreen s
      → Placed s c log (place cpu s c (if log then vga_attr_log else vga_attr))
  unfolding place new_line put_cell
  place_lem s c log (r, k) = elim (Bool-cases (c == b'\n')) [
    | inl y ↦ rw y (record {
      row = omega arith;
      col = omega arith;
      full = ground arith;
      at_start = λ e. refl;
      place = ground arith;
      cells = λ j. ground (arith, y);
    })
    | inr y ↦ elim (Bool-cases (add32 s.vga_col 1 == vga_cols)) [
      | inl z ↦
          rw (y, z)
            (record {
              row = omega arith;
              col = omega arith;
              full = ground arith;
              at_start = λ e. refl;
              place = ground arith;
              cells = λ j. ground (arith, y, r, k);
            })
      | inr z ↦
          rw (y, z)
            (record {
              row = omega arith;
              col = ground arith;
              full = ground arith;
              at_start = λ e. ground arith;
              place = ground arith;
              cells = λ j. ground (arith, y, r, k);
            })
    ]
  ]

  written-outside :
      (s : Vga W) (c : ℕ) (log : Bool) (j : ℕ)
      → IsOnScreen s
      → 2000 ≤ j
      → written s c log j ≡ s.cells j
  written-outside s c log j (r, k) l = ground (arith, r, k, l)

  -- With the cursor on the screen, vga_putc writes the character at the cursor and moves the cursor
  -- to the next place, at the next row after the last column or a newline. Where that place is
  -- below the screen, every row moves up by one and the last is blank. The cursor stays on the
  -- screen, and no cell outside of the screen changes.
  pub vga_putc_lem :
      (s : Vga W) (c : ℕ) (log : Bool)
      → IsOnScreen s
      → IsOnScreen (vga_putc cpu s c log)
        × ((vga_putc cpu s c log).vga_row * vga_cols + (vga_putc cpu s c log).vga_col
            ≡ next_place s c)
        × ((j : ℕ)
            → (vga_putc cpu s c log).cells j
              ≡ (if is_full s c then moved_up (written s c log) j else written s c log j))
        × ((j : ℕ) → vga_cols * vga_rows ≤ j → (vga_putc cpu s c log).cells j ≡ s.cells j)
  unfolding vga_putc vga_setcursor vga_scroll
  vga_putc_lem s c log h =
      let t : Vga W = place cpu s c (if log then vga_attr_log else vga_attr) in
      let p : Placed s c log t = place_lem s c log h in
      elim (Bool-cases (t.vga_row == vga_rows)) [
        | inl y ↦
            let f : is_full s c ≡ true = sym p.full ∙ y in
            let cells : (j : ℕ) → (vga_scroll cpu t).cells j ≡ moved_up (written s c log) j =
              λ j. vga_scroll-cells t j ∙ moved_up-ext t.cells (written s c log) p.cells j in
            let low : vga_rows - 1 < vga_rows = omega arith in
            let start : (vga_rows - 1) * vga_cols + t.vga_col ≡ (vga_rows - 1) * vga_cols =
              omega (arith, p.at_start ((==_iff t.vga_row vga_rows).0 y)) in
            rw (y, f)
              (
                (low, p.col),
                start,
                cells,
                λ j l. cells j ∙ ground (arith, written-outside s c log j h l, l),
              )
        | inr y ↦
            let f : is_full s c ≡ false = sym p.full ∙ y in
            rw (y, f)
              (
                (ground (arith, p.row, y), p.col),
                p.place,
                p.cells,
                λ j l. p.cells j ∙ written-outside s c log j h l,
              )
      ]
