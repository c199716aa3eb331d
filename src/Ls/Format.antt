-- ===== src/Ls/Format.antt =====
-- src/bin/ls/format.c: the text that ls writes for its entries. `strcoll`, the number, date and
-- owner texts of the C library and the width of the terminal are arguments.
pub mod Columns
pub mod Order
use mkrn.Prelude.{
  ℕ, zero, suc, ◌+◌, ◌-◌, ◌*◌, ◌/◌, ◌%◌, ◌==◌, leb, ltb, ◌&&◌, ◌||◌, not, if◌then◌else◌, Bool, true,
  false, Option, none, some, List, [], ◌∷◌, ◌++◌, map, length, get_or, replicate, u32_mod, add32,
}
use mkrn.FileMode.{
  Who, user, group, other, Bit, read, write, exec, suid, sgid, svtx, Mode, Kind, regular, directory,
  symlink, block, char, fifo, socket, is_directory,
}
use mkrn.Ls.{Stat, Entry, Flags, Layout, standard, cols, across, stream, long, one, entrytime}

-- What a comparison returns, by its sign.
pub data Sign : Type 0 where
  below same above : Sign

pub flip : Sign → Sign
flip below = above
flip same = same
flip above = below

pub orelse : Sign → Sign → Sign
orelse same s = s
orelse below s = below
orelse above s = above

-- `a != b ? (a > b ? -1 : 1)`
pub descending : ℕ → ℕ → Sign
descending a b = if a == b then same else if ltb b a then below else above

pub entrycmp : (List ℕ → List ℕ → Sign) → Bool → Flags → Entry → Entry → Sign
entrycmp strcoll nameonly fl a b =
    let names : Sign = strcoll a.name b.name in
    let c : Sign =
      if nameonly || (not fl.upper_s && not fl.t)
      then names
      else if fl.upper_s
      then orelse (descending a.st.size b.st.size) names
      else orelse (descending (entrytime fl a.st) (entrytime fl b.st)) names in
    if fl.r then flip c else c

-- `qsort` sorts by a comparison. An array shorter than 2 stays as it is.
sortentries :
    ((Entry → Entry → Sign) → List Entry → List Entry)
    → (List ℕ → List ℕ → Sign)
    → Flags
    → Bool
    → List Entry
    → List Entry
sortentries qsort strcoll fl nameonly ents =
    if ltb (length ents) 2 || (fl.f && not nameonly)
    then ents
    else qsort (entrycmp strcoll nameonly fl) ents

-- st_blocks * 512 rounded up to blocks of `blocksize`
pub blocks : ℕ → Entry → ℕ
blocks blocksize e = (add32 (e.st.blocks * 512) (blocksize - 1)) / blocksize

typechar : Kind → ℕ
typechar directory = b'd'
typechar symlink = b'l'
typechar block = b'b'
typechar char = b'c'
typechar fifo = b'p'
typechar socket = b's'
typechar regular = b'-'

abbrev pub letter : Bool → ℕ → ℕ
letter set c = if set then c else b'-'

-- The character for an x bit and the bit that shares its place.
abbrev pub exec_letter : Bool → Bool → ℕ → ℕ → ℕ
exec_letter special executable lower upper =
    if special then if executable then lower else upper else if executable then b'x' else b'-'

pub permstr : Mode → Bool → List ℕ
permstr m isdir =
    letter (m (read user)) b'r'
    ∷ letter (m (write user)) b'w'
    ∷ exec_letter (m suid) (m (exec user)) b's' b'S'
    ∷ letter (m (read group)) b'r'
    ∷ letter (m (write group)) b'w'
    ∷ exec_letter (m sgid) (m (exec group)) b's' b'S'
    ∷ letter (m (read other)) b'r'
    ∷ letter (m (write other)) b'w'
    ∷ exec_letter (isdir && m svtx) (m (exec other)) b't' b'T'
    ∷ []

-- isprint() in the C locale, and the loop of dispname for -q
abbrev isprint : ℕ → Bool
isprint c = leb 32 c && ltb c 127

shown : Bool → ℕ → ℕ
shown q c = if q && ((c == b'\t') || not (isprint c)) then b'?' else c

abbrev any_exec : Mode → Bool
any_exec m = m (exec user) || m (exec group) || m (exec other)

pub suffix : Flags → Stat → List ℕ
suffix fl st =
    if fl.upper_f
    then elim st.kind [
      | directory ↦ b'/' ∷ []
      | symlink ↦ b'@' ∷ []
      | fifo ↦ b'|' ∷ []
      | other_kind ↦ if any_exec st.mode then b'*' ∷ [] else []
    ]
    else if fl.p && is_directory st.kind
    then b'/' ∷ []
    else []

dispname : Flags → Entry → List ℕ
dispname fl e = map (shown fl.q) e.name ++ suffix fl e.st

abbrev pub blank : List ℕ
blank = b' ' ∷ []

abbrev pub newline : List ℕ
newline = b'\n' ∷ []

-- The index of the cell in a row and a column, and the size of the table.
pub cell_index : Bool → ℕ → ℕ → ℕ → ℕ → ℕ
cell_index by_row ncols nrows row col = if by_row then row * ncols + col else col * nrows + row

pub columns : ℕ → ℕ → ℕ
columns width maxw = let n : ℕ = width / (maxw + 2) in if ltb n 1 then 1 else n

pub rows : ℕ → ℕ → ℕ
rows n ncols = (n + ncols - 1) / ncols

-- The length of the longest cell.
max_width : List (List ℕ) → ℕ → ℕ
max_width [] maxw = maxw
max_width (c ∷ cells) maxw = max_width cells (if ltb maxw (length c) then length c else maxw)

-- `%-*s`
abbrev padded : ℕ → List ℕ → List ℕ
padded width c = c ++ replicate (width - length c) b' '

module _ (by_row : Bool) (ncols nrows maxw : ℕ) (cells : List (List ℕ)) where
  print_cell : ℕ → ℕ → List ℕ
  print_cell row col =
      let idx : ℕ = cell_index by_row ncols nrows row col in
      if leb (length cells) idx
      then []
      else if col == ncols - 1
      then get_or cells idx []
      else padded (maxw + 2) (get_or cells idx [])

  -- The loops over the columns and the rows, with the rounds that are left.
  print_row : ℕ → ℕ → ℕ → List ℕ
  print_row row zero col = newline
  print_row row (suc n) col = print_cell row col ++ print_row row n (col + 1)

  print_rows : ℕ → ℕ → List ℕ
  print_rows zero row = []
  print_rows (suc n) row = print_row row ncols 0 ++ print_rows n (row + 1)

-- The texts that come from the C library.
pub record Texts : Type 0 where
  pub number : ℕ → List ℕ
  pub date : ℕ → List ℕ
  pub owner : ℕ → Bool → List ℕ
  pub group_of : ℕ → Bool → List ℕ
  pub width : ℕ
  pub isatty : Bool

module _ (texts : Texts) (blocksize : ℕ) (fl : Flags) where
  -- The -i and -s columns.
  pub prefix : Entry → List ℕ
  prefix e =
      (if fl.i then texts.number e.st.ino ++ blank else [])
      ++ (if fl.s then texts.number (blocks blocksize e) ++ blank else [])

  cellname : Entry → List ℕ
  cellname e = prefix e ++ dispname fl e

  total512 : List Entry → ℕ → ℕ
  total512 [] total = total
  total512 (e ∷ ents) total = total512 ents (add32 total e.st.blocks)

  printtotal : List Entry → List ℕ
  printtotal ents =
      b't'
      ∷ b'o'
      ∷ b't'
      ∷ b'a'
      ∷ b'l'
      ∷ b' '
      ∷ (texts.number (add32 (total512 ents 0 * 512) (blocksize - 1) / blocksize) ++ newline)

  long_name : Entry → List ℕ
  long_name e = elim e.link [
    | none ↦ dispname fl e ++ newline
    | some to ↦ dispname fl e ++ (b' ' ∷ b'-' ∷ b'>' ∷ b' ' ∷ (to ++ newline))
  ]

  print_long : Entry → List ℕ
  print_long e =
      prefix e
      ++ ((typechar e.st.kind ∷ permstr e.st.mode (is_directory e.st.kind))
          ++ (blank
              ++ (texts.number e.st.nlink
                  ++ ((if fl.g then [] else blank ++ texts.owner e.st.uid fl.n)
                      ++ ((if fl.o then [] else blank ++ texts.group_of e.st.gid fl.n)
                          ++ (blank
                              ++ (texts.number e.st.size
                                  ++ (blank
                                      ++ (texts.date (entrytime fl e.st)
                                          ++ (blank ++ long_name e))))))))))

  printlong : List Entry → List ℕ
  printlong [] = []
  printlong (e ∷ ents) = print_long e ++ printlong ents

  printone : List Entry → List ℕ
  printone [] = []
  printone (e ∷ ents) = cellname e ++ (newline ++ printone ents)

  abbrev is_last : List Entry → Bool
  is_last [] = true
  is_last (e ∷ ents) = false

  print_stream : List Entry → ℕ → List ℕ
  print_stream [] col = newline
  print_stream (e ∷ ents) col =
      let c : List ℕ = cellname e in
      let tail_width : ℕ = if is_last ents then 0 else 2 in
      let breaks : Bool = ltb 0 col && ltb texts.width (col + length c + tail_width) in
      let col' : ℕ = (if breaks then 0 else col) + length c + tail_width in
      (if breaks then newline else [])
      ++ (c ++ ((if is_last ents then [] else b',' ∷ b' ' ∷ []) ++ print_stream ents col'))

  printcols : List Entry → Bool → List ℕ
  printcols ents by_row =
      let cells : List (List ℕ) = map cellname ents in
      let maxw : ℕ = max_width cells 0 in
      let ncols : ℕ = columns texts.width maxw in
      let nrows : ℕ = rows (length cells) ncols in print_rows by_row ncols nrows maxw cells nrows 0

  print_layout : Layout → List Entry → List ℕ
  print_layout long ents = printlong ents
  print_layout stream ents = print_stream ents 0
  print_layout cols ents = printcols ents false
  print_layout across ents = printcols ents true
  print_layout one ents = printone ents
  print_layout standard ents = if texts.isatty then printcols ents false else printone ents

  printentries : List Entry → Bool → List ℕ
  printentries [] withtotal = []
  printentries (e ∷ ents) withtotal =
      (if withtotal && (fl.l || fl.n || fl.g || fl.o || fl.s) then printtotal (e ∷ ents) else [])
      ++ print_layout fl.outfmt (e ∷ ents)
