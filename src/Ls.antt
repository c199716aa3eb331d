-- ===== src/Ls.antt =====
-- src/bin/ls/ls.c, over a file system that stays as it is while ls runs. A path is the list of its
-- characters; what is written to stderr is left out, and an array that grows is a list.
pub mod Stack
pub mod Descent
pub mod Format
pub mod Tests
use mkrn.Prelude.{
  ℕ, zero, suc, ◌+◌, ◌==◌, ltb, ◌&&◌, ◌||◌, not, if◌then◌else◌, Bool, true, false, Option, none,
  some, List, [], ◌∷◌, ◌++◌, length, get_or, Outcome, done, out_of_fuel, ◌>>=◌,
}
use mkrn.FileMode.{Mode, Kind, is_directory, symlink}
use mkrn.Path.{slash, take, same_text, trim_slashes}

pub record Stat : Type 0 where
  pub kind : Kind
  pub mode : Mode
  pub dev : ℕ
  pub ino : ℕ
  pub nlink : ℕ
  pub uid : ℕ
  pub gid : ℕ
  pub size : ℕ
  pub blocks : ℕ
  pub mtime : ℕ
  pub ctime : ℕ
  pub atime : ℕ

pub record Entry : Type 0 where
  pub name : List ℕ
  pub path : List ℕ
  pub st : Stat
  pub link : Option (List ℕ)

pub data Time : Type 0 where
  by_mtime by_ctime by_atime : Time

pub data Layout : Type 0 where
  standard cols across stream long one : Layout

-- The flags of the options, with `upper_` where the option is a capital letter.
pub record Flags : Type 0 where
  pub upper_a : Bool
  pub upper_f : Bool
  pub upper_h : Bool
  pub upper_l : Bool
  pub upper_r : Bool
  pub upper_s : Bool
  pub a : Bool
  pub d : Bool
  pub f : Bool
  pub g : Bool
  pub i : Bool
  pub k : Bool
  pub l : Bool
  pub n : Bool
  pub o : Bool
  pub p : Bool
  pub q : Bool
  pub r : Bool
  pub s : Bool
  pub t : Bool
  pub outfmt : Layout
  pub timesel : Time

pub joinpath : List ℕ → List ℕ → List ℕ
joinpath dir name = take (trim_slashes 1 dir (length dir)) dir ++ (slash ∷ name)

pub followsym : Flags → ℕ → Bool
followsym fl depth =
    if fl.upper_l
    then true
    else if depth == 0
    then fl.upper_h || not (fl.d || fl.upper_f || fl.l || fl.n || fl.g || fl.o)
    else false

pub entrytime : Flags → Stat → ℕ
entrytime fl st = elim fl.timesel [
  | by_mtime ↦ st.mtime
  | by_ctime ↦ st.ctime
  | by_atime ↦ st.atime
]

-- struct visited, and the stack with its last element first
abbrev pub Key : Type 0
Key = ℕ × ℕ

abbrev pub same_key : Key → Key → Bool
same_key (d, i) (e, j) = (d == e) && (i == j)

unfoldable pub seen : Key → List Key → Bool
seen k [] = false
seen k (j ∷ stack) = same_key k j || seen k stack

pub pushvisit : Key → List Key → Option (List Key)
pushvisit k stack = if seen k stack then none else some (k ∷ stack)

pub popvisit : List Key → List Key
popvisit [] = []
popvisit (k ∷ stack) = stack

abbrev pub is_dot : List ℕ → Bool
is_dot name = same_text name (b'.' ∷ []) || same_text name (b'.' ∷ b'.' ∷ [])

-- The test of listdir on a name: whether it is left out.
pub left_out : Flags → List ℕ → Bool
left_out fl name =
    if is_dot name then not fl.a else (get_or name 0 0 == b'.') && not (fl.a || fl.upper_a)

pub record Files : Type 0 where
  pub stat : List ℕ → Option Stat
  pub lstat : List ℕ → Option Stat
  pub readlink : List ℕ → Option (List ℕ)
  pub opendir : List ℕ → Option (List (List ℕ))

-- What is written to stdout, `status`, `first` and the stack.
pub record State : Type 0 where
  pub out : List ℕ
  pub status : Bool
  pub first : Bool
  pub stack : List Key

abbrev pub warn : State → State
warn s = record s { status = true }

pub header : List ℕ → State → State
header label s = record s {
  out = s.out ++ ((if s.first then [] else b'\n' ∷ []) ++ (label ++ (b':' ∷ b'\n' ∷ [])));
  first = false;
}

-- `sort` is sortentries and `display` what printentries writes.
module _ (fs : Files) (fl : Flags) (sort : Bool → List Entry → List Entry)
    (display : List Entry → Bool → List ℕ) where
  is_symlink : Kind → Bool
  is_symlink symlink = true
  is_symlink _ = false

  pub entry_of : List ℕ → List ℕ → Option Stat → Option Entry
  entry_of name path none = none
  entry_of name path (some st) = some (record {
    name = name;
    path = path;
    st = st;
    link = if is_symlink st.kind then fs.readlink path else none;
  })

  -- `dir` is `none` for NULL.
  pub makeentry : Option (List ℕ) → List ℕ → ℕ → Option Entry
  makeentry dir name depth =
      let path : List ℕ = elim dir [ none ↦ name | some d ↦ joinpath d name ] in
      entry_of name path (if followsym fl depth then fs.stat path else fs.lstat path)

  -- The loop over the names that readdir() gives.
  abbrev pub add_entry : Option Entry → List Entry × State → List Entry × State
  add_entry none (ents, s) = (ents, warn s)
  add_entry (some e) (ents, s) = (e ∷ ents, s)

  pub read_entries : List ℕ → ℕ → List (List ℕ) → State → List Entry × State
  read_entries path depth [] s = ([], s)
  read_entries path depth (name ∷ names) s =
      let rest : List Entry × State = read_entries path depth names s in
      if left_out fl name then rest else add_entry (makeentry (some path) name depth) rest

  abbrev enter : Outcome State → (List Key → Outcome State) → Option (List Key) → Outcome State
  enter looped entered none = looped
  enter looped entered (some stack) = entered stack

  -- The loop of listdir for -R, where `go` is the call of listdir.
  pub descend : (List ℕ → State → Outcome State) → List Entry → State → Outcome State
  descend go [] s = done s
  descend go (e ∷ ents) s =
      let skipped : Outcome State = descend go ents s in
      let looped : Outcome State = descend go ents (warn s) in
      let entered = λ (stack : List Key).
        go e.path (record s { stack = stack })
        >>= (λ t. descend go ents (record t { stack = popvisit t.stack })) in
      if is_dot e.name || not (is_directory e.st.kind)
      then skipped
      else enter looped entered (pushvisit (e.st.dev, e.st.ino) s.stack)

  -- The rest of listdir, behind opendir().
  pub list_names :
      (List ℕ → State → Outcome State)
      → List ℕ
      → List ℕ
      → ℕ
      → Bool
      → Option (List (List ℕ))
      → State
      → Outcome State
  list_names go path label depth wantheader none s = done (warn s)
  list_names go path label depth wantheader (some names) s =
      let (ents, t) =
        read_entries path (depth + 1) names (if wantheader then header label s else s) in
      let sorted : List Entry = sort false ents in
      let u : State = record t { out = t.out ++ display sorted true } in
      if fl.upper_r then descend go sorted u else done u

  -- listdir, with the depth of its calls bounded by fuel.
  pub listdir : ℕ → List ℕ → List ℕ → ℕ → Bool → State → Outcome State
  listdir zero path label depth wantheader s = out_of_fuel
  listdir (suc fuel) path label depth wantheader s =
      list_names (λ p v. listdir fuel p p (depth + 1) true v) path label depth wantheader
        (fs.opendir path) s

  -- main behind the options: the operands that are files, and those that are directories.
  split_operands : List (List ℕ) → State → List Entry × List Entry × State
  split_operands [] s = ([], [], s)
  split_operands (name ∷ names) s = elim (makeentry none name 0) [
    | none ↦ let (plain, dirs, t) = split_operands names s in (plain, dirs, warn t)
    | some e ↦
        let (plain, dirs, t) = split_operands names s in
        if not fl.d && is_directory e.st.kind then (plain, e ∷ dirs, t) else (e ∷ plain, dirs, t)
  ]

  -- The last loop of main.
  list_dirs : ℕ → Bool → List Entry → State → Outcome State
  list_dirs fuel topheader [] s = done s
  list_dirs fuel topheader (e ∷ dirs) s = do
    t ← listdir fuel e.path e.name 0 topheader (record s {
      stack = elim (pushvisit (e.st.dev, e.st.ino) s.stack) [ none ↦ s.stack | some stack ↦ stack ];
    })
    list_dirs fuel topheader dirs (record t { stack = popvisit t.stack })

  list_operands : ℕ → List (List ℕ) → State → Outcome State
  list_operands fuel names s =
      let (plain, dirs, t) = split_operands names s in
      let some_plain : Bool = not (length plain == 0) in
      let u : State =
        if some_plain
        then record t { out = t.out ++ display (sort true plain) false; first = false }
        else t in
      list_dirs fuel (ltb 1 (length dirs + (if some_plain then 1 else 0))) (sort true dirs) u
