-- ===== src/Cat/Operands.antt =====
-- cat over its operands, on files that stay as they are.
use mkrn.Prelude.{
  ℕ, ◌<◌, ◌≡◌, refl, ap, sym, ◌∙◌, ◌||◌, if_false, Bool, true, false, inl, inr, Option, none, some,
  List, [], ◌∷◌, ◌++◌, append_assoc, append-nil, length, done,
}
use mkrn.Path.{same_text}
use mkrn.Copy.{Streams, copied}
use mkrn.Copy.Loop.{AreStreams, copy_loop_lem}
use mkrn.Copy.Errors.{NeverFail, copy_loop_copied}
use mkrn.Cat.{copy_status, cat, cat_opened, cat_operand, cat_operands}

-- What open(), read(), write() and close() do for files of fixed contents: a file that can be
-- opened is read from its start, and the output gets what is written and nothing else.
pub record AreFiles (os : Streams) (open_file : List ℕ → os.World → Option ℕ × os.World)
    (close : ℕ → os.World → os.World) : Type 0 where
  pub file : List ℕ → Option (List ℕ)
  pub out : os.World → List ℕ
  pub streams : (fd : ℕ) → AreStreams os fd 1
  pub one_out : (fd : ℕ) (w : os.World) → (streams fd).out w ≡ out w
  pub opens :
      (path : List ℕ) (w : os.World) (fd : ℕ)
      → (open_file path w).0 ≡ some fd
      → file path ≡ some ((streams fd).rest (open_file path w).1)
  pub no_file : (path : List ℕ) (w : os.World) → (open_file path w).0 ≡ none → file path ≡ none
  pub open_out : (path : List ℕ) (w : os.World) → out (open_file path w).1 ≡ out w
  pub close_out : (fd : ℕ) (w : os.World) → out (close fd w) ≡ out w

-- The contents of a file, none where it cannot be opened.
abbrev bytes_of : Option (List ℕ) → List ℕ
bytes_of none = []
bytes_of (some s) = s

abbrev is_missing : Option (List ℕ) → Bool
is_missing none = true
is_missing (some s) = false

module _ (file : List ℕ → Option (List ℕ)) where
  abbrev pub contents : List (List ℕ) → List ℕ
  contents [] = []
  contents (path ∷ paths) = bytes_of (file path) ++ contents paths

  abbrev pub any_missing : List (List ℕ) → Bool
  any_missing [] = false
  any_missing (path ∷ paths) = is_missing (file path) || any_missing paths

or_false : (b : Bool) → (b || false) ≡ b
or_false true = refl
or_false false = refl

or_assoc : (a b c : Bool) → ((a || b) || c) ≡ (a || (b || c))
or_assoc true b c = refl
or_assoc false b c = refl

-- No operand is the name of the standard input, and each file has fewer bytes than there are
-- rounds.
abbrev pub AreNames : (List ℕ → Option (List ℕ)) → ℕ → List (List ℕ) → Type 0
AreNames file rounds [] = Unit
AreNames file rounds (path ∷ paths) =
    (same_text path (b'-' ∷ []) ≡ false)
    × (length (bytes_of (file path)) < rounds)
    × AreNames file rounds paths

module _ (os : Streams) (open_file : List ℕ → os.World → Option ℕ × os.World)
    (close : ℕ → os.World → os.World) (fs : AreFiles os open_file close)
    (sound : (fd : ℕ) → NeverFail os fd 1) (rounds : ℕ) where
  open os use {World}
  open fs use {file, out, streams, one_out, open_out, close_out}

  cat_lem :
      (fd : ℕ) (w : World)
      → length ((streams fd).rest w) < rounds
      → (v : World) × (cat os open_file close rounds fd w ≡ done (false, v))
        × (out v ≡ out w ++ (streams fd).rest w)
  unfolding cat copy_status
  cat_lem fd w l =
      let ((r, v), run, result) = copy_loop_lem os fd 1 (streams fd) rounds w l in
      let good : r ≡ copied = copy_loop_copied os fd 1 (sound fd) rounds w (r, v) run in
      elim result [
        | inr (bad, p, q, split, part) ↦ absurd (bad good)
        | inl (ok, all) ↦ (
          v,
          rw (run, good) refl,
          sym (one_out fd v) ∙ (all ∙ ap (λ o. o ++ (streams fd).rest w) (one_out fd w)),
        )
      ]

  cat_opened_lem :
      (path : List ℕ) (w : World) (o : Option ℕ × World)
      → length (bytes_of (file path)) < rounds
      → open_file path w ≡ o
      → (v : World) × (cat_opened os open_file close rounds o ≡ done (is_missing (file path), v))
        × (out v ≡ out w ++ bytes_of (file path))
  unfolding cat_opened
  cat_opened_lem path w (none, u) l e =
      let gone : file path ≡ none = fs.no_file path w (ap (λ (p : Option ℕ × World). p.0) e) in
      let same : out u ≡ out w = ap (λ (p : Option ℕ × World). out p.1) (sym e) ∙ open_out path w in
      (u, rw gone refl, rw gone (same ∙ sym (append-nil (out w))))
  cat_opened_lem path w (some fd, u) l e =
      let found : file path ≡ some ((streams fd).rest u) =
        fs.opens path w fd (ap (λ (p : Option ℕ × World). p.0) e)
        ∙ ap (λ (p : Option ℕ × World). some ((streams fd).rest p.1)) e in
      let same : out u ≡ out w = ap (λ (p : Option ℕ × World). out p.1) (sym e) ∙ open_out path w in
      let (v, run, all) = cat_lem fd u (rw found at l) in
      (
        close fd v,
        rw (run, found) refl,
        rw found (close_out fd v ∙ (all ∙ ap (λ o. o ++ (streams fd).rest u) same)),
      )

  cat_operand_lem :
      (path : List ℕ) (w : World)
      → same_text path (b'-' ∷ []) ≡ false
      → length (bytes_of (file path)) < rounds
      → (v : World) × (cat_operand os open_file close rounds path w
          ≡ done (is_missing (file path), v))
        × (out v ≡ out w ++ bytes_of (file path))
  unfolding cat_operand
  cat_operand_lem path w named l =
      let (v, run, all) = cat_opened_lem path w (open_file path w) l refl in
      (v, if_false _ _ _ named ∙ run, all)

  -- Where no call of read() or write() fails, cat of any number of files, each with fewer bytes
  -- than there are rounds, returns. It has written the contents of the files one behind the other,
  -- in the order of the operands and without those that cannot be opened, and its status is 1
  -- exactly if it was 1 before or one of them cannot be opened.
  pub cat_operands_lem :
      (paths : List (List ℕ)) (status : Bool) (w : World)
      → AreNames file rounds paths
      → (v : World) × (cat_operands os open_file close rounds paths status w
          ≡ done (status || any_missing file paths, v))
        × (out v ≡ out w ++ contents file paths)
  unfolding cat_operands
  cat_operands_lem [] status w names =
      (w, ap (λ b. done (b, w)) (sym (or_false status)), sym (append-nil (out w)))
  cat_operands_lem (path ∷ paths) status w (named, short, names) =
      let (u, run, all) = cat_operand_lem path w named short in
      let (v, run', all') = cat_operands_lem paths (status || is_missing (file path)) u names in
      (
        v,
        rw run (run' ∙ ap (λ b. done (b, v)) (or_assoc status _ _)),
        all'
            ∙ (ap (λ o. o ++ contents file paths) all
                ∙ append_assoc (out w) (bytes_of (file path)) (contents file paths)),
      )
