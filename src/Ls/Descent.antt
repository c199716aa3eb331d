-- ===== src/Ls/Descent.antt =====
-- listdir returns, since it does not enter a directory that stands on the stack.
use mkrn.Prelude.{
  ℕ, zero, suc, ◌+◌, ◌<◌, ◌≡◌, inl, inr, refl, ap, sym, ◌∙◌, arith, ◌||◌, not, if◌then◌else◌,
  if_true, if_false, if_both, Bool, Bool-cases, true, false, Option, none, some, List, [], ◌∷◌,
  ◌++◌, length, Outcome, done, ◌>>=◌,
}
use mkrn.FileMode.{is_directory}
use mkrn.Ls.{
  Stat, Entry, Flags, joinpath, followsym, Key, seen, popvisit, is_dot, left_out, Files, State,
  warn, header, entry_of, makeentry, add_entry, read_entries, descend, list_names, listdir,
}
use mkrn.Ls.Stack.{All, AreDistinct, AreAmong, pigeonhole, popvisit_lem, pushvisit_cases}

module _ (fs : Files) (fl : Flags) (sort : Bool → List Entry → List Entry)
    (display : List Entry → Bool → List ℕ) (dirs : List Key) where
  -- `dirs` has every directory that a path leads to.
  abbrev pub HasDir : Option Stat → Type 0
  HasDir none = Unit {0}
  HasDir (some st) = is_directory st.kind ≡ true → seen (st.dev, st.ino) dirs ≡ true

  -- The same for an entry.
  abbrev IsKnown : Entry → Type 0
  IsKnown e = is_directory e.st.kind ≡ true → seen (e.st.dev, e.st.ino) dirs ≡ true

  -- A call that returns, with the stack that it found.
  abbrev pub Returns : List Key → Outcome State → Type 0
  Returns stack r = (t : State) × (r ≡ done t) × (t.stack ≡ stack)

  descend-Returns :
      (go : List ℕ → State → Outcome State) (stack : List Key)
      → AreDistinct stack
      → AreAmong dirs stack
      → ((p : List ℕ) (k : Key) (v : State)
          → v.stack ≡ k ∷ stack
          → AreDistinct (k ∷ stack)
          → AreAmong dirs (k ∷ stack)
          → Returns (k ∷ stack) (go p v))
      → (ents : List Entry) (s : State) → s.stack ≡ stack
      → All IsKnown ents
      → Returns stack (descend fs fl sort display go ents s)
  unfolding descend
  descend-Returns go stack d a each [] s same known = (s, refl, same)
  descend-Returns go stack d a each (e ∷ ents) s same known =
      elim (Bool-cases (is_dot e.name || not (is_directory e.st.kind))) [
        | inl y ↦
            let (t, r, q) = descend-Returns go stack d a each ents s same known.1 in
            (t, if_true (is_dot e.name || not (is_directory e.st.kind)) _ _ y ∙ r, q)
        | inr y ↦
            let k : Key = (e.st.dev, e.st.ino) in
            elim (pushvisit_cases k s.stack) [
              | inl n ↦
                  let (t, r, q) = descend-Returns go stack d a each ents (warn s) same known.1 in
                  (t, if_false (is_dot e.name || not (is_directory e.st.kind)) _ _ y ∙ rw n r, q)
              | inr (p, new) ↦
                  let inner =
                    each e.path k (record s { stack = k ∷ s.stack }) (ap (λ t. k ∷ t) same)
                      (sym (ap (seen k) same) ∙ new, d) (known.0 (ground (arith, y)), a) in
                  let (u, r, q) = inner in
                  let (t, r', q') =
                    descend-Returns go stack d a each ents (record u { stack = popvisit u.stack })
                      (ap popvisit q ∙ popvisit_lem k stack) known.1 in
                  (
                    t,
                    if_false (is_dot e.name || not (is_directory e.st.kind)) _ _ y
                        ∙ rw p (
                            ap
                              (λ o. o >>= (λ (v : State).
                                descend fs fl sort display go ents
                                  (record v { stack = popvisit v.stack })))
                              r
                            ∙ r'),
                    q',
                  )
            ]
      ]

  module _ (stats : (path : List ℕ) → HasDir (fs.stat path))
      (lstats : (path : List ℕ) → HasDir (fs.lstat path))
      (sorts : (nameonly : Bool) (ents : List Entry)
        → All IsKnown ents
        → All IsKnown (sort nameonly ents)) where
    -- The same for an entry that may be missing.
    abbrev MayKnown : Option Entry → Type 0
    MayKnown none = Unit {0}
    MayKnown (some e) = IsKnown e

    entry_of-MayKnown :
        (name path : List ℕ) (o : Option Stat)
        → HasDir o
        → MayKnown (entry_of fs fl sort display name path o)
    unfolding entry_of
    entry_of-MayKnown name path none h = tt
    entry_of-MayKnown name path (some st) h = h

    makeentry-MayKnown :
        (dir : Option (List ℕ)) (name : List ℕ) (depth : ℕ)
        → MayKnown (makeentry fs fl sort display dir name depth)
    unfolding makeentry
    makeentry-MayKnown none name depth =
        entry_of-MayKnown name name _
          (if_both HasDir (followsym fl depth) _ _ (stats name) (lstats name))
    makeentry-MayKnown (some d) name depth = entry_of-MayKnown name (joinpath d name) _ (
        if_both HasDir (followsym fl depth) _ _ (stats (joinpath d name))
          (lstats (joinpath d name)))

    -- Entries of known directories, over a stack that has not changed.
    abbrev Lists : State → List Entry × State → Type 0
    Lists s r = All IsKnown r.0 × (r.1.stack ≡ s.stack)

    add_entry-Lists :
        (s : State) (o : Option Entry) (r : List Entry × State)
        → MayKnown o
        → Lists s r
        → Lists s (add_entry fs fl sort display o r)
    add_entry-Lists s none (ents, t) k h = h
    add_entry-Lists s (some e) (ents, t) k h = ((k, h.0), h.1)

    read_entries-Lists :
        (path : List ℕ) (depth : ℕ) (names : List (List ℕ)) (s : State)
        → Lists s (read_entries fs fl sort display path depth names s)
    unfolding read_entries
    read_entries-Lists path depth [] s = (tt, refl)
    read_entries-Lists path depth (name ∷ names) s =
        let rest = read_entries-Lists path depth names s in
        if_both (Lists s) (left_out fl name) _ _ rest (
          add_entry-Lists s (makeentry fs fl sort display (some path) name depth) _
            (makeentry-MayKnown (some path) name depth) rest)

    header-stack :
        (b : Bool) (label : List ℕ) (s : State) → (if b then header label s else s).stack ≡ s.stack
    unfolding header
    header-stack true label s = refl
    header-stack false label s = refl

    list_names-Returns :
        (go : List ℕ → State → Outcome State) (path label : List ℕ) (depth : ℕ) (wantheader : Bool)
        (o : Option (List (List ℕ))) (stack : List Key) (s : State)
        → s.stack ≡ stack
        → AreDistinct stack
        → AreAmong dirs stack
        → ((p : List ℕ) (k : Key) (v : State)
            → v.stack ≡ k ∷ stack
            → AreDistinct (k ∷ stack)
            → AreAmong dirs (k ∷ stack)
            → Returns (k ∷ stack) (go p v))
        → Returns stack (list_names fs fl sort display go path label depth wantheader o s)
    unfolding list_names
    list_names-Returns go path label depth wantheader none stack s same d a each =
        (warn s, refl, same)
    list_names-Returns go path label depth wantheader (some names) stack s same d a each =
        let s' : State = if wantheader then header label s else s in
        let r : List Entry × State = read_entries fs fl sort display path (depth + 1) names s' in
        let (known, kept) = read_entries-Lists path (depth + 1) names s' in
        let u : State = record r.1 { out = r.1.out ++ display (sort false r.0) true } in
        let same' : u.stack ≡ stack = kept ∙ header-stack wantheader label s ∙ same in
        if_both (Returns stack) fl.upper_r _ _
          (descend-Returns go stack d a each (sort false r.0) u same' (sorts false r.0 known))
          (u, refl, same')

    -- listdir returns, whatever links and loops there are between the directories, with -R and with
    -- -L: where `dirs` has every directory that stat() or lstat() gives, its calls are no deeper than
    -- the directories of that list that are not on the stack yet. The stack is as before the call.
    pub listdir-Returns :
        (fuel : ℕ) (path label : List ℕ) (depth : ℕ) (wantheader : Bool) (stack : List Key)
        (s : State)
        → s.stack ≡ stack
        → length dirs < length stack + fuel
        → AreDistinct stack
        → AreAmong dirs stack
        → Returns stack (listdir fs fl sort display fuel path label depth wantheader s)
    unfolding listdir
    listdir-Returns zero path label depth wantheader stack s same l d a =
        absurd (omega (arith, l, pigeonhole stack dirs d a))
    listdir-Returns (suc fuel) path label depth wantheader stack s same l d a =
        list_names-Returns (λ p v. listdir fs fl sort display fuel p p (depth + 1) true v) path
          label depth wantheader (fs.opendir path) stack s same d a
          λ p k v e d' a'.
            listdir-Returns fuel p p (depth + 1) true (k ∷ stack) v e (omega (arith, l)) d' a'
