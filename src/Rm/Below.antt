-- ===== src/Rm/Below.antt =====
-- rm returns, and removes nothing but its operand and what stands below it.
use mkrn.Prelude.{
  ℕ, zero, suc, ◌+◌, ◌≤◌, ◌<◌, ltb, ltb→lt, ◌≡◌, ◌⊎◌, inl, inr, refl, ◌∙◌, arith, not,
  if◌then◌else◌, if_both, Bool, Bool-cases, true, false, Option, Option-cases, none, some, List, [],
  ◌∷◌, ◌++◌, append_assoc, length, length-append, Outcome, done,
}
use mkrn.Path.{slash}
use mkrn.Rm.Dots.{EndsInDots, no_dots}
use mkrn.Rm.{
  Flags, Os, State, is_dot, isdotname, isroot, fail, agreed, rm_entries, rmtree, rm_dir, rm_file,
  must_ask, rm_kind, rm,
}

-- `q` is the path, or the path with a slash and more behind it.
abbrev IsBelow : List ℕ → List ℕ → Type 0
IsBelow path q = (q ≡ path) ⊎ ((more : List ℕ) × (q ≡ path ++ (slash ∷ more)))

IsBelow-trans : (path name q : List ℕ) → IsBelow (path ++ (slash ∷ name)) q → IsBelow path q
IsBelow-trans path name q (inl e) = inr (name, e)
IsBelow-trans path name q (inr (more, e)) =
    inr (name ++ (slash ∷ more), e ∙ append_assoc path (slash ∷ name) (slash ∷ more))

module _ (os : Os) (P : os.World → Type 0) where
  open os use {World, path_max, realpath, lstat, access, isatty, opendir, unlink, rmdir}

  -- `P` survives the removal of everything at the path or below it, except of a path that is dot or
  -- dot-dot or ends in one of them behind a slash.
  abbrev pub Survives : List ℕ → Type 0
  Survives path =
      (q : List ℕ) (w : World)
      → IsBelow path q
      → ¬ (EndsInDots q)
      → P w
      → P (unlink q w).1 × P (rmdir q w).1

  -- The outcome is a state in which `P` holds.
  abbrev Ends : Outcome (State World) → Type 0
  Ends r = (t : State World) × (r ≡ done t) × P t.world

  rm_entries-Ends :
      (remove : List ℕ → State World → Outcome (State World)) (path : List ℕ)
      → ((name : List ℕ) (t : State World)
          → length (path ++ (slash ∷ name)) < path_max
          → P t.world
          → Ends (remove (path ++ (slash ∷ name)) t))
      → (names : List (List ℕ)) (s : State World) → P s.world
      → Ends (rm_entries os remove path names s)
  unfolding rm_entries
  rm_entries-Ends remove path each [] s p = (s, refl, p)
  rm_entries-Ends remove path each (name ∷ names) s p = elim (Bool-cases (is_dot name)) [
    | inl y ↦ rw y (rm_entries-Ends remove path each names s p)
    | inr y ↦
        let child : List ℕ = path ++ (slash ∷ name) in
        elim (Bool-cases (ltb (length child) path_max)) [
          | inl z ↦
              let (t, e, q) = each name s (ltb→lt (length child) path_max z) p in
              rw (y, z, e) (rm_entries-Ends remove path each names t q)
          | inr z ↦ rw (y, z) (rm_entries-Ends remove path each names (fail os s) p)
        ]
  ]

  pub rmtree-Ends :
      (remove : List ℕ → State World → Outcome (State World)) (path : List ℕ)
      → ((name : List ℕ) (t : State World)
          → length (path ++ (slash ∷ name)) < path_max
          → P t.world
          → Ends (remove (path ++ (slash ∷ name)) t))
      → (s : State World) → P s.world
      → Ends (rmtree os remove path s)
  unfolding rmtree
  rmtree-Ends remove path each s p = elim (Option-cases (opendir path s.world)) [
    | inl n ↦ rw (n, rmtree) (fail os s, refl, p)
    | inr (names, e) ↦ rw (e, rmtree) (rm_entries-Ends remove path each names s p)
  ]

  agreed-world : (ask : Bool) (s : State World) → (agreed os ask s).1.world ≡ s.world
  unfolding agreed
  agreed-world true s = refl
  agreed-world false s = refl

  -- The two ends of rm take away the operand itself.
  rm_dir_keeps :
      (fl : Flags) (path : List ℕ) (s : State World)
      → Survives path
      → isdotname path ≡ false
      → P s.world
      → P (rm_dir os fl path s).world
  unfolding rm_dir
  rm_dir_keeps fl path s survives dot p =
      let p' : P (agreed os fl.iflag s).1.world = rw (agreed-world fl.iflag s) p in
      if_both (λ (t : State World). P t.world) (agreed os fl.iflag s).0 _ _
        (survives path (agreed os fl.iflag s).1.world (inl refl) (no_dots path dot) p').1 p'

  rm_file_keeps :
      (ask : Bool) (path : List ℕ) (s : State World)
      → Survives path
      → isdotname path ≡ false
      → P s.world
      → P (rm_file os ask path s).world
  unfolding rm_file
  rm_file_keeps ask path s survives dot p =
      let p' : P (agreed os ask s).1.world = rw (agreed-world ask s) p in
      if_both (λ (t : State World). P t.world) (agreed os ask s).0 _ _
        (survives path (agreed os ask s).1.world (inl refl) (no_dots path dot) p').0 p'

  rm_kind-Ends :
      (remove : List ℕ → State World → Outcome (State World)) (fl : Flags) (path : List ℕ)
      (o : Option Bool) (s : State World)
      → ((name : List ℕ) (t : State World)
          → length (path ++ (slash ∷ name)) < path_max
          → P t.world
          → Ends (remove (path ++ (slash ∷ name)) t))
      → Survives path
      → isdotname path ≡ false
      → P s.world
      → Ends (rm_kind os remove fl path o s)
  unfolding rm_kind
  rm_kind-Ends remove fl path none s each survives dot p = (
    (if fl.fflag then s else fail os s),
    refl,
    if_both (λ (t : State World). P t.world) fl.fflag s (fail os s) p p,
  )
  rm_kind-Ends remove fl path (some false) s each survives dot p =
      let ask : Bool = must_ask os fl path s.world in
      (rm_file os ask path s, refl, rm_file_keeps ask path s survives dot p)
  rm_kind-Ends remove fl path (some true) s each survives dot p =
      let ask : Bool = must_ask os fl path s.world in
      let p' : P (agreed os ask s).1.world = rw (agreed-world ask s) p in
      let (t, e, q) = rmtree-Ends remove path each (agreed os ask s).1 p' in
      if_both Ends (not fl.rflag) _ _ (fail os s, refl, p)
        (if_both Ends (agreed os ask s).0 _ _
          (rw e (rm_dir os fl path t, refl, rm_dir_keeps fl path t survives dot q))
          ((agreed os ask s).1, refl, p'))

  pub rm-Ends :
      (fl : Flags) (fuel : ℕ) (path : List ℕ) (s : State World)
      → 0 < fuel
      → path_max ≤ length path + fuel
      → Survives path
      → P s.world
      → Ends (rm os fuel fl path s)
  unfolding rm
  rm-Ends fl zero path s l m survives p = absurd (omega arith)
  rm-Ends fl (suc fuel) path s l m survives p = elim (Bool-cases (isdotname path)) [
    | inl y ↦ rw y (fail os s, refl, p)
    | inr dot ↦
        let each : (name : List ℕ) (t : State World)
            → length (path ++ (slash ∷ name)) < path_max
            → P t.world
            → Ends (rm os fuel fl (path ++ (slash ∷ name)) t) =
          λ name t short q.
            let longer = length-append path (slash ∷ name) in
            rm-Ends fl fuel (path ++ (slash ∷ name)) t (omega (arith, short, m, longer))
              (omega (arith, m, longer))
              (λ r w b d h. survives r w (IsBelow-trans path name r b) d h) q in
        rw dot (
          if_both Ends (isroot os path s.world) _ _ (fail os s, refl, p)
            (rm_kind-Ends (λ child t. rm os fuel fl child t) fl path (lstat path s.world) s each
              survives dot p))
  ]

  -- rm returns for every operand, directory trees of any depth included, within calls as deep as
  -- PATH_MAX. It removes only the operand and paths below it, and none that is dot or dot-dot or
  -- ends in a slash with dot or dot-dot; of a path with another slash behind the dots, as ../, this
  -- is not said. Whatever survives each such removal holds after rm if it held before.
  pub rm_lem :
      (fl : Flags) (path : List ℕ) (s : State World)
      → Survives path
      → P s.world
      → (t : State World) × (rm os (suc path_max) fl path s ≡ done t) × P t.world
  rm_lem fl path s survives p =
      rm-Ends fl (suc path_max) path s (omega arith) (omega arith) survives p
