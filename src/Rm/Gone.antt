-- ===== src/Rm/Gone.antt =====
-- What an exit status of 0 says of rm where nobody is asked.
use mkrn.Prelude.{
  ℕ, suc, ◌≡◌, ◌⊎◌, inl, inr, refl, ◌∙◌, arith, ◌||◌, not, if_both, if_true, if_false, Bool,
  Bool-cases, true, false, Option, none, some, List, ◌∷◌, ◌++◌, Outcome, done,
}
use mkrn.Path.{slash}
use mkrn.Rm.{
  Flags, Os, State, isdotname, isroot, fail, agreed, after_call, rmtree, rm_dir, rm_file, must_ask,
  rm_kind, rm,
}
use mkrn.Rm.Below.{rmtree-Ends, rm-Ends}

-- What a call that succeeds has done.
pub record Removes (os : Os) : Type 0 where
  pub unlinked :
      (path : List ℕ) (w : os.World)
      → (os.unlink path w).0 ≡ true
      → os.lstat path (os.unlink path w).1 ≡ none
  pub removed :
      (path : List ℕ) (w : os.World)
      → (os.rmdir path w).0 ≡ true
      → os.lstat path (os.rmdir path w).1 ≡ none

-- No -i, and -f or no terminal.
abbrev IsQuiet : Flags → Os → Type 0
IsQuiet fl os = (fl.iflag ≡ false) × ((fl.fflag ≡ true) ⊎ ((w : os.World) → os.isatty w ≡ false))

module _ (os : Os) (removes : Removes os) (fl : Flags) (quiet : IsQuiet fl os) where
  open os use {World, path_max, lstat, isatty, access, unlink, rmdir}

  never_asks : (path : List ℕ) (w : World) → must_ask os fl path w ≡ false
  unfolding must_ask
  never_asks path w = elim quiet.1 [
    | inl f ↦ ground (arith, f)
    | inr no_tty ↦ ground (arith, no_tty w, quiet.0)
  ]

  abbrev pub Gone : List ℕ → State World → Type 0
  Gone path t = (t.status ≡ true) ⊎ (lstat path t.world ≡ none)

  after_call-Gone :
      (path : List ℕ) (r : Bool × World) (s : State World)
      → (r.0 ≡ true → lstat path r.1 ≡ none)
      → Gone path (after_call os r s)
  after_call-Gone path (true, w) s h = inr (h refl)
  after_call-Gone path (false, w) s h = inl (ground arith)

  rm_dir-Gone : (path : List ℕ) (s : State World) → Gone path (rm_dir os fl path s)
  unfolding rm_dir agreed
  rm_dir-Gone path s =
      rw quiet.0 (after_call-Gone path (rmdir path s.world) s (removes.removed path s.world))

  rm_file-Gone : (path : List ℕ) (s : State World) → Gone path (rm_file os false path s)
  unfolding rm_file agreed
  rm_file-Gone path s = after_call-Gone path (unlink path s.world) s (removes.unlinked path s.world)

  -- The outcome is a state with this in it.
  abbrev Clears : List ℕ → Outcome (State World) → Type 0
  Clears path r = (t : State World) × (r ≡ done t) × Gone path t

  rm_kind-Clears :
      (remove : List ℕ → State World → Outcome (State World)) (path : List ℕ) (o : Option Bool)
      (s : State World)
      → lstat path s.world ≡ o
      → ((v : State World) → (t : State World) × (rmtree os remove path v ≡ done t))
      → Clears path (rm_kind os remove fl path o s)
  unfolding rm_kind agreed
  rm_kind-Clears remove path none s e tree = elim (Bool-cases fl.fflag) [
    | inl y ↦ rw y (s, refl, inr e)
    | inr y ↦ rw y (fail os s, refl, inl refl)
  ]
  rm_kind-Clears remove path (some false) s e tree =
      rw (never_asks path s.world) (rm_file os false path s, refl, rm_file-Gone path s)
  rm_kind-Clears remove path (some true) s e tree =
      let (t, go) = tree s in
      rw (never_asks path s.world, go)
        (if_both (Clears path) (not fl.rflag) _ _ (fail os s, refl, inl refl)
          (rm_dir os fl path t, refl, rm_dir-Gone path t))

  tree_returns :
      (path : List ℕ) (v : State World)
      → (t : State World) × (rmtree os (λ child u. rm os path_max fl child u) path v ≡ done t)
  tree_returns path v =
      let (t, go, _) =
        rmtree-Ends os (λ w. Unit {0}) (λ child u. rm os path_max fl child u) path
          (λ name u short q.
            rm-Ends os (λ w. Unit {0}) fl path_max (path ++ (slash ∷ name)) u (omega (arith, short))
              (omega arith) (λ r w b d h. (tt, tt)) tt)
          v tt in
      (t, go)

  -- Where the system calls remove what they say, with no -i, and with -f or without a terminal, rm
  -- returns, and then its exit status is 1 or the operand does not exist any more.
  pub rm_gone :
      (path : List ℕ) (s : State World)
      → (t : State World) × (rm os (suc path_max) fl path s ≡ done t)
        × ((t.status ≡ true) ⊎ (lstat path t.world ≡ none))
  unfolding rm
  rm_gone path s = elim (Bool-cases (isdotname path || isroot os path s.world)) [
    | inl y ↦ (fail os s, if_true _ _ _ y, inl refl)
    | inr y ↦
        let remove : List ℕ → State World → Outcome (State World) =
          λ child t. rm os path_max fl child t in
        let (t, go, gone) =
          rm_kind-Clears remove path (lstat path s.world) s refl (λ v. tree_returns path v) in
        (t, if_false _ _ _ y ∙ go, gone)
  ]
