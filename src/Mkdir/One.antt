-- ===== src/Mkdir/One.antt =====
-- mkone over any file system that behaves as POSIX says.
use mkrn.Prelude.{
  ℕ, ◌≡◌, ◌≢◌, ◌⊎◌, inl, inr, refl, ap, sym, ◌∙◌, not, if_both, if_true, Bool, Bool-cases, true,
  false, Option, none, some, List,
}
use mkrn.FileMode.{Bit, Mode, all_access, same_mode, same_mode_sound}
use mkrn.Mkdir.{
  Made, made, exists, failed, Stat, Os, set_mode, made_dir, existing, mkone_after, mkone, usable,
}

-- What mkone relies on. `IsDir` says which paths lead to a directory.
pub record IsPosix (os : Os) (IsDir : List ℕ → os.World → Type 0) : Type 0 where
  pub made_dir :
      (path : List ℕ) (m : Mode) (w : os.World)
      → (os.mkdir path m w).0 ≡ made
      → IsDir path (os.mkdir path m w).1
  pub mkdir_keeps :
      (path : List ℕ) (m : Mode) (w : os.World) (q : List ℕ)
      → IsDir q w
      → IsDir q (os.mkdir path m w).1
  pub mkdir_failed :
      (path : List ℕ) (m : Mode) (w : os.World)
      → (os.mkdir path m w).0 ≢ made
      → (os.mkdir path m w).1 ≡ w
  pub chmod_keeps :
      (path : List ℕ) (m : Mode) (w : os.World) (q : List ℕ)
      → IsDir q w
      → IsDir q (os.chmod path m w).1
  pub chmod_sets :
      (path : List ℕ) (m : Mode) (w : os.World)
      → (os.chmod path m w).0 ≡ true
      → (st : Stat) × (os.stat path (os.chmod path m w).1 ≡ some st) × ((b : Bit) → st.mode b ≡ m b)
  pub stat_dir :
      (path : List ℕ) (w : os.World) {st : Stat}
      → os.stat path w ≡ some st
      → st.is_dir ≡ true
      → IsDir path w

Made-cases : (r : Made) → (r ≡ made) ⊎ (r ≢ made)
Made-cases made = inl refl
Made-cases exists = inr (λ e. cc e)
Made-cases failed = inr (λ e. cc e)

module _ (os : Os) (IsDir : List ℕ → os.World → Type 0) (posix : IsPosix os IsDir) where
  open os use {World, mkdir, stat, chmod}

  set_mode_keeps :
      (path : List ℕ) (isfinal : Bool) (m : Option Mode) (st : Stat) (w : World) (q : List ℕ)
      → IsDir q w
      → IsDir q (set_mode os path isfinal m st w).1
  unfolding set_mode
  set_mode_keeps path true none st w q h = h
  set_mode_keeps path true (some m) st w q h =
      if_both (λ (r : Bool × World). IsDir q r.1) (not (same_mode st.mode m)) _ _
        (posix.chmod_keeps path m w q h) h
  set_mode_keeps path false m st w q h =
      if_both (λ (r : Bool × World). IsDir q r.1) _ _ _
        (posix.chmod_keeps path (usable st.mode) w q h) h

  mkone_after_keeps :
      (path : List ℕ) (isfinal ignore : Bool) (m : Option Mode) (r : Made × World) (q : List ℕ)
      → IsDir q r.1
      → IsDir q (mkone_after os path isfinal ignore m r).1
  unfolding mkone_after
  mkone_after_keeps path isfinal ignore m (made, w) q h = by_stat (stat path w)
    where
      by_stat : (o : Option Stat) → IsDir q (made_dir os path isfinal m o w).1
      by_stat none = unfold made_dir in h
      by_stat (some st) = unfold made_dir in set_mode_keeps path isfinal m st w q h
  mkone_after_keeps path isfinal ignore m (exists, w) q h = by_stat (stat path w)
    where
      by_stat : (o : Option Stat) → IsDir q (existing os ignore o w).1
      by_stat none = unfold existing in h
      by_stat (some st) = unfold existing in h
  mkone_after_keeps path isfinal ignore m (failed, w) q h = h

  -- mkone makes no directory go away.
  pub mkone_keeps :
      (path : List ℕ) (isfinal ignore : Bool) (m : Option Mode) (w : World) (q : List ℕ)
      → IsDir q w
      → IsDir q (mkone os path isfinal ignore m w).1
  unfolding mkone
  mkone_keeps path isfinal ignore m w q h =
      mkone_after_keeps path isfinal ignore m (mkdir path all_access w) q
        (posix.mkdir_keeps path all_access w q h)

  existing-eq-true :
      (ignore : Bool) (o : Option Stat) (w : World)
      → (existing os ignore o w).0 ≡ true
      → (st : Stat) × (o ≡ some st) × (st.is_dir ≡ true) × (ignore ≡ true)
  unfolding existing
  existing-eq-true ignore none w e = cc
  existing-eq-true true (some st) w e = (st, refl, e, refl)
  existing-eq-true false (some st) w e = cc

  mkone_after-IsDir :
      (path : List ℕ) (isfinal ignore : Bool) (m : Option Mode) (r : Made × World)
      → (r.0 ≡ made → IsDir path r.1)
      → (mkone_after os path isfinal ignore m r).0 ≡ true
      → IsDir path (mkone_after os path isfinal ignore m r).1
  unfolding mkone_after
  mkone_after-IsDir path isfinal ignore m (made, w) h e =
      unfold mkone_after in mkone_after_keeps path isfinal ignore m (made, w) path (h refl)
  mkone_after-IsDir path isfinal ignore m (exists, w) h e =
      let (st, s, dir, _) = existing-eq-true ignore (stat path w) w e in
      mkone_after_keeps path isfinal ignore m (exists, w) path (posix.stat_dir path w s dir)
  mkone_after-IsDir path isfinal ignore m (failed, w) h e = cc

  pub mkone-IsDir :
      (path : List ℕ) (isfinal ignore : Bool) (m : Option Mode) (w : World)
      → (mkone os path isfinal ignore m w).0 ≡ true
      → IsDir path (mkone os path isfinal ignore m w).1
  unfolding mkone
  mkone-IsDir path isfinal ignore m w =
      mkone_after-IsDir path isfinal ignore m (mkdir path all_access w)
        (posix.made_dir path all_access w)

  -- The file at the path has the mode.
  abbrev pub HasMode : List ℕ → Mode → World → Type 0
  HasMode path m w = (st : Stat) × (stat path w ≡ some st) × ((b : Bit) → st.mode b ≡ m b)

  set_mode-HasMode :
      (path : List ℕ) (m : Mode) (st : Stat) (w : World)
      → stat path w ≡ some st
      → (set_mode os path true (some m) st w).0 ≡ true
      → HasMode path m (set_mode os path true (some m) st w).1
  unfolding set_mode
  set_mode-HasMode path m st w s e = elim (Bool-cases (same_mode st.mode m)) [
    | inl y ↦ rw (y, set_mode) (st, s, λ b. same_mode_sound st.mode m b y)
    | inr y ↦
        let eq = if_true (not (same_mode st.mode m)) (chmod path m w) (true, w) (ap not y) in
        rw eq (posix.chmod_sets path m w (sym (ap (λ (r : Bool × World). r.0) eq) ∙ e))
  ]

  mkone_after-HasMode :
      (path : List ℕ) (m : Mode) (r : Made × World)
      → (mkone_after os path true false (some m) r).0 ≡ true
      → (r.0 ≡ made) × HasMode path m (mkone_after os path true false (some m) r).1
  unfolding mkone_after
  mkone_after-HasMode path m (made, w) e = by_stat (stat path w) refl e
    where
      by_stat :
          (o : Option Stat)
          → stat path w ≡ o
          → (made_dir os path true (some m) o w).0 ≡ true
          → (made ≡ made) × HasMode path m (made_dir os path true (some m) o w).1
      by_stat none s e = absurd (unfold made_dir in cc e)
      by_stat (some st) s e = (refl, unfold made_dir in set_mode-HasMode path m st w s e)
  mkone_after-HasMode path m (exists, w) e =
      let (st, s, dir, on) = existing-eq-true false (stat path w) w e in cc on
  mkone_after-HasMode path m (failed, w) e = cc

  mkone_after-not_made :
      (path : List ℕ) (m : Option Mode) (r : Made × World)
      → r.0 ≢ made
      → mkone_after os path true false m r ≡ (false, r.1)
  unfolding mkone_after
  mkone_after-not_made path m (made, w) h = absurd (h refl)
  mkone_after-not_made path m (exists, w) h = by_stat (stat path w)
    where
      by_stat : (o : Option Stat) → existing os false o w ≡ (false, w)
      by_stat none = unfold existing in refl
      by_stat (some st) = unfold existing in refl
  mkone_after-not_made path m (failed, w) h = refl

  mkone-HasMode :
      (path : List ℕ) (m : Mode) (w : World)
      → (mkone os path true false (some m) w).0 ≡ true
      → HasMode path m (mkone os path true false (some m) w).1
  unfolding mkone
  mkone-HasMode path m w e = (mkone_after-HasMode path m (mkdir path all_access w) e).1

  mkone-not_made :
      (path : List ℕ) (m : Mode) (w : World)
      → (mkdir path all_access w).0 ≢ made
      → mkone os path true false (some m) w ≡ (false, w)
  unfolding mkone
  mkone-not_made path m w h =
      mkone_after-not_made path (some m) (mkdir path all_access w) h
      ∙ ap (λ v. (false, v)) (posix.mkdir_failed path all_access w h)

  -- mkone without -p and with a mode: either mkdir() has made the directory, and then the result is
  -- 0 with exactly this mode at the path, whatever bits the umask left it with, or -1; or mkdir()
  -- has not, and the result is -1 with the file system as it was.
  pub mkone_lem :
      (path : List ℕ) (m : Mode) (w : World)
      → (((mkdir path all_access w).0 ≡ made)
          × ((((mkone os path true false (some m) w).0 ≡ true)
                × HasMode path m (mkone os path true false (some m) w).1)
              ⊎ ((mkone os path true false (some m) w).0 ≡ false)))
        ⊎ (((mkdir path all_access w).0 ≢ made)
            × (mkone os path true false (some m) w ≡ (false, w)))
  mkone_lem path m w = elim (Made-cases (mkdir path all_access w).0) [
    | inl y ↦ elim (Bool-cases (mkone os path true false (some m) w).0) [
      | inl ok ↦ inl (y, inl (ok, mkone-HasMode path m w ok))
      | inr bad ↦ inl (y, inr bad)
    ]
    | inr n ↦ inr (n, mkone-not_made path m w n)
  ]
