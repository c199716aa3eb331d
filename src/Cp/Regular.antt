-- ===== src/Cp/Regular.antt =====
-- What a copied file holds.
use mkrn.Prelude.{
  ℕ, ◌<◌, ◌≡◌, ◌≢◌, ◌⊎◌, inl, inr, refl, ap, sym, ◌∙◌, arith, ◌&&◌, if_both, Bool, true, false,
  Option, none, some, List, [], ◌++◌, length, done,
}
use mkrn.FileMode.{Mode}
use mkrn.Rm.{State}
use mkrn.Copy.{Copied, copied, read_error, write_error}
use mkrn.Copy.Loop.{AreStreams, copy_loop_lem}
use mkrn.Cp.{
  Flags, Stat, Os, preserve, keep_times, reopen, open_dest, copy_done, copy_opened, copy_from,
  copy_regular,
}

-- How open() came to a descriptor for the destination: it was there and has been truncated; it was
-- there, could not be opened and under -f has been removed and made again; or it was not there.
pub data Opening (os : Os) (fl : Flags) (dest : List ℕ) (mode : Mode) (destexists : Bool)
    (w : os.streams.World) (r : Option ℕ × os.streams.World) : Type 0 where
  truncated : destexists ≡ true → os.open_trunc dest w ≡ r → Opening os fl dest mode destexists w r
  replaced :
      (w1 w2 : os.streams.World)
      → destexists ≡ true
      → fl.fflag ≡ true
      → os.open_trunc dest w ≡ (none, w1)
      → os.unlink dest w1 ≡ (true, w2)
      → os.open_create dest mode w2 ≡ r
      → Opening os fl dest mode destexists w r
  created :
      destexists ≡ false → os.open_create dest mode w ≡ r → Opening os fl dest mode destexists w r

-- Both files can be opened, and the calls keep what they promise about the bytes `contents` of the
-- two files, where a name without a file has none: O_TRUNC leaves no bytes, O_CREAT alone leaves the
-- bytes as they are, unlink() leaves no file, a descriptor that has just been opened stands at the
-- start, and the calls of preserve leave bytes alone.
pub record AreOpen (os : Os) (contents : List ℕ → os.streams.World → List ℕ) (fl : Flags)
    (src dest : List ℕ) (mode : Mode) (destexists : Bool) (w : os.streams.World) : Type 0 where
  pub sfd : ℕ
  pub dfd : ℕ
  pub reading : os.streams.World
  pub writing : os.streams.World
  pub opened_src : os.open_read src w ≡ (some sfd, reading)
  pub opened_dest : Opening os fl dest mode destexists reading (some dfd, writing)
  pub absent : destexists ≡ false → contents dest reading ≡ []
  pub open_trunc_empties :
      (v v' : os.streams.World) (fd : ℕ)
      → os.open_trunc dest v ≡ (some fd, v')
      → contents dest v' ≡ []
  pub open_create_keeps :
      (v v' : os.streams.World) (fd : ℕ)
      → os.open_create dest mode v ≡ (some fd, v')
      → contents dest v' ≡ contents dest v
  pub unlink_removes :
      (v v' : os.streams.World) → os.unlink dest v ≡ (true, v') → contents dest v' ≡ []
  pub str : AreStreams os.streams sfd dfd
  pub at_start : str.rest writing ≡ contents src w
  pub at_dest : str.out writing ≡ contents dest writing
  pub closed : (v : os.streams.World) → contents dest (os.close dfd (os.close sfd v)) ≡ str.out v
  pub utime_keeps :
      (a m : ℕ) (v : os.streams.World) → contents dest (os.utime dest a m v).1 ≡ contents dest v
  pub chown_keeps :
      (u g : ℕ) (v : os.streams.World) → contents dest (os.chown dest u g v).1 ≡ contents dest v
  pub chmod_keeps :
      (m : Mode) (v : os.streams.World) → contents dest (os.chmod dest m v).1 ≡ contents dest v

module _ (os : Os) (contents : List ℕ → os.streams.World → List ℕ) (fl : Flags) (src dest : List ℕ)
    (sst : Stat) (destexists : Bool) (s : State os.streams.World)
    (o : AreOpen os contents fl src dest sst.mode destexists s.world) where
  open os.streams use {World}

  -- The program makes these calls, and the destination is then empty.
  open_dest_lem : open_dest os fl dest sst.mode destexists o.reading ≡ (some o.dfd, o.writing)
  unfolding open_dest reopen
  open_dest_lem = elim o.opened_dest [
    | truncated e run ↦ rw (e, run) refl
    | replaced w1 w2 e f failed gone run ↦ rw (e, failed, gone, f, run) refl
    | created e run ↦ rw (e, run) refl
  ]

  emptied : o.str.out o.writing ≡ []
  emptied = o.at_dest ∙ (elim o.opened_dest [
    | truncated e run ↦ o.open_trunc_empties o.reading o.writing o.dfd run
    | replaced w1 w2 e f failed gone run ↦
        o.open_create_keeps w2 o.writing o.dfd run ∙ o.unlink_removes w1 w2 gone
    | created e run ↦ o.open_create_keeps o.reading o.writing o.dfd run ∙ o.absent e
  ])

  keep_times_keeps :
      (t : State World)
      → (contents dest (keep_times os fl dest sst t).world ≡ contents dest t.world)
        × ((keep_times os fl dest sst t).status ≡ t.status)
  unfolding keep_times preserve
  keep_times_keeps t =
      if_both
        (λ (u : State World).
          (contents dest u.world ≡ contents dest t.world) × (u.status ≡ t.status))
        fl.pflag _ _ (o.chmod_keeps _ _ ∙ o.chown_keeps _ _ _ ∙ o.utime_keeps _ _ _, refl)
        (refl, refl)

  -- The destination has all bytes of the source, and the status is as before; or the status is 1 and
  -- the destination has a first part of the source.
  abbrev pub IsCopied : State World → Type 0
  IsCopied t =
      ((t.status ≡ s.status) × (contents dest t.world ≡ contents src s.world))
      ⊎ ((t.status ≡ true) × (q : List ℕ) × (contents src s.world ≡ contents dest t.world ++ q))

  copy_done-IsCopied :
      (r : Copied × World)
      → ((r.0 ≡ copied) × (o.str.out r.1 ≡ o.str.out o.writing ++ o.str.rest o.writing))
        ⊎ ((r.0 ≢ copied)
            × (p : List ℕ) × (q : List ℕ) × (o.str.rest o.writing ≡ p ++ q)
            × (o.str.out r.1 ≡ o.str.out o.writing ++ p))
      → IsCopied (copy_done os fl dest sst o.sfd o.dfd s r)
  unfolding copy_done
  copy_done-IsCopied (copied, w) (inl (e, all)) =
      let (bytes, status) =
        keep_times_keeps (record s { world = os.close o.dfd (os.close o.sfd w) }) in
      inl (
        status,
        bytes ∙ o.closed w ∙ all ∙ ap (λ t. t ++ o.str.rest o.writing) emptied ∙ o.at_start,
      )
  copy_done-IsCopied (copied, w) (inr (n, p, q, parts, some_of)) = absurd (n refl)
  copy_done-IsCopied (read_error, w) (inl (e, all)) = cc
  copy_done-IsCopied (read_error, w) (inr (n, p, q, parts, some_of)) =
      let (bytes, status) =
        keep_times_keeps (record s { world = os.close o.dfd (os.close o.sfd w); status = true }) in
      let part = bytes ∙ o.closed w ∙ some_of ∙ ap (λ t. t ++ p) emptied in
      inr (status, q, sym o.at_start ∙ parts ∙ ap (λ t. t ++ q) (sym part))
  copy_done-IsCopied (write_error, w) (inl (e, all)) = cc
  copy_done-IsCopied (write_error, w) (inr (n, p, q, parts, some_of)) =
      let part = o.closed w ∙ some_of ∙ ap (λ t. t ++ p) emptied in
      inr (refl, q, sym o.at_start ∙ parts ∙ ap (λ t. t ++ q) (sym part))

  -- copy_regular, where both files can be opened and nobody is asked, always returns, with as many
  -- reads as the source has bytes and one. Either the destination then holds exactly the bytes of the
  -- source and the status is as before, or the status is 1 and it holds a first part of them. Neither
  -- -p nor the size of the single reads and writes changes this.
  pub copy_regular_lem :
      (rounds : ℕ)
      → (destexists && fl.iflag) ≡ false
      → length (contents src s.world) < rounds
      → (t : State World) × (copy_regular os rounds fl src dest sst destexists s ≡ done t)
        × IsCopied t
  unfolding copy_regular copy_from copy_opened
  copy_regular_lem rounds quiet enough =
      let (r, go, result) =
        copy_loop_lem os.streams o.sfd o.dfd o.str rounds o.writing
          (omega (arith, ap length o.at_start, enough)) in
      (
        copy_done os fl dest sst o.sfd o.dfd s r,
        rw (quiet, o.opened_src, open_dest_lem, go) refl,
        copy_done-IsCopied r result,
      )
