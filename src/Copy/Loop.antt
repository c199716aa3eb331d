-- ===== src/Copy/Loop.antt =====
-- The loop copies all of the input, whatever parts read() and write() take at a time.
use mkrn.Prelude.{
  ℕ, zero, suc, ◌≤◌, ◌<◌, ◌≡◌, ◌≢◌, ◌⊎◌, inl, inr, refl, ap, ap₂, sym, ◌∙◌, arith, Bool, true,
  false, Option, none, some, List, [], ◌∷◌, ◌++◌, append_assoc, append-nil, length, length-append,
  Outcome, done, ◌>>=◌,
}
use mkrn.Path.{take, drop}
use mkrn.Path.Scan.{length-drop}
use mkrn.Copy.{
  Streams, Read, bytes, failed, Copied, copied, read_error, write_error, after_write, write_all,
  after_buffer, after_read, copy_loop,
}

-- What the loop relies on, for an input that is not the output: `rest` is what read() has still to
-- give, `out` what has been written.
pub record AreStreams (os : Streams) (from to : ℕ) : Type 0 where
  pub rest : os.World → List ℕ
  pub out : os.World → List ℕ
  pub read_bytes :
      (w : os.World) (buf : List ℕ)
      → (os.read from w).0 ≡ bytes buf
      → (rest w ≡ buf ++ rest (os.read from w).1) × (out (os.read from w).1 ≡ out w)
  pub read_end : (w : os.World) → (os.read from w).0 ≡ bytes [] → rest w ≡ []
  pub read_failed : (w : os.World) → (os.read from w).0 ≡ failed → out (os.read from w).1 ≡ out w
  pub wrote :
      (w : os.World) (buf : List ℕ) (n : ℕ)
      → (os.write to buf w).0 ≡ some n
      → 0 < length buf
      → (0 < n)
        × (n ≤ length buf)
        × (out (os.write to buf w).1 ≡ out w ++ take n buf)
        × (rest (os.write to buf w).1 ≡ rest w)
  pub write_failed :
      (w : os.World) (buf : List ℕ)
      → (os.write to buf w).0 ≡ none
      → out (os.write to buf w).1 ≡ out w

take-drop : (n : ℕ) (s : List ℕ) → take n s ++ drop n s ≡ s
take-drop zero s = refl
take-drop (suc n) [] = refl
take-drop (suc n) (c ∷ s) = ap (λ t. c ∷ t) (take-drop n s)

module _ (os : Streams) (from to : ℕ) (str : AreStreams os from to) where
  open os use {World, read, write}
  open str use {rest, out}

  -- Of the buffer a part is written: all of it, or what came before an error.
  abbrev Wrote : List ℕ → World → Outcome (Bool × World) → Type 0
  Wrote buf w r =
      ((v : World) × (r ≡ done (true, v)) × (out v ≡ out w ++ buf) × (rest v ≡ rest w))
      ⊎ ((v : World) × (p : List ℕ) × (q : List ℕ) × (r ≡ done (false, v))
          × (buf ≡ p ++ q)
          × (out v ≡ out w ++ p))

  after_write-Wrote :
      (again : List ℕ → World → Outcome (Bool × World)) (fuel c : ℕ) (buf : List ℕ) (w : World)
      (o : Option ℕ × World)
      → length buf ≤ fuel
      → ((b : List ℕ) (v : World) → length b ≤ fuel → Wrote b v (again b v))
      → write to (c ∷ buf) w ≡ o
      → Wrote (c ∷ buf) w (after_write os again (c ∷ buf) o)
  unfolding after_write
  after_write-Wrote again fuel c buf w (none, v) l step e = inr (
    v,
    [],
    c ∷ buf,
    refl,
    refl,
    ap (λ (o : Option ℕ × World). out o.1) (sym e)
        ∙ str.write_failed w (c ∷ buf) (ap (λ (o : Option ℕ × World). o.0) e)
        ∙ sym (append-nil (out w)),
  )
  after_write-Wrote again fuel c buf w (some n, v) l step e =
      let (pos, le, wr, same) =
        str.wrote w (c ∷ buf) n (ap (λ (o : Option ℕ × World). o.0) e) (omega arith) in
      let wr' : out v ≡ out w ++ take n (c ∷ buf) =
        ap (λ (o : Option ℕ × World). out o.1) (sym e) ∙ wr in
      let same' : rest v ≡ rest w = ap (λ (o : Option ℕ × World). rest o.1) (sym e) ∙ same in
      let short : length (drop n (c ∷ buf)) ≤ fuel =
        omega (arith, length-drop n (c ∷ buf), pos, l) in
      elim (step (drop n (c ∷ buf)) v short) [
        | inl (u, go, all, r) ↦ inl (
          u,
          go,
          all
              ∙ ap (λ t. t ++ drop n (c ∷ buf)) wr'
              ∙ append_assoc (out w) (take n (c ∷ buf)) (drop n (c ∷ buf))
              ∙ ap (λ t. out w ++ t) (take-drop n (c ∷ buf)),
          r ∙ same',
        )
        | inr (u, p, q, go, split, all) ↦ inr (
          u,
          take n (c ∷ buf) ++ p,
          q,
          go,
          sym (take-drop n (c ∷ buf))
              ∙ ap (λ t. take n (c ∷ buf) ++ t) split
              ∙ sym (append_assoc (take n (c ∷ buf)) p q),
          all ∙ ap (λ t. t ++ p) wr' ∙ append_assoc (out w) (take n (c ∷ buf)) p,
        )
      ]

  write_all_lem :
      (fuel : ℕ) (buf : List ℕ) (w : World)
      → length buf ≤ fuel
      → Wrote buf w (write_all os fuel to buf w)
  unfolding write_all
  write_all_lem fuel [] w l = inl (w, refl, sym (append-nil (out w)), refl)
  write_all_lem zero (c ∷ buf) w l = absurd (omega arith)
  write_all_lem (suc fuel) (c ∷ buf) w l =
      after_write-Wrote (λ b v. write_all os fuel to b v) fuel c buf w (write to (c ∷ buf) w)
        (omega arith) (λ b v m. write_all_lem fuel b v m) refl

  -- The outcome of the loop: it returns; on success all of the input has been written, on an error
  -- a first part of it.
  abbrev Copies : World → Outcome (Copied × World) → Type 0
  Copies w r =
      (v : Copied × World) × (r ≡ done v)
      × (((v.0 ≡ copied) × (out v.1 ≡ out w ++ rest w))
          ⊎ ((v.0 ≢ copied)
              × (p : List ℕ) × (q : List ℕ) × (rest w ≡ p ++ q)
              × (out v.1 ≡ out w ++ p)))

  after_read-Copies :
      (again : World → Outcome (Copied × World)) (fuel : ℕ) (w : World) (o : Read × World)
      → length (rest w) ≤ fuel
      → ((v : World) → length (rest v) < fuel → Copies v (again v))
      → read from w ≡ o
      → Copies w (after_read os again to o)
  unfolding after_read after_buffer
  after_read-Copies again fuel w (failed, v) l step e =
      let kept = str.read_failed w (ap (λ (o : Read × World). o.0) e) in
      let same : out v ≡ out w = ap (λ (o : Read × World). out o.1) (sym e) ∙ kept in
      ((read_error, v), refl, inr ((λ h. cc h), [], rest w, refl, same ∙ sym (append-nil (out w))))
  after_read-Copies again fuel w (bytes [], v) l step e =
      let (_, kept) = str.read_bytes w [] (ap (λ (o : Read × World). o.0) e) in
      let same : out v ≡ out w = ap (λ (o : Read × World). out o.1) (sym e) ∙ kept in
      let end : rest w ≡ [] = str.read_end w (ap (λ (o : Read × World). o.0) e) in
      (
        (copied, v),
        refl,
        inl (refl, same ∙ sym (append-nil (out w)) ∙ ap (λ t. out w ++ t) (sym end)),
      )
  after_read-Copies again fuel w (bytes (c ∷ buf), v) l step e =
      let (front, kept) = str.read_bytes w (c ∷ buf) (ap (λ (o : Read × World). o.0) e) in
      let same : out v ≡ out w = ap (λ (o : Read × World). out o.1) (sym e) ∙ kept in
      let split : rest w ≡ (c ∷ buf) ++ rest v =
        front ∙ ap (λ (o : Read × World). (c ∷ buf) ++ rest o.1) e in
      elim (write_all_lem (suc (length buf)) (c ∷ buf) v (omega arith)) [
        | inr (u, p, q, go, parts, wr) ↦ (
          (write_error, u),
          ap (λ r. r >>= after_buffer os again) go,
          inr (
            (λ h. cc h),
            p,
            q ++ rest v,
            split ∙ ap (λ t. t ++ rest v) parts ∙ append_assoc p q (rest v),
            wr ∙ ap (λ t. t ++ p) same,
          ),
        )
        | inl (u, go, wr, r) ↦
            let short : length (rest u) < fuel =
              omega (arith, ap length split, ap length r, length-append (c ∷ buf) (rest v), l) in
            let sofar : out u ≡ out w ++ (c ∷ buf) = wr ∙ ap (λ t. t ++ (c ∷ buf)) same in
            let (x, go', result) = step u short in
            (
              x,
              ap (λ r. r >>= after_buffer os again) go ∙ go',
              elim result [
                | inl (ok, all) ↦ inl (
                  ok,
                  all
                      ∙ ap₂ (λ a b. a ++ b) sofar r
                      ∙ append_assoc (out w) (c ∷ buf) (rest v)
                      ∙ ap (λ t. out w ++ t) (sym split),
                )
                | inr (bad, p, q, parts, some_of) ↦ inr (
                  bad,
                  (c ∷ buf) ++ p,
                  q,
                  split
                      ∙ ap (λ t. (c ∷ buf) ++ t) (sym r ∙ parts)
                      ∙ sym (append_assoc (c ∷ buf) p q),
                  some_of ∙ ap (λ t. t ++ p) sofar ∙ append_assoc (out w) (c ∷ buf) p,
                )
              ],
            )
      ]

  -- The loop returns within one round more than the input has bytes. On success it has written all
  -- of the input behind what the output held before; on an error of read() or write() a first part
  -- of the input, and it reports the error.
  pub copy_loop_lem :
      (fuel : ℕ) (w : World) → length (rest w) < fuel → Copies w (copy_loop os fuel from to w)
  unfolding copy_loop
  copy_loop_lem zero w l = absurd (omega arith)
  copy_loop_lem (suc fuel) w l =
      after_read-Copies (λ v. copy_loop os fuel from to v) fuel w (read from w) (omega arith)
        (λ v m. copy_loop_lem fuel v m) refl
