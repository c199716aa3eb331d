-- ===== src/Copy/Tests.antt =====
-- An input of bytes that read() gives two at a time, and an output that takes them one by one.
use mkrn.Prelude.{
  ℕ, ◌<◌, ◌≤◌, ◌≡◌, ◌≢◌, refl, ap, ◌∙◌, arith, Option, none, some, List, [], ◌∷◌, ◌++◌, length,
}
use mkrn.Path.{take}
use mkrn.Copy.{Streams, Read, bytes, failed}
use mkrn.Copy.Loop.{AreStreams}
use mkrn.Copy.Errors.{NeverFail}

-- What is left of the input, and the output.
abbrev pub Pipe : Type 0
Pipe = List ℕ × List ℕ

abbrev give : ℕ → Pipe → Read × Pipe
give fd ([], o) = (bytes [], ([], o))
give fd (a ∷ [], o) = (bytes (a ∷ []), ([], o))
give fd (a ∷ b ∷ i, o) = (bytes (a ∷ b ∷ []), (i, o))

abbrev accept : ℕ → List ℕ → Pipe → Option ℕ × Pipe
accept fd [] (i, o) = (none, (i, o))
accept fd (a ∷ buf) (i, o) = (some 1, (i, o ++ (a ∷ [])))

abbrev pub pipe_os : Streams
pipe_os = record { World = Pipe; read = give; write = accept }

-- The bytes that a read gives.
abbrev part : Read → List ℕ
part (bytes buf) = buf
part failed = []

pub give_lem :
    (fd : ℕ) (w : Pipe) → (w.0 ≡ part (give fd w).0 ++ (give fd w).1.0) × ((give fd w).1.1 ≡ w.1)
give_lem fd ([], o) = (refl, refl)
give_lem fd (a ∷ [], o) = (refl, refl)
give_lem fd (a ∷ b ∷ i, o) = (refl, refl)

pub give_bytes :
    (fd : ℕ) (w : Pipe) (buf : List ℕ)
    → (give fd w).0 ≡ bytes buf
    → (w.0 ≡ buf ++ (give fd w).1.0) × ((give fd w).1.1 ≡ w.1)
give_bytes fd w buf e =
    ((give_lem fd w).0 ∙ ap (λ r. part r ++ (give fd w).1.0) e, (give_lem fd w).1)

pub give_end : (fd : ℕ) (w : Pipe) → (give fd w).0 ≡ bytes [] → w.0 ≡ []
give_end fd ([], o) e = refl
give_end fd (a ∷ [], o) e = cc
give_end fd (a ∷ b ∷ i, o) e = cc

give_reads : (fd : ℕ) (w : Pipe) → (give fd w).0 ≢ failed
give_reads fd ([], o) = cc
give_reads fd (a ∷ [], o) = cc
give_reads fd (a ∷ b ∷ i, o) = cc

pub accepted :
    (w : Pipe) (buf : List ℕ) (n : ℕ)
    → (accept 1 buf w).0 ≡ some n
    → 0 < length buf
    → (0 < n)
      × (n ≤ length buf)
      × ((accept 1 buf w).1.1 ≡ w.1 ++ take n buf)
      × ((accept 1 buf w).1.0 ≡ w.0)
accepted w [] n e l = absurd (omega arith)
accepted (i, o) (a ∷ buf) n e l =
    let one : n ≡ 1 = cc in rw one (omega arith, omega arith, refl, refl)

pub accept_failed :
    (w : Pipe) (buf : List ℕ) → (accept 1 buf w).0 ≡ none → (accept 1 buf w).1.1 ≡ w.1
accept_failed (i, o) [] e = refl
accept_failed (i, o) (a ∷ buf) e = cc

abbrev pub pipe_os-AreStreams : (fd : ℕ) → AreStreams pipe_os fd 1
pipe_os-AreStreams fd = record {
  rest = λ w. w.0;
  out = λ w. w.1;
  read_bytes = give_bytes fd;
  read_end = give_end fd;
  read_failed = λ w e. (give_lem fd w).1;
  wrote = accepted;
  write_failed = accept_failed;
}

pub pipe_os-NeverFail : (fd : ℕ) → NeverFail pipe_os fd 1
pipe_os-NeverFail fd = record { reads = give_reads fd; writes = λ w c buf. cc }
