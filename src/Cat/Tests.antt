-- ===== src/Cat/Tests.antt =====
-- One file with three bytes.
use mkrn.Prelude.{
  ℕ, ◌≡◌, refl, arith, ◌||◌, if◌then◌else◌, false, Option, none, some, List, [], ◌∷◌, ◌++◌, done,
}
use mkrn.Path.{same_text}
use mkrn.Copy.Tests.{Pipe, pipe_os, pipe_os-AreStreams, pipe_os-NeverFail}
use mkrn.Cat.{cat_operands}
use mkrn.Cat.Operands.{AreFiles, AreNames, contents, any_missing, cat_operands_lem}

abbrev a_name : List ℕ
a_name = b'a' ∷ []

abbrev file : List ℕ → Option (List ℕ)
file path = if same_text path a_name then some (1 ∷ 2 ∷ 3 ∷ []) else none

abbrev open_file : List ℕ → Pipe → Option ℕ × Pipe
open_file path w = if same_text path a_name then (some 3, (1 ∷ 2 ∷ 3 ∷ [], w.1)) else (none, w)

abbrev close : ℕ → Pipe → Pipe
close fd w = w

abbrev one_file : AreFiles pipe_os open_file close
one_file = record {
  file = file;
  out = λ w. w.1;
  streams = pipe_os-AreStreams;
  one_out = λ fd w. refl;
  opens = λ path w fd e. ground arith;
  no_file = λ path w e. ground arith;
  open_out = λ path w. ground arith;
  close_out = λ fd w. refl;
}

abbrev operands : List (List ℕ)
operands = a_name ∷ (b'b' ∷ []) ∷ a_name ∷ []

names : AreNames file 5 operands
unfolding same_text
names = (refl, omega arith, (refl, omega arith, (refl, omega arith, tt)))

cat_operands_lem_example :
    (v : Pipe) × (cat_operands pipe_os open_file close 5 operands false ([], 9 ∷ [])
      ≡ done (false || any_missing file operands, v))
    × (v.1 ≡ (9 ∷ []) ++ contents file operands)
unfolding same_text
cat_operands_lem_example =
    cat_operands_lem pipe_os open_file close one_file pipe_os-NeverFail 5 operands false
      ([], 9 ∷ []) names

-- The output of that run.
twice : contents file operands ≡ 1 ∷ 2 ∷ 3 ∷ 1 ∷ 2 ∷ 3 ∷ []
unfolding same_text
twice = refl
