-- ===== src/Mkdir/Grammar.antt =====
-- The grammar of a clause of a symbolic mode, letters for classes and then one or more actions, each
-- an operator and letters for permissions, and its meaning.
use mkrn.Prelude.{
  ℕ, ◌==◌, ◌≡◌, inl, inr, refl, ap, ◌&&◌, ◌||◌, not, if◌then◌else◌, Bool, Bool-cases, true, false,
  List, [], ◌∷◌, ◌++◌,
}
use mkrn.FileMode.{Who, user, group, other, read, write, exec, suid, sgid, svtx, Mode}
use mkrn.Mkdir.{is_who, is_perm, is_op}

abbrev pub All : (ℕ → Bool) → List ℕ → Type 0
All test [] = Unit {0}
All test (c ∷ s) = (test c ≡ true) × All test s

-- No character in front that passes the test.
abbrev pub Stops : (ℕ → Bool) → List ℕ → Type 0
Stops test [] = Unit {0}
Stops test (c ∷ s) = test c ≡ false

-- Every text is letters that pass a test, and a rest where they stop.
pub span :
    (test : ℕ → Bool) (s : List ℕ)
    → (xs : List ℕ) × (rest : List ℕ) × (s ≡ xs ++ rest) × All test xs × Stops test rest
span test [] = ([], [], refl, tt, tt)
span test (c ∷ s) = elim (Bool-cases (test c)) [
  | inl y ↦
      let (xs, rest, e, a, stops) = span test s in (c ∷ xs, rest, ap (λ t. c ∷ t) e, (y, a), stops)
  | inr n ↦ ([], c ∷ s, refl, tt, n)
]

-- An action: the operator and the letters behind it.
abbrev pub Action : Type 0
Action = ℕ × List ℕ

pub record Clause : Type 0 where
  pub classes : List ℕ
  pub first : Action
  pub others : List Action

abbrev pub IsAction : Action → Type 0
IsAction a = (is_op a.0 ≡ true) × All is_perm a.1

abbrev pub AreActions : List Action → Type 0
AreActions [] = Unit {0}
AreActions (a ∷ more) = IsAction a × AreActions more

pub record IsClause (c : Clause) : Type 0 where
  pub classes : All is_who c.classes
  pub first : IsAction c.first
  pub others : AreActions c.others

abbrev pub print_action : Action → List ℕ → List ℕ
print_action a rest = a.0 ∷ (a.1 ++ rest)

abbrev pub print_actions : List Action → List ℕ
print_actions [] = []
print_actions (a ∷ more) = print_action a (print_actions more)

abbrev pub print : Clause → List ℕ
print c = c.classes ++ print_action c.first (print_actions c.others)

abbrev pub occurs : ℕ → List ℕ → Bool
occurs c [] = false
occurs c (x ∷ s) = (x == c) || occurs c s

-- The classes that a clause is for: those it names, or all.
abbrev pub letter : Who → ℕ
letter user = b'u'
letter group = b'g'
letter other = b'o'

abbrev pub selected : List ℕ → Who → Bool
selected [] w = true
selected (c ∷ s) w = occurs (letter w) (c ∷ s) || occurs b'a' (c ∷ s)

-- The bits that letters stand for, and those of the classes as a whole.
abbrev pub granted : (Who → Bool) → List ℕ → Mode
granted sel ls (read w) = occurs b'r' ls && sel w
granted sel ls (write w) = occurs b'w' ls && sel w
granted sel ls (exec w) = (occurs b'x' ls || occurs b'X' ls) && sel w
granted sel ls suid = occurs b's' ls && sel user
granted sel ls sgid = occurs b's' ls && sel group
granted sel ls svtx = occurs b't' ls

abbrev pub whole : (Who → Bool) → Mode
whole sel (read w) = sel w
whole sel (write w) = sel w
whole sel (exec w) = sel w
whole sel suid = sel user
whole sel sgid = sel group
whole sel svtx = sel other

-- `+` adds the bits, `-` takes them away, and `=` leaves the classes with these bits only.
abbrev pub act : (Who → Bool) → Action → Mode → Mode
act sel a m b =
    if a.0 == b'+'
    then m b || granted sel a.1 b
    else if a.0 == b'-'
    then m b && not (granted sel a.1 b)
    else (m b && not (whole sel b)) || granted sel a.1 b

abbrev pub act_all : (Who → Bool) → List Action → Mode → Mode
act_all sel [] m = m
act_all sel (a ∷ more) m = act_all sel more (act sel a m)

abbrev pub meaning : Clause → Mode → Mode
meaning c m = act_all (selected c.classes) (c.first ∷ c.others) m
