-- ===== src/Mkdir/Clause.antt =====
-- applyclause against the grammar of a clause.
use mkrn.Prelude.{ℕ, suc, ◌≡◌, refl, ◌||◌, if◌then◌else◌, Bool, List, done}
use mkrn.FileMode.{Who, Mode, no_bits}
use mkrn.Mkdir.{is_perm, op_next, accept_end, clause_loop}
use mkrn.Mkdir.Grammar.{
  Stops, Action, IsAction, AreActions, print_action, print_actions, granted, act,
}
use mkrn.Mkdir.Letters.{take_perms_lem, apply_op-act}

-- One action at the front of the text.
step :
    (f : ℕ) (sel : Who → Bool) (m : Mode) (a : Action) (rest : List ℕ)
    → IsAction a
    → Stops is_perm rest
    → clause_loop (suc f) sel m (print_action a rest) ≡ (
        if op_next rest
        then clause_loop f sel (act sel a m) rest
        else done (accept_end rest (act sel a m)))
unfolding clause_loop
step f sel m a rest h s =
    rw (h.0, take_perms_lem sel a.1 rest no_bits h.1 s)
      (rw (apply_op-act sel a (λ b. no_bits b || granted sel a.1 b) m (λ b. refl)) refl)

-- Every text is a list of actions, or the loop refuses it.
abbrev Parsed : (Who → Bool) → Mode → List ℕ → Type 0
Parsed sel m p =
    (a : Action) × (more : List Action) × IsAction a
    × AreActions more
    × (p ≡ print_action a (print_actions more))
