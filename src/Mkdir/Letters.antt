-- ===== src/Mkdir/Letters.antt =====
-- What the loops of applyclause over the letters and its switch over the operator make of the
-- grammar.
use mathlib.Core.Bool.{or_assoc}
use mathlib.Core.Path.{fun_ext}
use mkrn.Prelude.{
  ℕ, ◌≡◌, refl, ap, ◌∙◌, arith, ◌||◌, if_true, Bool, true, false, List, [], ◌∷◌, ◌++◌,
}
use mkrn.FileMode.{Who, user, group, other, Bit, read, write, exec, suid, sgid, svtx, Mode}
use mkrn.Mkdir.{
  is_who, class, take_who, all_if_none, is_perm, perm_bits, take_perms, class_bits, apply_op,
}
use mkrn.Mkdir.Grammar.{All, Stops, Action, occurs, letter, selected, granted, whole, act}

abbrev among : List ℕ → Who → Bool
among [] w = false
among (c ∷ s) w = class c w || among s w

pub take_who_lem :
    (ws rest : List ℕ) (who : Who → Bool)
    → All is_who ws
    → Stops is_who rest
    → take_who (ws ++ rest) who ≡ ((λ w. who w || among ws w), rest)
unfolding take_who
take_who_lem [] [] who a s = ap (λ f. (f, [])) (fun_ext λ w. ground arith)
take_who_lem [] (c ∷ rest) who a s = rw s (ap (λ f. (f, c ∷ rest)) (fun_ext λ w. ground arith))
take_who_lem (c ∷ ws) rest who a s = rw a.0 (
    take_who_lem ws rest (λ w. who w || class c w) a.1 s
    ∙ ap (λ f. (f, rest)) (fun_ext λ w. or_assoc (who w) (class c w) (among ws w)))

some_class :
    (c : ℕ) (ws : List ℕ)
    → is_who c ≡ true
    → (among (c ∷ ws) user || among (c ∷ ws) group || among (c ∷ ws) other) ≡ true
some_class c ws h = ground arith

among-occurs : (w : Who) (ws : List ℕ) → among ws w ≡ (occurs (letter w) ws || occurs b'a' ws)
among-occurs user [] = refl
among-occurs group [] = refl
among-occurs other [] = refl
among-occurs user (c ∷ ws) = ground (arith, among-occurs user ws)
among-occurs group (c ∷ ws) = ground (arith, among-occurs group ws)
among-occurs other (c ∷ ws) = ground (arith, among-occurs other ws)

pub among-selected : (ws : List ℕ) → All is_who ws → all_if_none (λ w. among ws w) ≡ selected ws
unfolding all_if_none
among-selected [] a = fun_ext λ w. refl
among-selected (c ∷ ws) a = fun_ext λ w.
    if_true (among (c ∷ ws) user || among (c ∷ ws) group || among (c ∷ ws) other) (among (c ∷ ws) w)
      true (some_class c ws a.0)
    ∙ among-occurs w (c ∷ ws)

perm_bits-granted :
    (sel : Who → Bool) (c : ℕ) (ls : List ℕ) (b : Bit)
    → (perm_bits sel c b || granted sel ls b) ≡ granted sel (c ∷ ls) b
unfolding perm_bits
perm_bits-granted sel c ls (read w) = ground arith
perm_bits-granted sel c ls (write w) = ground arith
perm_bits-granted sel c ls (exec w) = ground arith
perm_bits-granted sel c ls suid = ground arith
perm_bits-granted sel c ls sgid = ground arith
perm_bits-granted sel c ls svtx = ground arith

or-granted_nil : (sel : Who → Bool) (bits : Mode) (b : Bit) → bits b ≡ (bits b || granted sel [] b)
or-granted_nil sel bits (read w) = ground arith
or-granted_nil sel bits (write w) = ground arith
or-granted_nil sel bits (exec w) = ground arith
or-granted_nil sel bits suid = ground arith
or-granted_nil sel bits sgid = ground arith
or-granted_nil sel bits svtx = ground arith

pub take_perms_lem :
    (sel : Who → Bool) (ls rest : List ℕ) (bits : Mode)
    → All is_perm ls
    → Stops is_perm rest
    → take_perms sel (ls ++ rest) bits ≡ ((λ b. bits b || granted sel ls b), rest)
unfolding take_perms
take_perms_lem sel [] [] bits a s = ap (λ f. (f, [])) (fun_ext (or-granted_nil sel bits))
take_perms_lem sel [] (c ∷ rest) bits a s =
    rw s (ap (λ f. (f, c ∷ rest)) (fun_ext (or-granted_nil sel bits)))
take_perms_lem sel (c ∷ ls) rest bits a s = rw a.0 (
    take_perms_lem sel ls rest (λ b. bits b || perm_bits sel c b) a.1 s
    ∙ ap (λ f. (f, rest))
        (fun_ext λ b.
          or_assoc (bits b) (perm_bits sel c b) (granted sel ls b)
          ∙ ap (λ t. bits b || t) (perm_bits-granted sel c ls b)))

class_bits-whole : (sel : Who → Bool) (b : Bit) → class_bits sel b ≡ whole sel b
unfolding class_bits
class_bits-whole sel (read w) = refl
class_bits-whole sel (write w) = refl
class_bits-whole sel (exec w) = refl
class_bits-whole sel suid = refl
class_bits-whole sel sgid = refl
class_bits-whole sel svtx = refl

pub apply_op-act :
    (sel : Who → Bool) (a : Action) (bits m : Mode)
    → ((b : Bit) → bits b ≡ granted sel a.1 b)
    → apply_op sel a.0 bits m ≡ act sel a m
unfolding apply_op
apply_op-act sel a bits m e = fun_ext λ b. rw (e b, class_bits-whole sel b) refl
