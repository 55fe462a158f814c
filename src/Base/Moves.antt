-- ===== src/Base/Moves.antt =====
-- Moving a block of a list.
use mathlib.Core.Path.{sym, subst}
use mathlib.Core.List.{List, [], ◌∷◌, ◌++◌, Perm, perm_middle, append_assoc, append-nil}
use mathlib.Core.List.Perm

module _ {A : Type 0} where
  append_comm : (a b : List A) → Perm (a ++ b) (b ++ a)
  append_comm [] b = subst (λ x. Perm b x) (sym (append-nil b)) Perm.rfl
  append_comm (x ∷ a) b = Perm.trans (Perm.cons x (append_comm a b)) (Perm.symm (perm_middle b a))

  move : (g p q : List A) → Perm (g ++ (p ++ q)) (p ++ (g ++ q))
  move g p q =
      subst (λ x. Perm x (p ++ (g ++ q))) (append_assoc g p q)
        (subst (λ x. Perm (g ++ p ++ q) x) (append_assoc p g q)
          (Perm.append_right q (append_comm g p)))

  -- Two exchanges, one after the other.
  pub exchange_append :
      (g q p r f c d : List A)
      → Perm (f ++ p) (d ++ c)
      → Perm (g ++ q) (f ++ r)
      → Perm (g ++ (p ++ q)) (d ++ (c ++ r))
  exchange_append g q p r f c d h k = Perm.trans (move g p q) (
      Perm.trans (Perm.append_left p k) (
        Perm.trans (Perm.symm (move f p r)) (
          subst (λ x. Perm x (d ++ (c ++ r))) (append_assoc f p r)
            (subst (λ x. Perm (f ++ p ++ r) x) (append_assoc d c r) (Perm.append_right r h)))))
