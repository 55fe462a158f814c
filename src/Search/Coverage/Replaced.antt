-- ===== src/Search/Coverage/Replaced.antt =====
-- candidate_coverage.py: the replacement of a proposal.
use sts2_training.Base.{
  ◌≡◌, refl, ap, suc, String, Bool, true, false, Option, none, some, List, [], ◌∷◌, length, mem,
  if◌then◌else◌, str_eq, str_eq_iff, arith, All, IsDistinct,
}
use sts2_training.Search.Coverage.{CandidateProposal, proposed, proposed_ids}
use sts2_training.Search.Coverage.Apply.{replace_last}

-- One proposal whose action is not protected gives way to r.
pub data Replaces (protected : List String) (r : CandidateProposal)
    : List CandidateProposal → List CandidateProposal → Type 0 where
  here :
      {p : CandidateProposal} {ps : List CandidateProposal}
      → mem (proposed p) protected ≡ false
      → Replaces protected r (p ∷ ps) (r ∷ ps)
  there :
      {p : CandidateProposal} {ps qs : List CandidateProposal}
      → Replaces protected r ps qs
      → Replaces protected r (p ∷ ps) (p ∷ qs)

-- every proposal is protected
abbrev pub AllProtected : List String → List CandidateProposal → Type 0
AllProtected protected ps = All (λ i. mem i protected ≡ true) (proposed_ids ps)

abbrev pub IsReplacement :
    List String
    → CandidateProposal
    → List CandidateProposal
    → Option (List CandidateProposal)
    → Type 0
IsReplacement protected r ps none = AllProtected protected ps
IsReplacement protected r ps (some qs) = Replaces protected r ps qs

module _ (protected : List String) (r : CandidateProposal) where
  pub replace_last-IsReplacement :
      (ps : List CandidateProposal) → IsReplacement protected r ps (replace_last protected r ps)
  replace_last-IsReplacement [] = tt
  replace_last-IsReplacement (p ∷ ps) =
      step (replace_last protected r ps) (replace_last-IsReplacement ps)
    where
      first :
          (b : Bool)
          → mem (proposed p) protected ≡ b
          → AllProtected protected ps
          → IsReplacement protected r (p ∷ ps) (if b then none else some (r ∷ ps))
      first true h k = (h, k)
      first false h k = here h

      step :
          (o : Option (List CandidateProposal))
          → IsReplacement protected r ps o
          → IsReplacement protected r (p ∷ ps) (elim o [
            | some qs ↦ some (p ∷ qs)
            | none ↦ if mem (proposed p) protected then none else some (r ∷ ps)
          ])
      step (some qs) k = there k
      step none k = first (mem (proposed p) protected) refl k

  pub length-Replaces :
      {ps qs : List CandidateProposal} → Replaces protected r ps qs → length qs ≡ length ps
  length-Replaces (here h) = refl
  length-Replaces (there x) = ap suc (length-Replaces x)

  pub All-Replaces :
      (P : CandidateProposal → Type 0) {ps qs : List CandidateProposal}
      → Replaces protected r ps qs
      → P r
      → All P ps
      → All P qs
  All-Replaces P (here h) k all = (k, all.1)
  All-Replaces P (there x) k all = (all.0, All-Replaces P x k all.1)

  pub fresh-Replaces :
      (j : String) {ps qs : List CandidateProposal}
      → Replaces protected r ps qs
      → str_eq j (proposed r) ≡ false
      → mem j (proposed_ids ps) ≡ false
      → mem j (proposed_ids qs) ≡ false
  fresh-Replaces j (here h) n f = ground arith
  fresh-Replaces j (there x) n f = let k = fresh-Replaces j x n in ground (arith, k)

  pub distinct-Replaces :
      {ps qs : List CandidateProposal}
      → Replaces protected r ps qs
      → mem (proposed r) (proposed_ids ps) ≡ false
      → IsDistinct (proposed_ids ps)
      → IsDistinct (proposed_ids qs)
  distinct-Replaces (here h) n d = (ground arith, d.1)
  distinct-Replaces (there {p} x) n d = (
    fresh-Replaces (proposed p) x
        (ground (arith, str_eq_iff (proposed p) (proposed r), str_eq_iff (proposed r) (proposed p)))
        d.0,
    distinct-Replaces x (ground arith) d.1,
  )

  pub mem-Replaces_new :
      {ps qs : List CandidateProposal}
      → Replaces protected r ps qs
      → mem (proposed r) (proposed_ids qs) ≡ true
  mem-Replaces_new (here h) = ground (arith, str_eq_iff (proposed r) (proposed r))
  mem-Replaces_new (there x) = let k = mem-Replaces_new x in ground (arith, k)

  pub mem-Replaces :
      (j : String) {ps qs : List CandidateProposal}
      → Replaces protected r ps qs
      → mem j protected ≡ true
      → mem j (proposed_ids ps) ≡ true
      → mem j (proposed_ids qs) ≡ true
  mem-Replaces j (here {p} h) k m = ground (arith, str_eq_iff j (proposed p))
  mem-Replaces j (there x) k m = let ih = mem-Replaces j x k in ground (arith, ih)
