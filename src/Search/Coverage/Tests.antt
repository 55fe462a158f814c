-- ===== src/Search/Coverage/Tests.antt =====
-- A combat with two cards, a potion and the end of the turn, where the policy ranks the cards first.
use sts2_training.Base.{◌≡◌, refl, ℕ, String, true, false, some, List, [], ◌∷◌}
use sts2_training.Base.Int.{pos}
use sts2_training.Base.Outcome.{ok}
use sts2_training.Json.{Fields, field, end, str, get, lookup, fraction}
use sts2_training.Search.Coverage.{ActionCandidate, CandidateProposal, available_of, from_policy}
use sts2_training.Search.Coverage.Required.{
  is_regular_combat, has_some_type, system_type, card_type, potion_type, choice_card_type,
  completion_types,
}
use sts2_training.Search.Coverage.Apply.{structural, apply_structural_coverage_with_provenance}
use sts2_training.Search.Coverage.Fit.{IsFit}
use sts2_training.Search.Coverage.Sound.{apply-IsFit}
use sts2_training.Search.Coverage.Numbered.{IsNumbered}
use sts2_training.Search.Coverage.Retained.{
  Keeps, apply-Keeps_combat, apply-Keeps_potion, apply-Keeps_completion,
}
use sts2_training.Search.Coverage.Batch.{
  Request, constrained, AllFit, propose_batch_with_provenance, propose_batch-AllFit,
}

abbrev action : String → String → Fields
action id type = field "action_id" (str id) (field "action_type" (str type) end)

abbrev combat : List Fields
combat =
    action "c-1" "card" ∷ action "c-2" "card" ∷ action "p-1" "potion" ∷ action "end" "system" ∷ []

abbrev choice : List Fields
choice = action "k-1" "choice_card" ∷ action "k-2" "choice_card" ∷ action "ok" "choice_confirm" ∷ []

abbrev candidate : String → ActionCandidate
candidate id = record { action_id = id; action_score = some (fraction (pos 3) 1) }

abbrev cards : List ActionCandidate
cards = candidate "c-2" ∷ candidate "c-1" ∷ candidate "c-2" ∷ []

abbrev kept : CandidateProposal
kept = from_policy 0 0 (candidate "c-2")

abbrev numbered : CandidateProposal → ℕ → CandidateProposal
numbered p n = record p { post_coverage_rank = pos n }

abbrev of_combat : List CandidateProposal
of_combat = kept ∷ numbered (structural "end") 1 ∷ []

abbrev of_three : List CandidateProposal
of_three = kept ∷ numbered (structural "p-1") 1 ∷ numbered (structural "end") 2 ∷ []

abbrev of_choice : List CandidateProposal
of_choice = from_policy 0 0 (candidate "k-1") ∷ numbered (structural "ok") 1 ∷ []

combat_covered : apply_structural_coverage_with_provenance cards combat 2 ≡ ok of_combat
unfolding apply_structural_coverage_with_provenance get lookup
combat_covered = refl

three_covered : apply_structural_coverage_with_provenance cards combat 3 ≡ ok of_three
unfolding apply_structural_coverage_with_provenance get lookup
three_covered = refl

abbrev choices : List ActionCandidate
choices = candidate "k-1" ∷ candidate "k-2" ∷ []

choice_covered : apply_structural_coverage_with_provenance choices choice 2 ≡ ok of_choice
unfolding apply_structural_coverage_with_provenance get lookup
choice_covered = refl

is_combat : is_regular_combat (available_of combat) ≡ true
unfolding available_of get lookup
is_combat = refl

is_no_combat : is_regular_combat (available_of choice) ≡ false
unfolding available_of get lookup
is_no_combat = refl

is_choice : has_some_type (choice_card_type ∷ []) (available_of choice) ≡ true
unfolding available_of get lookup
is_choice = refl

apply-IsFit_example : IsFit (available_of combat) 2 cards of_combat × IsNumbered 0 of_combat
apply-IsFit_example = apply-IsFit cards combat 2 of_combat combat_covered

apply-Keeps_combat_example :
    Keeps (available_of combat) (system_type ∷ []) of_combat
    × Keeps (available_of combat) (card_type ∷ []) of_combat
apply-Keeps_combat_example = apply-Keeps_combat cards combat 0 of_combat combat_covered is_combat

apply-Keeps_potion_example : Keeps (available_of combat) (potion_type ∷ []) of_three
apply-Keeps_potion_example = apply-Keeps_potion cards combat 0 of_three three_covered is_combat

apply-Keeps_completion_example : Keeps (available_of choice) completion_types of_choice
apply-Keeps_completion_example =
    apply-Keeps_completion choices choice 0 of_choice choice_covered is_no_combat is_choice

abbrev requests : List Request
requests = (combat, end) ∷ (choice, end) ∷ []

abbrev rank : List Request → List (List ActionCandidate)
rank qs = cards ∷ choices ∷ []

batch_covered :
    propose_batch_with_provenance (constrained rank) requests 2 ≡ ok (of_combat ∷ of_choice ∷ [])
unfolding propose_batch_with_provenance get lookup
batch_covered = refl

propose_batch-AllFit_example : AllFit 2 (rank requests) requests (of_combat ∷ of_choice ∷ [])
propose_batch-AllFit_example =
    propose_batch-AllFit rank requests 2 (of_combat ∷ of_choice ∷ []) batch_covered
