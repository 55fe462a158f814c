-- ===== src/Search/Coverage/Apply.antt =====
-- candidate_coverage.py: the required actions enter the ranking, one by one.
use sts2_training.Base.{
  ℕ, suc, String, Option, none, some, List, [], ◌∷◌, ◌++◌, length, take, mem, ltb, ◌==◌,
  if◌then◌else◌,
}
use sts2_training.Base.Int.{pos, negsuc}
use sts2_training.Base.Outcome.{Result, ok, err}
use sts2_training.Json.{Fields}
use sts2_training.Api.Errors.{Exc, value_error}
use sts2_training.Search.Coverage.{
  Action, ActionCandidate, CandidateProposal, proposed, proposed_ids, available_of, take_ranked,
}
use sts2_training.Search.Coverage.Required.{required_action_ids}

-- the proposal of a required action
abbrev pub structural : String → CandidateProposal
structural i = record {
  candidate = record { action_id = i; action_score = none };
  policy_rank = none;
  policy_score = none;
  post_coverage_rank = negsuc 0;
  candidate_source = "structural_coverage";
}

-- the last proposal that is not protected gives way
abbrev pub replace_last :
    List String → CandidateProposal → List CandidateProposal → Option (List CandidateProposal)
replace_last protected r [] = none
replace_last protected r (p ∷ ps) =
    let later = replace_last protected r ps in
    elim later [
      | some qs ↦ some (p ∷ qs)
      | none ↦ if mem (proposed p) protected then none else some (r ∷ ps)
    ]

abbrev pub or_unchanged :
    List CandidateProposal → Option (List CandidateProposal) → List CandidateProposal
or_unchanged ps none = ps
or_unchanged ps (some qs) = qs

-- one required action
unfoldable pub cover_one :
    List String → ℕ → String → List CandidateProposal → List CandidateProposal
cover_one protected top_k i ps =
    if mem i (proposed_ids ps)
    then ps
    else if ltb (length ps) top_k
    then ps ++ (structural i ∷ [])
    else or_unchanged ps (replace_last protected (structural i) ps)

abbrev pub cover : List String → ℕ → List String → List CandidateProposal → List CandidateProposal
cover protected top_k [] ps = ps
cover protected top_k (i ∷ rest) ps = cover protected top_k rest (cover_one protected top_k i ps)

-- the places after the coverage
abbrev pub renumber : ℕ → List CandidateProposal → List CandidateProposal
renumber index [] = []
renumber index (p ∷ ps) = record p { post_coverage_rank = pos index } ∷ renumber (suc index) ps

unfoldable pub covered : List Action → ℕ → List CandidateProposal → List CandidateProposal
unfolding required_action_ids cover_one
covered available top_k selected =
    let required = required_action_ids selected available top_k in
    renumber 0 (take top_k (cover required top_k required selected))

abbrev pub covered_if :
    List Action → ℕ → Result Exc (List CandidateProposal) → Result Exc (List CandidateProposal)
covered_if available top_k (ok selected) = ok (covered available top_k selected)
covered_if available top_k (err e) = err e

-- apply_structural_coverage_with_provenance; an int that is no positive one is refused
unfoldable pub apply_structural_coverage_with_provenance :
    List ActionCandidate → List Fields → ℕ → Result Exc (List CandidateProposal)
unfolding covered take_ranked available_of
apply_structural_coverage_with_provenance ranked legal_actions top_k =
    let available = available_of legal_actions in
    if top_k == 0
    then err value_error
    else covered_if available top_k (take_ranked available top_k 0 0 [] ranked)
