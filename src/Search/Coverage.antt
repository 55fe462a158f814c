-- ===== src/Search/Coverage.antt =====
-- src/sts2_training/decision/candidate_coverage.py, with ActionCandidate of policy.py: the actions
-- that are tried, after the policy has ranked them.
pub mod Required
pub mod Apply
pub mod Replaced
pub mod Fit
pub mod Ranked
pub mod Legal
pub mod Numbered
pub mod Sound
pub mod Retained
pub mod Batch
mod Tests
use sts2_training.Base.{
  ℕ, zero, suc, String, Bool, true, false, not, ◌&&◌, ◌||◌, Option, none, some, List, [], ◌∷◌, ◌++◌,
  length, take, any, mem, map, leb, ltb, if◌then◌else◌, str_eq,
}
use sts2_training.Base.Int.{ℤ, pos, negsuc}
use sts2_training.Base.Outcome.{Result, ok, err, ◌>>=◌}
use sts2_training.Json.{Fields, Value, bool, str, get, Float, fraction, nan, inf}
use sts2_training.Search.Scope.{is_available, text}
use sts2_training.Api.Errors.{Exc, value_error, runtime_error}

pub record ActionCandidate : Type 0 where
  pub action_id : String
  pub action_score : Option Float

pub record CandidateProposal : Type 0 where
  pub candidate : ActionCandidate
  pub policy_rank : Option ℕ
  pub policy_score : Option Float
  pub post_coverage_rank : ℤ
  pub candidate_source : String

-- a legal action that is available, by what the coverage reads of it
pub record Action : Type 0 where
  pub id : String
  pub type : String

abbrev pub proposed : CandidateProposal → String
proposed p = p.candidate.action_id

abbrev pub ids : List Action → List String
ids actions = map (λ a. a.id) actions

abbrev pub proposed_ids : List CandidateProposal → List String
proposed_ids ps = map proposed ps

abbrev action_of : Option String → Option String → Option Action
action_of (some id) (some type) = some (record { id = id; type = type })
action_of id type = none

abbrev available_action : Fields → Option Action
available_action a =
    if is_available a
    then action_of (text (get "action_id" a)) (text (get "action_type" a))
    else none

abbrev cons_some : Option Action → List Action → List Action
cons_some none rest = rest
cons_some (some a) rest = a ∷ rest

-- the comprehension `available`
unfoldable pub available_of : List Fields → List Action
unfolding get
available_of [] = []
available_of (a ∷ rest) = cons_some (available_action a) (available_of rest)

-- by_id.get: the last action with the id
abbrev pub by_id : String → List Action → Option Action
by_id i [] = none
by_id i (a ∷ rest) =
    let later = by_id i rest in
    elim later [ some b ↦ some b | none ↦ if str_eq a.id i then some a else none ]

abbrev is_finite : Float → Bool
is_finite (fraction m k) = true
is_finite x = false

-- _action_score
unfoldable pub action_score : ActionCandidate → Option Float
action_score c = elim c.action_score [ none ↦ none | some x ↦ if is_finite x then some x else none ]

abbrev pub from_policy : ℕ → ℕ → ActionCandidate → CandidateProposal
from_policy rank place c = record {
  candidate = c;
  policy_rank = some rank;
  policy_score = action_score c;
  post_coverage_rank = pos place;
  candidate_source = "policy";
}

abbrev pub put : {A : Type 0} → A → Result Exc (List A) → Result Exc (List A)
put p (ok ps) = ok (p ∷ ps)
put p (err e) = err e

-- the loop over the ranking; `place` is the number of the proposals so far
unfoldable pub take_ranked :
    List Action
    → ℕ
    → ℕ
    → ℕ
    → List String
    → List ActionCandidate
    → Result Exc (List CandidateProposal)
take_ranked available top_k rank place seen [] = ok []
take_ranked available top_k rank place seen (c ∷ cs) =
    let skipped = take_ranked available top_k (suc rank) place seen cs in
    let taken = take_ranked available top_k (suc rank) (suc place) (c.action_id ∷ seen) cs in
    if not (mem c.action_id (ids available))
    then err runtime_error
    else if mem c.action_id seen
    then skipped
    else if leb top_k (suc place)
    then ok (from_policy rank place c ∷ [])
    else put (from_policy rank place c) taken
