-- ===== src/Api/Decision/Kinds.antt =====
-- The check of a Decision payload raises nothing but ApiProtocolError.
use sts2_training.Base.{String, Bool, true, false, not, ◌&&◌, ◌||◌, List, [], ◌∷◌, mem}
use sts2_training.Base.Outcome.{Result, guard, ◌>>◌}
use sts2_training.Json.{
  Fields, Items, nil, cons, Value, str, get, has, as_mapping, as_items, as_text, py_eq,
}
use sts2_training.Api.Errors.{mask_version, or_protocol_error, Exc, protocol_error}
use sts2_training.Api.Kinds.{Raises, Raises-bind, Raises-guard, Raises-or}
use sts2_training.Api.Decision.{
  require_non_empty_str, require_response_match, validate_decision_payload, check_masked,
  check_presence, check_legal_actions, check_actions, marker_ok, outcome_ok, is_empty,
  optional_fields_ok, run_terminal, combat_terminal,
}

module _ (K : Exc → Type 0) (p : K protocol_error) where
  pub Raises-text : (d : Fields) (name : String) → Raises K (require_non_empty_str d name)
  unfolding require_non_empty_str
  Raises-text d name = Raises-or K p (as_text (get name d))

  pub Raises-match :
      (d : Fields) (name : String) (v : Value) → Raises K (require_response_match d name v)
  unfolding require_response_match
  Raises-match d name v = Raises-guard K p _

  guard_then :
      (b : Bool) (m : Result Exc (Unit {0})) → Raises K m → Raises K (guard b protocol_error >> m)
  guard_then true m h = h
  guard_then false m h = p

  Raises-actions : (seen : List String) (items : Items) → Raises K (check_actions seen items)
  unfolding check_actions
  Raises-actions seen nil = tt
  Raises-actions seen (cons v rest) =
      Raises-bind K (or_protocol_error (as_mapping v)) _ (Raises-or K p (as_mapping v)) λ a.
        Raises-bind K (require_non_empty_str a "action_id") _ (Raises-text a "action_id") λ i.
          guard_then (not (mem i seen)) _
            (guard_then (optional_fields_ok a) _ (Raises-actions (i ∷ seen) rest))

  Raises-legal : (b : Bool) (d : Fields) → Raises K (check_legal_actions b d)
  unfolding check_legal_actions
  Raises-legal b d =
      Raises-bind K (or_protocol_error (as_items (get "legal_actions" d))) _ (Raises-or K p _)
        λ items. guard_then (not b || is_empty items) _ (Raises-actions [] items)

  Raises-presence : (b : Bool) (d : Fields) → Raises K (check_presence b d)
  unfolding check_presence
  Raises-presence true d = Raises-legal _ d
  Raises-presence false d = Raises-guard K p _

  Raises-masked : (d : Fields) → Raises K (check_masked d)
  unfolding check_masked
  Raises-masked d = guard_then (py_eq (get "mask_version" d) (str mask_version)) _ (
      guard_then (marker_ok d "terminal" && marker_ok d "run_terminal") _ (
        guard_then (not (combat_terminal d && run_terminal d)) _
          (guard_then (outcome_ok d) _ (Raises-presence (has "legal_actions" d) d))))

  pub Raises-decision : (d : Fields) → Raises K (validate_decision_payload d)
  unfolding validate_decision_payload
  Raises-decision d =
      Raises-bind K (require_non_empty_str d "decision_point_id") _ (Raises-text d _) λ i.
        Raises-bind K (or_protocol_error (as_mapping (get "masked_emulator_dto" d))) _
          (Raises-or K p _) λ masked. Raises-masked masked
