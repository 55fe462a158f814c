-- ===== src/Api/Responses/Kinds.antt =====
-- Which exceptions the check of a response raises.
use sts2_training.Base.{String, ◌||◌, List, [], ◌∷◌, arith, mem}
use sts2_training.Base.Outcome.{guard}
use sts2_training.Json.{
  Fields, end, field, Value, get, to_list, lookup, as_mapping, as_items, is_null,
}
use sts2_training.Api.Errors.{or_protocol_error, protocol_error, member}
use sts2_training.Api.Kinds.{Kind, Raises, Raises-bind, Raises-guard, Raises-or, Raises-member}
use sts2_training.Api.Decision.{require_non_empty_str}
use sts2_training.Api.Decision.Kinds.{Raises-text, Raises-decision}
use sts2_training.Api.Responses.{
  require_status, validate_branch_batch, need, subscripted, expected_items, item_statuses,
  check_payload, check_result, check_results, validate_emulate_actions, check_refusal,
  check_operation, known_statuses, echoes, check_answer, check_texts, check_api_response,
}

module _ (r : Fields) where
  Raises-status : (d : Fields) (xs : List String) → Raises (Kind r) (require_status d xs)
  unfolding require_status
  Raises-status d xs =
      Raises-bind (Kind r) (member (get "status" d) xs) _ (Raises-member r _ xs)
        λ b. Raises-guard (Kind r) tt b

  Raises-branch_batch : (q d : Fields) → Raises (Kind r) (validate_branch_batch q d)
  unfolding validate_branch_batch
  Raises-branch_batch q d =
      Raises-bind (Kind r) (require_status d ("completed" ∷ [])) _ (Raises-status d _) λ u.
        Raises-bind (Kind r) (or_protocol_error (as_mapping (get "branch_statuses" d))) _
          (Raises-or (Kind r) tt _)
          λ statuses.
            Raises-bind (Kind r) (or_protocol_error (as_items (get "branch_ids" q))) _
              (Raises-or (Kind r) tt _) λ ids. ground arith

  Raises-expected :
      (acc : List (Value × Fields)) (vs : List Value) → Raises (Kind r) (expected_items acc vs)
  unfolding expected_items
  Raises-expected acc [] = tt
  Raises-expected acc (v ∷ rest) =
      Raises-bind (Kind r) (subscripted (as_mapping v)) _ (ground arith) λ item.
        Raises-bind (Kind r) (need (lookup "branch_id" item)) _ (ground arith)
          λ key. ground (arith, Raises-expected ((key, item) ∷ acc) rest)

  Raises-payload : (v : Value) (d : Fields) → Raises (Kind r) (check_payload v d)
  unfolding check_payload
  Raises-payload v d =
      ground (arith, Raises-decision (Kind r) tt d, Raises-text (Kind r) tt d "error")

  Raises-result :
      (xs : List (Value × Fields)) (k : String) (v : Value) → Raises (Kind r) (check_result xs k v)
  unfolding check_result
  Raises-result xs k v =
      Raises-bind (Kind r) (or_protocol_error (as_mapping v)) _ (Raises-or (Kind r) tt _) λ d.
        Raises-bind (Kind r) (member (get "status" d) item_statuses) _ (Raises-member r _ _)
          λ b. ground (arith, Raises-payload (get "status" d) d)

  Raises-results : (xs : List (Value × Fields)) (d : Fields) → Raises (Kind r) (check_results xs d)
  unfolding check_results
  Raises-results xs end = tt
  Raises-results xs (field k v d) =
      Raises-bind (Kind r) (check_result xs k v) _ (Raises-result xs k v) λ u. Raises-results xs d

  Raises-emulate_actions : (q d : Fields) → Raises (Kind r) (validate_emulate_actions q d)
  unfolding validate_emulate_actions
  Raises-emulate_actions q d =
      Raises-bind (Kind r) (require_status d ("completed" ∷ [])) _ (Raises-status d _) λ u.
        Raises-bind (Kind r) (or_protocol_error (as_mapping (get "branch_results" d))) _
          (Raises-or (Kind r) tt _)
          λ results.
            Raises-bind (Kind r) (or_protocol_error (as_items (get "items" q))) _
              (Raises-or (Kind r) tt _)
              λ items.
                Raises-bind (Kind r) (expected_items [] (to_list items)) _
                  (Raises-expected [] (to_list items))
                  λ xs. ground (arith, Raises-results xs results)

  Raises-operation : (q d : Fields) → Raises (Kind r) (check_operation q d)
  unfolding check_operation
  Raises-operation q d = ground (arith, Raises-branch_batch q d, Raises-emulate_actions q d)

  Raises-refusal : (s : String) → Raises (Kind r) (check_refusal s r)
  unfolding check_refusal
  Raises-refusal s = ground (arith, Raises-text (Kind r) tt r "error")

  Raises-answer : (q : Fields) (s : String) → Raises (Kind r) (check_answer q s r)
  unfolding check_answer
  Raises-answer q s =
      Raises-bind (Kind r) (guard (mem s known_statuses) protocol_error) _
        (Raises-guard (Kind r) tt _)
        λ u.
          Raises-bind (Kind r)
            (guard (is_null (get "instance_id" q) || echoes q r "instance_id") protocol_error) _
            (Raises-guard (Kind r) tt _)
            λ u.
              Raises-bind (Kind r) (check_refusal s r) _ (Raises-refusal s)
                λ u. Raises-bind (Kind r) (check_operation q r) _ (Raises-operation q r) λ u. tt

  Raises-texts : (q : Fields) → Raises (Kind r) (check_texts q r)
  unfolding check_texts
  Raises-texts q =
      Raises-bind (Kind r) (require_non_empty_str r "server_epoch") _ (Raises-text (Kind r) tt r _)
        λ epoch.
          Raises-bind (Kind r) (require_non_empty_str r "status") _ (Raises-text (Kind r) tt r _)
            λ status. Raises-answer q status

  -- A response is refused as a protocol violation, as the refusal that it carries itself, or by a
  -- TypeError or KeyError of a lookup.
  pub Raises-api_response : (q : Fields) → Raises (Kind r) (check_api_response q r)
  unfolding check_api_response
  Raises-api_response q = ground (arith, Raises-texts q)
