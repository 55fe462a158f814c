-- ===== src/Api/Wire/Built.antt =====
-- Every request that the client builds has the session and the number that it is built with.
use sts2_training.Base.{
  ℕ, ◌≡◌, refl, String, Option, some, List, not, str_eq, ltb, Bool-cases, inl, inr,
}
use sts2_training.Base.Outcome.{Result, ok, err, guard, ◌>>=◌}
use sts2_training.Json.{Fields, Value, str, field, get, as_positive}
use sts2_training.Api.Errors.{Exc, value_error, root_branch_id}
use sts2_training.Api.Requests.{
  new_request, build_start_instance, build_close_instance, build_get_decision, build_commit_action,
  build_emulate_action, check_rng, with_options, item_fields, validate_instance_id,
  validate_non_empty_str,
}
use sts2_training.Api.Requests.Batch.{
  checked_items, batch_fields, normalize_branch_ids, build_emulate_actions,
  build_branch_batch_operation,
}
use sts2_training.Api.Client.{seq_of, session_of}

-- What holds of a result, if there is one.
abbrev pub Returns : {A : Type 0} → (A → Type 0) → Result Exc A → Type 0
Returns P (ok a) = P a
Returns P (err e) = Unit

pub Returns-bind :
    {A B : Type 0} (P : B → Type 0) (m : Result Exc A) (f : A → Result Exc B)
    → ((a : A) → Returns P (f a))
    → Returns P (m >>= f)
Returns-bind P (ok a) f h = h a
Returns-bind P (err e) f h = tt

abbrev pub Own : String → ℕ → Fields → Type 0
Own session seq q = (seq_of q ≡ some seq) × (session_of q ≡ some session)

module _ (session : String) (seq : ℕ) where
  new_request-Own :
      (operation : String) (fields : Fields)
      → Returns (Own session seq) (new_request session seq operation fields)
  unfolding new_request seq_of session_of get
  new_request-Own operation fields = elim (Bool-cases (ltb 0 seq)) [
    | inl e ↦ rw e (refl, refl)
    | inr e ↦ rw e tt
  ]

  pub build_start_instance-Own :
      (config : Fields) → Returns (Own session seq) (build_start_instance session seq config)
  unfolding build_start_instance
  build_start_instance-Own config = new_request-Own _ _

  pub build_close_instance-Own :
      (active : Option String) (i : String)
      → Returns (Own session seq) (build_close_instance session active seq i)
  unfolding build_close_instance
  build_close_instance-Own active i =
      Returns-bind (Own session seq) (validate_instance_id active i) _ λ u. new_request-Own _ _

  pub build_get_decision-Own :
      (active : Option String) (i b : String)
      → Returns (Own session seq) (build_get_decision session active seq i b)
  unfolding build_get_decision
  build_get_decision-Own active i b =
      Returns-bind (Own session seq) (validate_instance_id active i) _ λ u.
        Returns-bind (Own session seq) (validate_non_empty_str (str b)) _ λ s. new_request-Own _ _

  pub build_commit_action-Own :
      (active : Option String) (i p a : String)
      → Returns (Own session seq) (build_commit_action session active seq i p a)
  unfolding build_commit_action
  build_commit_action-Own active i p a =
      Returns-bind (Own session seq) (validate_instance_id active i) _ λ u.
        Returns-bind (Own session seq) (validate_non_empty_str (str p)) _ λ s.
          Returns-bind (Own session seq) (validate_non_empty_str (str a)) _ λ s. new_request-Own _ _

  pub build_emulate_action-Own :
      (active : Option String) (i p b : String) (r : Value) (d a : String) (o : Option Fields)
      → Returns (Own session seq) (build_emulate_action session active seq i p b r d a o)
  unfolding build_emulate_action
  build_emulate_action-Own active i p b r d a o =
      Returns-bind (Own session seq) (validate_instance_id active i) _ λ u.
        Returns-bind (Own session seq) (validate_non_empty_str (str p)) _ λ s.
          Returns-bind (Own session seq) (validate_non_empty_str (str b)) _ λ s.
            Returns-bind (Own session seq) (validate_non_empty_str (str d)) _ λ s.
              Returns-bind (Own session seq) (validate_non_empty_str (str a)) _ λ s.
                Returns-bind (Own session seq) (guard (not (str_eq b root_branch_id)) value_error) _
                  λ u. Returns-bind (Own session seq) (check_rng (as_positive r)) _ λ n.
                    Returns-bind (Own session seq)
                      (with_options (field "instance_id" (str i) (item_fields p b n d a)) o) _
                      λ f. new_request-Own "emulate_action" f

  pub build_emulate_actions-Own :
      (active : Option String) (limit : Option ℕ) (i : String) (items : List Value)
      (o : Option Fields)
      → Returns (Own session seq) (build_emulate_actions session active limit seq i items o)
  unfolding build_emulate_actions
  build_emulate_actions-Own active limit i items o =
      Returns-bind (Own session seq) (validate_instance_id active i) _ λ u.
        Returns-bind (Own session seq) (checked_items limit items) _ λ xs.
          Returns-bind (Own session seq) (with_options (batch_fields i xs) o) _
            λ f. new_request-Own "emulate_actions" f

  pub build_branch_batch_operation-Own :
      (active : Option String) (op i : String) (ids : List String)
      → Returns (Own session seq) (build_branch_batch_operation session active seq op i ids)
  unfolding build_branch_batch_operation
  build_branch_batch_operation-Own active op i ids =
      Returns-bind (Own session seq) (validate_instance_id active i) _
        λ u. Returns-bind (Own session seq) (normalize_branch_ids ids) _ λ xs. new_request-Own _ _
