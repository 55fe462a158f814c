-- ===== src/Api/Responses/Branches.antt =====
-- What an accepted answer to a Branch operation says of each Branch.
use sts2_training.Base.{
  ◌≡◌, inl, inr, sym, subst, ◌∙◌, &&-eq-true, String, true, List, [], ◌∷◌, arith, mem, all, In,
  Bool-cases, str_eq, str_eq_iff,
}
use sts2_training.Base.Outcome.{ok, guard, >>=-eq-ok, guard-eq-ok}
use sts2_training.Json.{
  Fields, end, field, Items, Value, str, arr, obj, get, lookup, keys, to_list, hashable, as_items,
  as_mapping, py_eq,
}
use sts2_training.Api.Errors.{type_error, protocol_error, or_protocol_error, is_one_of}
use sts2_training.Api.Decision.Sound.{or_protocol_error-eq-ok, as_items-eq-some, as_mapping-eq-some}
use sts2_training.Api.Responses.{
  require_status, validate_branch_batch, same_set, has_key, all_statuses, allowed_statuses,
}

only_one : (v : Value) (s : String) → is_one_of v (s ∷ []) ≡ true → v ≡ str s
only_one (str t) s h = ground (arith, str_eq_iff t s)
only_one v s h = cc

status_of :
    (status s : String) (d : Fields)
    → all_statuses (status ∷ []) d ≡ true
    → mem s (keys d) ≡ true
    → get s d ≡ str status
unfolding all_statuses get lookup
status_of status s end h m = cc
status_of status s (field k v r) h m = elim (Bool-cases (str_eq k s)) [
  | inl e ↦ rw e (only_one v status (ground arith))
  | inr n ↦
      rw n (status_of status s r (ground arith) (ground (arith, str_eq_iff k s, str_eq_iff s k)))
]

has_key_of_all :
    (s : String) (ks : List String) (vs : List Value)
    → all (has_key ks) vs ≡ true
    → In (str s) vs
    → mem s ks ≡ true
unfolding py_eq
has_key_of_all s ks [] h m = elim m [ ]
has_key_of_all s ks (v ∷ vs) h (inl e) = subst (λ w. has_key ks w ≡ true) e (ground arith)
has_key_of_all s ks (v ∷ vs) h (inr m) = has_key_of_all s ks vs (ground arith) m

-- The response reports the status for the Branch s.
pub record IsReported (response : Fields) (status s : String) : Type 0 where
  pub statuses : Fields
  pub listed : get "branch_statuses" response ≡ obj statuses
  pub reported : get s statuses ≡ str status

keys_cover :
    (s : String) (ks : List String) (vs : List Value)
    → same_set ks vs ≡ true
    → In (str s) vs
    → mem s ks ≡ true
unfolding same_set
keys_cover s ks vs h m = has_key_of_all s ks vs (&&-eq-true _ _ h).1 m

-- An accepted answer to an operation that allows a single status, as a release does "released" and
-- a cancellation "cancelled", reports that status for every Branch that the request names.
pub validate_branch_batch-IsReported :
    (request response : Fields) (status s : String) (ids : Items)
    → allowed_statuses (get "operation" request) ≡ status ∷ []
    → get "branch_ids" request ≡ arr ids
    → In (str s) (to_list ids)
    → validate_branch_batch request response ≡ ok tt
    → IsReported response status s
unfolding validate_branch_batch
validate_branch_batch-IsReported request response status s ids one e m h =
    let (_, _, h₁) = >>=-eq-ok (require_status response ("completed" ∷ [])) _ h in
    let (statuses, a, h₂) =
      >>=-eq-ok (or_protocol_error (as_mapping (get "branch_statuses" response))) _ h₁ in
    let (named, b, h₃) = >>=-eq-ok (or_protocol_error (as_items (get "branch_ids" request))) _ h₂ in
    let (_, _, h₄) = >>=-eq-ok (guard (all hashable (to_list named)) type_error) _ h₃ in
    let (_, c, h₅) =
      >>=-eq-ok (guard (same_set (keys statuses) (to_list named)) protocol_error) _ h₄ in
    let n : arr named ≡ arr ids = sym (as_items-eq-some _ (or_protocol_error-eq-ok _ b)) ∙ e in
    let k : mem s (keys statuses) ≡ true =
      keys_cover s (keys statuses) (to_list named) (guard-eq-ok _ _ c)
        (subst (λ v. In (str s) (listed_of v)) (sym n) m) in
    record {
      statuses = statuses;
      listed = as_mapping-eq-some _ (or_protocol_error-eq-ok _ a);
      reported =
          status_of status s statuses
            (subst (λ xs. all_statuses xs statuses ≡ true) one (guard-eq-ok _ _ h₅)) k;
    }
  where
    listed_of : Value → List Value
    listed_of (arr items) = to_list items
    listed_of v = []
