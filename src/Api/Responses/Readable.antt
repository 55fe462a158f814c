-- ===== src/Api/Responses/Readable.antt =====
-- contract.py: when the checks of a response raise no error of a lookup.
use sts2_training.Base.{
  ◌≡◌, ◌≢◌, ◌⊎◌, refl, String, Bool, true, false, ◌||◌, Option, none, some, List, [], ◌∷◌, all,
  arith, Bool-cases, inl, inr, All, mem,
}
use sts2_training.Base.Outcome.{Result, ok, err, guard, ◌>>=◌, ◌>>◌}
use sts2_training.Json.{
  Fields, Items, end, field, Value, str, get, keys, lookup, to_list, is_null, hashable, as_mapping,
  as_items, py_eq,
}
use sts2_training.Api.Errors.{
  Exc, type_error, key_error, protocol_error, schema_version, or_protocol_error, member, is_one_of,
}
use sts2_training.Api.Kinds.{Raises, Raises-bind, Raises-guard, Raises-or}
use sts2_training.Api.Decision.{require_non_empty_str, require_response_match}
use sts2_training.Api.Decision.Kinds.{Raises-text, Raises-match, Raises-decision}
use sts2_training.Api.Interface.{IsReadable, replied}
use sts2_training.Api.Responses.{
  require_status, validate_branch_batch, need, need_item, expected_items, item_statuses,
  check_payload, check_result, check_results, validate_emulate_actions, check_refusal,
  check_operation, known_statuses, echoes, check_answer, check_texts, check_api_response, firsts,
  item_for, same_set, all_statuses, allowed_statuses, has_value, branch_operations, echoed_fields,
}

-- No TypeError and no KeyError.
abbrev pub IsCheckError : Exc → Type 0
IsCheckError type_error = ⊥
IsCheckError key_error = ⊥
IsCheckError e = Unit

-- The key of an item can be hashed.
abbrev IsKey : Option Value → Type 0
IsKey none = ⊥
IsKey (some v) = hashable v ≡ true

abbrev IsGiven : Option Value → Type 0
IsGiven none = ⊥
IsGiven (some v) = Unit

-- An item of a request has the parent and the RNG that the check of its result looks up.
abbrev HasOrigin : Fields → Type 0
HasOrigin item = IsGiven (lookup "parent_branch_id" item) × IsGiven (lookup "rng_id" item)

abbrev pub IsItem : Option Fields → Type 0
IsItem none = ⊥
IsItem (some item) = IsKey (lookup "branch_id" item) × HasOrigin item

abbrev pub AreItems : Option Items → Type 0
AreItems none = Unit
AreItems (some items) = All (λ v. IsItem (as_mapping v)) (to_list items)

abbrev pub AreKeys : Option Items → Type 0
AreKeys none = Unit
AreKeys (some ids) = all hashable (to_list ids) ≡ true

-- A request whose Branch ids can be looked up and whose items have their ids, where its operation has
-- them, as the client builds them.
pub record IsAsked (request : Fields) : Type 0 where
  pub branch_ids :
      is_one_of (get "operation" request) branch_operations ≡ true
      → AreKeys (as_items (get "branch_ids" request))
  pub items :
      is_one_of (get "operation" request) ("emulate_actions" ∷ []) ≡ true
      → AreItems (as_items (get "items" request))

-- The status of a result can be looked up.
abbrev pub IsResult : Option Fields → Type 0
IsResult none = Unit
IsResult (some result) = hashable (get "status" result) ≡ true

abbrev pub AreResults : Fields → Type 0
AreResults end = Unit
AreResults (field k v rest) = IsResult (as_mapping v) × AreResults rest

abbrev pub AreResultsOf : Option Fields → Type 0
AreResultsOf none = Unit
AreResultsOf (some results) = AreResults results

-- A response whose statuses and fault kind can be looked up, as the wire contract has them.
pub record IsTextual (response : Fields) : Type 0 where
  pub status : hashable (get "status" response) ≡ true
  pub fault_kind : hashable (get "fault_kind" response) ≡ true
  pub results : AreResultsOf (as_mapping (get "branch_results" response))

abbrev Fine : {A : Type 0} → Result Exc A → Type 0
Fine m = Raises IsCheckError m

Fine-bind :
    {A B : Type 0} (m : Result Exc A) (f : A → Result Exc B)
    → Fine m
    → ((a : A) → Fine (f a))
    → Fine (m >>= f)
Fine-bind m f h k = Raises-bind IsCheckError m f h k

-- what follows a guard may use what it tests
Fine-guard :
    {B : Type 0} (b : Bool) (m : Result Exc B)
    → (b ≡ true → Fine m)
    → Fine (guard b protocol_error >> m)
Fine-guard true m k = k refl
Fine-guard false m k = tt

Fine-member : (v : Value) (xs : List String) → hashable v ≡ true → Fine (member v xs)
unfolding member
Fine-member v xs h = rw h tt

Fine-status :
    (d : Fields) (xs : List String) → hashable (get "status" d) ≡ true → Fine (require_status d xs)
unfolding require_status
Fine-status d xs h =
    Fine-bind (member (get "status" d) xs) _ (Fine-member (get "status" d) xs h)
      λ b. Raises-guard IsCheckError tt b

-- The items of the request that the loop has collected.
abbrev AreOrigins : List (Value × Fields) → Type 0
AreOrigins xs = All (λ x. HasOrigin x.1) xs

abbrev Collected : Result Exc (List (Value × Fields)) → Type 0
Collected (ok xs) = AreOrigins xs
Collected (err e) = ⊥

module _ (acc : List (Value × Fields)) (vs : List Value)
    (next : (xs : List (Value × Fields)) → AreOrigins xs → Collected (expected_items xs vs))
    (h : AreOrigins acc) where
  Collected-key :
      (item : Fields) (o : Option Value)
      → IsKey o
      → HasOrigin item
      → Collected (
          need o >>= λ key.
          guard (hashable key) type_error >> expected_items ((key, item) ∷ acc) vs)
  Collected-key item none i g = i
  Collected-key item (some key) i g = rw i (next ((key, item) ∷ acc) (g, h))

  Collected-item :
      (v : Value) (o : Option Fields)
      → as_mapping v ≡ o
      → IsItem o
      → Collected (expected_items acc (v ∷ vs))
  unfolding expected_items
  Collected-item v none e i = elim i [ ]
  Collected-item v (some item) e i = rw e (Collected-key item (lookup "branch_id" item) i.0 i.1)

Collected-expected :
    (acc : List (Value × Fields)) (vs : List Value)
    → AreOrigins acc
    → All (λ v. IsItem (as_mapping v)) vs
    → Collected (expected_items acc vs)
unfolding expected_items
Collected-expected acc [] h k = h
Collected-expected acc (v ∷ vs) h k =
    Collected-item acc vs (λ xs g. Collected-expected xs vs g k.1) h v (as_mapping v) refl k.0

-- A Branch that the request names has its item.
abbrev IsFound : Option Fields → Type 0
IsFound none = ⊥
IsFound (some item) = HasOrigin item

IsFound-item_for :
    (k : String) (xs : List (Value × Fields))
    → AreOrigins xs
    → has_value (firsts xs) k ≡ true
    → IsFound (item_for k xs)
unfolding item_for
IsFound-item_for k [] h e = cc
IsFound-item_for k ((v, item) ∷ xs) h e = elim (Bool-cases (py_eq v (str k))) [
  | inl t ↦ rw t h.0
  | inr t ↦ rw t (IsFound-item_for k xs h.1 (ground arith))
]

Fine-payload : (v : Value) (d : Fields) → Fine (check_payload v d)
unfolding check_payload
Fine-payload v d =
    ground (arith, Raises-decision IsCheckError tt d, Raises-text IsCheckError tt d "error")

Fine-need : (o : Option Value) → IsGiven o → Fine (need o)
Fine-need none h = elim h [ ]
Fine-need (some v) h = tt

-- the checks that follow once the item of a result is found
Fine-found :
    (k : String) (d : Fields) (o : Option Fields)
    → IsFound o
    → Fine (
        need_item o >>= λ item.
        require_response_match d "branch_id" (str k)
        >> (need (lookup "parent_branch_id" item) >>= λ parent.
            require_response_match d "parent_branch_id" parent
            >> (need (lookup "rng_id" item) >>= λ rng.
                require_response_match d "rng_id" rng >> check_payload (get "status" d) d)))
Fine-found k d none h = elim h [ ]
Fine-found k d (some item) h =
    Fine-bind (require_response_match d "branch_id" (str k)) _ (Raises-match IsCheckError tt d _ _)
      λ u. Fine-bind (need (lookup "parent_branch_id" item)) _ (Fine-need _ h.0) λ parent.
        Fine-bind (require_response_match d "parent_branch_id" parent) _
          (Raises-match IsCheckError tt d _ _)
          λ u. Fine-bind (need (lookup "rng_id" item)) _ (Fine-need _ h.1) λ rng.
            Fine-bind (require_response_match d "rng_id" rng) _ (Raises-match IsCheckError tt d _ _)
              λ u. Fine-payload (get "status" d) d

Fine-result_of :
    (xs : List (Value × Fields)) (k : String) (v : Value) (o : Option Fields)
    → as_mapping v ≡ o
    → IsResult o
    → IsFound (item_for k xs)
    → Fine (check_result xs k v)
unfolding check_result
Fine-result_of xs k v none e h f = rw e tt
Fine-result_of xs k v (some d) e h f = rw e (
    Fine-bind (member (get "status" d) item_statuses) _ (Fine-member (get "status" d) _ h)
      λ b. Fine-guard b _ λ t. Fine-found k d (item_for k xs) f)

Fine-results :
    (xs : List (Value × Fields)) (d : Fields)
    → AreOrigins xs
    → AreResults d
    → all (has_value (firsts xs)) (keys d) ≡ true
    → Fine (check_results xs d)
unfolding check_results
Fine-results xs end h r e = tt
Fine-results xs (field k v d) h r e =
    Fine-bind (check_result xs k v) _
      (Fine-result_of xs k v (as_mapping v) refl r.0 (IsFound-item_for k xs h (ground arith)))
      λ u. Fine-results xs d h r.1 (ground arith)

same_set-has_value :
    (ks : List String) (vs : List Value) → same_set ks vs ≡ true → all (has_value vs) ks ≡ true
unfolding same_set
same_set-has_value ks vs h = ground arith

-- the checks after the items of the request are collected
Fine-Collected :
    (m : Result Exc (List (Value × Fields))) (d : Fields)
    → Collected m
    → AreResults d
    → Fine (m >>= λ xs. guard (same_set (keys d) (firsts xs)) protocol_error >> check_results xs d)
Fine-Collected (err e) d c r = elim c [ ]
Fine-Collected (ok xs) d c r =
    Fine-guard (same_set (keys d) (firsts xs)) (check_results xs d)
      λ t. Fine-results xs d c r (same_set-has_value (keys d) (firsts xs) t)

-- A completed answer to the operation of the request answers a request with its ids.
abbrev pub Fits : Fields → Fields → Type 0
Fits request response =
    IsAsked request
    ⊎ (is_one_of (get "status" response) ("completed" ∷ []) ≡ false)
    ⊎ (echoes request response "operation" ≡ false)

module _ (q r : Fields) (textual : IsTextual r) where
  Fine-emulated :
      (o : Option Fields) (p : Option Items)
      → AreResultsOf o
      → AreItems p
      → Fine (
          or_protocol_error o >>= λ results. or_protocol_error p >>= λ items.
          expected_items [] (to_list items) >>= λ xs.
          guard (same_set (keys results) (firsts xs)) protocol_error >> check_results xs results)
  Fine-emulated none p h k = tt
  Fine-emulated (some d) none h k = tt
  Fine-emulated (some d) (some items) h k =
      Fine-Collected (expected_items [] (to_list items)) d
        (Collected-expected [] (to_list items) tt k) h

  Fine-emulate_actions : AreItems (as_items (get "items" q)) → Fine (validate_emulate_actions q r)
  unfolding validate_emulate_actions
  Fine-emulate_actions items =
      Fine-bind (require_status r ("completed" ∷ [])) _ (Fine-status r _ textual.status) λ u.
        Fine-emulated (as_mapping (get "branch_results" r)) (as_items (get "items" q))
          textual.results items

  Fine-ids :
      (p : Option Items) (statuses : Fields)
      → AreKeys p
      → Fine (
          or_protocol_error p >>= λ ids.
          guard (all hashable (to_list ids)) type_error
          >> (guard (same_set (keys statuses) (to_list ids)) protocol_error
              >> guard
                  (all_statuses (allowed_statuses (get "operation" q)) statuses)
                  protocol_error))
  Fine-ids none statuses h = tt
  Fine-ids (some ids) statuses h = rw h (
      Fine-guard (same_set (keys statuses) (to_list ids)) _ λ t.
        Raises-guard IsCheckError tt (all_statuses (allowed_statuses (get "operation" q)) statuses))

  Fine-branch_batch : AreKeys (as_items (get "branch_ids" q)) → Fine (validate_branch_batch q r)
  unfolding validate_branch_batch
  Fine-branch_batch ids =
      Fine-bind (require_status r ("completed" ∷ [])) _ (Fine-status r _ textual.status) λ u.
        Fine-bind (or_protocol_error (as_mapping (get "branch_statuses" r))) _
          (Raises-or IsCheckError tt _)
          λ statuses. Fine-ids (as_items (get "branch_ids" q)) statuses ids

  abbrev IsUsable : Type 0
  IsUsable = IsAsked q ⊎ (is_one_of (get "status" r) ("completed" ∷ []) ≡ false)

  Fine-incomplete :
      is_one_of (get "status" r) ("completed" ∷ []) ≡ false
      → Fine (validate_branch_batch q r) × Fine (validate_emulate_actions q r)
  unfolding validate_branch_batch validate_emulate_actions require_status member
  Fine-incomplete n = (rw (textual.status, n) tt, rw (textual.status, n) tt)

  Fine-branches :
      IsUsable
      → is_one_of (get "operation" q) branch_operations ≡ true
      → Fine (validate_branch_batch q r)
  Fine-branches (inl a) o = Fine-branch_batch (a.branch_ids o)
  Fine-branches (inr n) o = (Fine-incomplete n).0

  Fine-emulations :
      IsUsable
      → is_one_of (get "operation" q) ("emulate_actions" ∷ []) ≡ true
      → Fine (validate_emulate_actions q r)
  Fine-emulations (inl a) o = Fine-emulate_actions (a.items o)
  Fine-emulations (inr n) o = (Fine-incomplete n).1

  Fine-operation : IsUsable → Fine (check_operation q r)
  unfolding check_operation
  Fine-operation u = elim (Bool-cases (is_one_of (get "operation" q) branch_operations)) [
    | inl o ↦ rw o (Fine-branches u o)
    | inr o ↦ rw o (elim (Bool-cases (is_one_of (get "operation" q) ("emulate_actions" ∷ []))) [
      | inl e ↦ rw e (Fine-emulations u e)
      | inr e ↦ rw e tt
    ])
  ]

  Fine-refusal : (s : String) → Fine (check_refusal s r)
  unfolding check_refusal
  Fine-refusal s = ground (arith, Raises-text IsCheckError tt r "error")

  Fine-answer : IsUsable → (s : String) → Fine (check_answer q s r)
  unfolding check_answer
  Fine-answer usable s = Fine-guard (mem s known_statuses) _ λ t.
      Fine-guard (is_null (get "instance_id" q) || echoes q r "instance_id") _ λ t.
        Fine-bind (check_refusal s r) _ (Fine-refusal s)
          λ u. Fine-bind (check_operation q r) _ (Fine-operation usable) λ u. tt

  Fine-texts : IsUsable → Fine (check_texts q r)
  unfolding check_texts
  Fine-texts usable =
      Fine-bind (require_non_empty_str r "server_epoch") _ (Raises-text IsCheckError tt r _) λ e.
        Fine-bind (require_non_empty_str r "status") _ (Raises-text IsCheckError tt r _)
          λ s. Fine-answer usable s

  not_echoed : echoes q r "operation" ≡ false → all (echoes q r) echoed_fields ≡ true → ⊥
  not_echoed e h = ground (arith, e, h)

  Fine-api_response : Fits q r → Fine (check_api_response q r)
  unfolding check_api_response
  Fine-api_response (inl a) =
      let h = Fine-texts (inl a) in
      Fine-guard (py_eq (get "schema_version" r) (str schema_version)) _
        λ t. Fine-guard (all (echoes q r) echoed_fields) _ λ t. h
  Fine-api_response (inr (inl n)) =
      let h = Fine-texts (inr n) in
      Fine-guard (py_eq (get "schema_version" r) (str schema_version)) _
        λ t. Fine-guard (all (echoes q r) echoed_fields) _ λ t. h
  Fine-api_response (inr (inr e)) =
      Fine-guard (py_eq (get "schema_version" r) (str schema_version)) _
        λ t. Fine-guard (all (echoes q r) echoed_fields) _ λ t. elim (not_echoed e t) [ ]

Fine-IsReadable : (m : Result Exc Fields) → Fine m → (m ≢ err type_error) × (m ≢ err key_error)
Fine-IsReadable (ok r) h = (λ e. cc, λ e. cc)
Fine-IsReadable (err type_error) h = elim h [ ]
Fine-IsReadable (err key_error) h = elim h [ ]
Fine-IsReadable (err e) h = ground arith

pub textual-IsReadable : (q r : Fields) → IsTextual r → Fits q r → IsReadable q (replied r)
textual-IsReadable q r t f =
    let h = Fine-IsReadable (check_api_response q r) (Fine-api_response q r t f) in
    (h.0, h.1, t.fault_kind)
