-- ===== src/Api/Decision/Sound.antt =====
-- What an accepted Decision payload guarantees to the selection code that reads it.
use sts2_training.Base.{
  ◌≡◌, ◌≢◌, inl, inr, ◌⊎◌, not, All-map, ◌||◌, ◌&&◌, ◌⊎◌, inl, inr, refl, String, Bool, true, false,
  Option, none, some, List, [], ◌∷◌, mem, IsFresh-of_seen, IsFresh-cons, IsFresh, IsDistinct, arith,
  str_eq_iff, if◌then◌else◌, All,
}
use sts2_training.Base.Outcome.{ok, >>=-eq-ok, guard-eq-ok}
use sts2_training.Json.{
  has, Fields, Items, nil, cons, Value, str, obj, arr, get, as_text, as_mapping, as_items,
  py_eq_str,
}
use sts2_training.Api.Errors.{or_protocol_error, mask_version}
use sts2_training.Api.Decision.{
  is_empty, is_outcome, run_outcomes, combat_outcomes, check_actions, check_legal_actions,
  check_masked, check_presence, validate_decision_payload, combat_terminal, run_terminal,
  outcome_ok,
}

-- The action ids of a list of legal actions, in order; `none` where an entry has none.
abbrev id_of : Option Fields → Option String
id_of none = none
id_of (some a) = as_text (get "action_id" a)

abbrev ids_from : Option String → List String → List String
ids_from none ids = ids
ids_from (some i) ids = i ∷ ids

abbrev pub action_ids : Items → List String
action_ids nil = []
action_ids (cons v r) = ids_from (id_of (as_mapping v)) (action_ids r)

-- Every entry is a mapping with a non-empty id.
abbrev pub HasId : Value → Type 0
HasId v = (i : String) × (id_of (as_mapping v) ≡ some i)

abbrev pub AllHaveId : Items → Type 0
AllHaveId nil = Unit
AllHaveId (cons v r) = HasId v × AllHaveId r

abbrev NotSeen : List String → List String → Type 0
NotSeen seen ids = All (λ i. IsFresh i seen) ids

pub or_protocol_error-eq-ok :
    {A : Type 0} (o : Option A) {a : A} → or_protocol_error o ≡ ok a → o ≡ some a
or_protocol_error-eq-ok none h = cc
or_protocol_error-eq-ok (some a) h = ground arith

not-eq-true : (b : Bool) → not b ≡ true → b ≡ false
not-eq-true b h = ground arith

check_entry :
    (seen : List String) (v : Value) (rest : Items)
    → check_actions seen (cons v rest) ≡ ok tt
    → (i : String) × (id_of (as_mapping v) ≡ some i)
      × IsFresh i seen
      × (check_actions (i ∷ seen) rest ≡ ok tt)
unfolding check_actions
check_entry seen (obj a) rest h =
    let (i, e, h₁) = >>=-eq-ok _ _ h in (i, or_protocol_error-eq-ok _ e, ground arith, ground arith)
check_entry seen v rest h = cc

-- What the loop over `legal_actions` establishes.
record Scanned (seen : List String) (items : Items) : Type 0 where
  named : AllHaveId items
  unseen : NotSeen seen (action_ids items)
  distinct : IsDistinct (action_ids items)

Scanned-cons :
    (seen : List String) (v : Value) (rest : Items) (i : String)
    → id_of (as_mapping v) ≡ some i
    → IsFresh i seen
    → Scanned (i ∷ seen) rest
    → Scanned seen (cons v rest)
Scanned-cons seen v rest i e f s =
    let ids : List String = action_ids rest in
    let weaker : NotSeen seen ids = All-map _ _ ids (λ j g. IsFresh-cons seen i j g) s.unseen in
    let apart : IsFresh i ids = IsFresh-of_seen seen i ids s.unseen in
    record {
      named = ((i, e), s.named);
      unseen = rw e (f, weaker);
      distinct = rw e (apart, s.distinct);
    }

check_actions-Scanned :
    (seen : List String) (items : Items) → check_actions seen items ≡ ok tt → Scanned seen items
check_actions-Scanned seen nil h = record { named = tt; unseen = tt; distinct = tt }
check_actions-Scanned seen (cons v rest) h =
    let (i, e, f, h') = check_entry seen v rest h in
    Scanned-cons seen v rest i e f (check_actions-Scanned (i ∷ seen) rest h')

-- The guarantee for the list of legal actions of a state.
pub record IsActionList (terminal : Bool) (masked : Fields) : Type 0 where
  pub items : Items
  pub listed : get "legal_actions" masked ≡ arr items
  pub named : AllHaveId items
  pub distinct : IsDistinct (action_ids items)
  pub none_left : terminal ≡ true → items ≡ nil

pub as_items-eq-some : (v : Value) {items : Items} → as_items v ≡ some items → v ≡ arr items
as_items-eq-some (arr w) e = cc
as_items-eq-some v e = cc

pub as_mapping-eq-some : (v : Value) {d : Fields} → as_mapping v ≡ some d → v ≡ obj d
as_mapping-eq-some (obj w) e = cc
as_mapping-eq-some v e = cc

pub as_text-eq-some : (v : Value) {s : String} → as_text v ≡ some s → (v ≡ str s) × (s ≢ "")
as_text-eq-some (str w) {s} e = ground (arith, str_eq_iff w "")
as_text-eq-some v e = cc

empty_when :
    (terminal : Bool) (items : Items)
    → (not terminal || is_empty items) ≡ true
    → terminal ≡ true
    → items ≡ nil
empty_when terminal nil h t = refl
empty_when terminal (cons v r) h t = ground arith

check_legal_actions-IsActionList :
    (terminal : Bool) (masked : Fields)
    → check_legal_actions terminal masked ≡ ok tt
    → IsActionList terminal masked
unfolding check_legal_actions
check_legal_actions-IsActionList terminal masked h =
    let (items, e, h₁) = >>=-eq-ok _ _ h in
    let (_, g, h₂) = >>=-eq-ok _ _ h₁ in
    let s : Scanned [] items = check_actions-Scanned [] items h₂ in
    record {
      items = items;
      listed = as_items-eq-some _ (or_protocol_error-eq-ok _ e);
      named = s.named;
      distinct = s.distinct;
      none_left = empty_when terminal items (guard-eq-ok _ _ g);
    }

-- The public state of an accepted Decision.
pub record IsState (masked : Fields) : Type 0 where
  pub version : get "mask_version" masked ≡ str mask_version
  pub one_end : (combat_terminal masked && run_terminal masked) ≡ false
  pub ended :
      (combat_terminal masked || run_terminal masked) ≡ true
      → (s : String) × (get "outcome" masked ≡ str s)
        × (mem s (if run_terminal masked then run_outcomes else combat_outcomes) ≡ true)
  pub going_on :
      (combat_terminal masked || run_terminal masked) ≡ false → has "outcome" masked ≡ false
  pub actions :
      IsActionList (combat_terminal masked || run_terminal masked) masked
      ⊎ ((has "legal_actions" masked ≡ false) × (run_terminal masked ≡ true))

pub record IsDecision (response : Fields) : Type 0 where
  pub point : String
  pub has_point : get "decision_point_id" response ≡ str point
  pub point_text : point ≢ ""
  pub masked : Fields
  pub has_masked : get "masked_emulator_dto" response ≡ obj masked
  pub state : IsState masked

check_presence_actions :
    (b : Bool) (masked : Fields)
    → check_presence b masked ≡ ok tt
    → IsActionList (combat_terminal masked || run_terminal masked) masked
      ⊎ ((b ≡ false) × (run_terminal masked ≡ true))
unfolding check_presence
check_presence_actions true masked h = inl (check_legal_actions-IsActionList _ masked h)
check_presence_actions false masked h = inr (refl, guard-eq-ok _ _ h)

is_outcome-str :
    (v : Value) (valid : List String)
    → is_outcome v valid ≡ true
    → (s : String) × (v ≡ str s) × (mem s valid ≡ true)
is_outcome-str (str s) valid h = (s, refl, h)
is_outcome-str v valid h = cc

outcome_ended :
    (masked : Fields)
    → outcome_ok masked ≡ true
    → (combat_terminal masked || run_terminal masked) ≡ true
    → is_outcome
        (get "outcome" masked)
        (if run_terminal masked then run_outcomes else combat_outcomes)
      ≡ true
unfolding outcome_ok
outcome_ended masked h t = rw t at h

outcome_going_on :
    (masked : Fields)
    → outcome_ok masked ≡ true
    → (combat_terminal masked || run_terminal masked) ≡ false
    → has "outcome" masked ≡ false
unfolding outcome_ok
outcome_going_on masked h t = ground arith

check_masked-IsState : (masked : Fields) → check_masked masked ≡ ok tt → IsState masked
unfolding check_masked
check_masked-IsState masked h = record {
  version = py_eq_str (get "mask_version" masked) mask_version (ground arith);
  one_end = ground arith;
  ended = λ t. is_outcome-str _ _ (outcome_ended masked (ground arith) t);
  going_on = λ t. outcome_going_on masked (ground arith) t;
  actions = check_presence_actions (has "legal_actions" masked) masked (ground arith);
}

-- An accepted payload has a non-empty decision point and a masked state of the expected version
-- that is not both combat-terminal and run-terminal, has an outcome exactly when it is terminal,
-- and offers a list of legal actions with non-empty ids, no two alike, none of them in a terminal
-- state. Only a run-terminal state may leave the list out.
pub validate_decision_payload-IsDecision :
    (response : Fields) → validate_decision_payload response ≡ ok tt → IsDecision response
unfolding validate_decision_payload
validate_decision_payload-IsDecision response h =
    let (point, e, h₁) = >>=-eq-ok _ _ h in
    let (masked, g, h₂) = >>=-eq-ok _ _ h₁ in
    let p : (get "decision_point_id" response ≡ str point) × (point ≢ "") =
      as_text-eq-some _ (or_protocol_error-eq-ok _ e) in
    record {
      point = point;
      has_point = p.0;
      point_text = p.1;
      masked = masked;
      has_masked = as_mapping-eq-some _ (or_protocol_error-eq-ok _ g);
      state = check_masked-IsState masked h₂;
    }
