-- ===== src/Audit.antt =====
-- src/sts2_training/selection_log.py: the audit of selections, which keeps the latest public
-- Decision of each Branch and passes one event per selection to its logger.
pub mod Outcomes
pub mod Record
pub mod Sound
mod Tests
use sts2_training.Base.{
  String, Bool, true, false, not, ◌&&◌, ◌||◌, Option, none, some, List, [], ◌∷◌, if◌then◌else◌, mem,
  str_eq,
}
use sts2_training.Json.{Fields, Value, str, get, lookup, as_text, as_mapping}

-- one entry of `_decisions`: instance id, Branch id and the Decision
pub record Entry : Type 0 where
  pub instance : String
  pub branch : String
  pub decision : Fields

-- `events` is not a field of the class: what the logger was given, the latest first. A logger that
-- fails changes nothing.
pub record Audit : Type 0 where
  pub logging : Bool
  pub decisions : List Entry
  pub selection_request_id : Option String
  pub selection_branch_ids : List String
  pub events : List Fields

pub record Identity : Type 0 where
  pub request_id : String
  pub branch_id : String

abbrev identity_of : Option String → Option String → Option Identity
identity_of none branch = none
identity_of (some r) none = none
identity_of (some r) (some b) = some (record { request_id = r; branch_id = b })

abbrev or_source : Option String → String → Option String
or_source none source = as_text (str source)
or_source (some b) source = some b

-- _selection_identity
unfoldable pub selection_identity : Fields → String → Option Identity
selection_identity request source =
    identity_of (as_text (get "request_id" request))
      (or_source (as_text (get "branch_id" request)) source)

-- clear
unfoldable pub clear : Audit → Audit
clear a = record a { decisions = []; selection_request_id = none; selection_branch_ids = [] }

abbrev pub is_entry : String → String → Entry → Bool
is_entry i b e = str_eq e.instance i && str_eq e.branch b

abbrev pub drop_entry : String → String → List Entry → List Entry
drop_entry i b [] = []
drop_entry i b (e ∷ rest) =
    let kept = drop_entry i b rest in if is_entry i b e then kept else e ∷ kept

abbrev pub find_entry : String → String → List Entry → Option Fields
find_entry i b [] = none
find_entry i b (e ∷ rest) = if is_entry i b e then some e.decision else find_entry i b rest

abbrev pub drop_all : String → List String → List Entry → List Entry
drop_all i [] es = es
drop_all i (b ∷ bs) es = drop_all i bs (drop_entry i b es)

-- forget
unfoldable pub forget : String → List String → Audit → Audit
forget instance branch_ids a = record a { decisions = drop_all instance branch_ids a.decisions }

-- response.get("branch_id", "root")
abbrev pub or_root : Option Value → Value
or_root none = str "root"
or_root (some v) = v

abbrev put_if :
    Option String → Option String → Option String → Option Fields → Fields → Audit → Audit
put_if (some i) (some b) (some point) (some masked) response a = record a {
  decisions = record { instance = i; branch = b; decision = response } ∷ drop_entry i b a.decisions;
}
put_if i b point masked response a = a

-- remember
unfoldable pub remember : Fields → Audit → Audit
remember response a =
    if a.logging
    then put_if (as_text (get "instance_id" response))
        (as_text (or_root (lookup "branch_id" response)))
        (as_text (get "decision_point_id" response))
        (as_mapping (get "masked_emulator_dto" response)) response a
    else a

abbrev pub is_id : Option String → String → Bool
is_id none s = false
is_id (some t) s = str_eq t s

-- the part of _is_recovery that changes the audit
unfoldable pub enter_request : Option Identity → Audit → Audit
enter_request none a = a
enter_request (some d) a =
    if is_id a.selection_request_id d.request_id
    then a
    else record a { selection_request_id = some d.request_id; selection_branch_ids = [] }

abbrev pub knows : Option Identity → Audit → Bool
knows none a = false
knows (some d) a = mem d.branch_id a.selection_branch_ids

-- _is_recovery
unfoldable pub is_recovery : Option Identity → Audit → Bool
unfolding enter_request
is_recovery d a = knows d (enter_request d a)

-- _remember_selection
unfoldable pub remember_selection : Option Identity → Audit → Audit
remember_selection none a = a
remember_selection (some d) a = record a {
  selection_branch_ids = d.branch_id ∷ a.selection_branch_ids;
}
