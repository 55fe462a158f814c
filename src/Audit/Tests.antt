-- ===== src/Audit/Tests.antt =====
-- An audit of two Branches, and one selection whose end is unknown.
use sts2_training.Base.{◌≡◌, refl, String, true, none, some, [], ◌∷◌, mem, if◌then◌else◌}
use sts2_training.Json.{Fields, field, end, str, obj, get, lookup, as_text, as_mapping}
use sts2_training.Api.Errors.{transport_error}
use sts2_training.Audit.{
  Audit, Entry, Identity, selection_identity, forget, remember, find_entry, is_recovery, or_root,
}
use sts2_training.Audit.Record.{Python, record_with}
use sts2_training.Audit.Sound.{forget-find_entry, remember-find_entry, record_with-is_recovery}

abbrev python : Python
python = record { lower = λ s. s; show = λ v. ""; describe = λ e. end }

abbrev shown : Fields
shown = field "instance_id" (str "i-1") (
    field "branch_id" (str "b-1")
      (field "decision_point_id" (str "d-1") (field "masked_emulator_dto" (obj end) end)))

abbrev entry : String → Entry
entry b = record { instance = "i-1"; branch = b; decision = shown }

abbrev two_branches : Audit
two_branches = record {
  logging = true;
  decisions = entry "b-1" ∷ entry "b-2" ∷ [];
  selection_request_id = none;
  selection_branch_ids = [];
  events = [];
}

forget-find_entry_example :
    find_entry "i-1" "b-2" (forget "i-1" ("b-1" ∷ []) two_branches).decisions
    ≡ (if mem "b-2" ("b-1" ∷ []) then none else find_entry "i-1" "b-2" two_branches.decisions)
forget-find_entry_example = forget-find_entry "i-1" "b-2" ("b-1" ∷ []) two_branches

has_instance : as_text (get "instance_id" shown) ≡ some "i-1"
unfolding get lookup
has_instance = refl

has_branch : as_text (or_root (lookup "branch_id" shown)) ≡ some "b-1"
unfolding lookup
has_branch = refl

has_point : as_text (get "decision_point_id" shown) ≡ some "d-1"
unfolding get lookup
has_point = refl

has_masked : as_mapping (get "masked_emulator_dto" shown) ≡ some end
unfolding get lookup
has_masked = refl

remember-find_entry_example :
    find_entry "i-1" "b-1" (remember shown two_branches).decisions ≡ some shown
remember-find_entry_example =
    remember-find_entry shown two_branches "i-1" "b-1" "d-1" end refl has_instance has_branch
      has_point has_masked

abbrev chosen : Fields
chosen =
    field "request_id" (str "s-1:3")
      (field "branch_id" (str "b-3") (field "operation" (str "emulate_action") end))

abbrev chosen_identity : Identity
chosen_identity = record { request_id = "s-1:3"; branch_id = "b-3" }

chosen_identified : selection_identity chosen "b-1" ≡ some chosen_identity
unfolding selection_identity get lookup
chosen_identified = refl

record_with-is_recovery_example :
    is_recovery
      (some chosen_identity)
      (record_with python chosen "b-1" none
        (some (transport_error true none))
        (some shown)
        two_branches).1
    ≡ true
record_with-is_recovery_example =
    record_with-is_recovery python chosen "b-1" none (transport_error true none) (some shown)
      two_branches chosen_identity chosen_identified
