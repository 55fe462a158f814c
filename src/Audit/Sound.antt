-- ===== src/Audit/Sound.antt =====
-- What the audit keeps, and how it tells a replay from a new selection.
use sts2_training.Base.{
  ◌≡◌, inl, inr, refl, sym, ◌∙◌, String, true, false, Option, none, some, List, [], ◌∷◌,
  if◌then◌else◌, mem, str_eq, str_eq_iff, Bool-cases, arith,
}
use sts2_training.Base.Outcome.{ok}
use sts2_training.Json.{Fields, get, lookup, as_text, as_mapping}
use sts2_training.Api.Errors.{Exc}
use sts2_training.Audit.{
  Audit, Entry, Identity, selection_identity, forget, remember, is_entry, drop_entry, drop_all,
  find_entry, enter_request, is_recovery, remember_selection, or_root, is_id, knows,
}
use sts2_training.Audit.Record.{Python, record_with, settle, log, remember_unless, event_of}

entry_of_same :
    (i b c : String) (e : Entry)
    → is_entry i b e ≡ true
    → str_eq b c ≡ false
    → is_entry i c e ≡ false
entry_of_same i b c e h n =
    ground (arith, str_eq_iff e.branch b, str_eq_iff e.branch c, str_eq_iff b c)

find-drop_entry : (i b : String) (es : List Entry) → find_entry i b (drop_entry i b es) ≡ none
find-drop_entry i b [] = refl
find-drop_entry i b (e ∷ rest) = elim (Bool-cases (is_entry i b e)) [
  | inl h ↦ rw h (find-drop_entry i b rest)
  | inr h ↦ rw (h, h) (find-drop_entry i b rest)
]

find-drop_other :
    (i b c : String) (es : List Entry)
    → str_eq b c ≡ false
    → find_entry i c (drop_entry i b es) ≡ find_entry i c es
find-drop_other i b c [] n = refl
find-drop_other i b c (e ∷ rest) n = elim (Bool-cases (is_entry i b e)) [
  | inl h ↦ rw (h, entry_of_same i b c e h n) (find-drop_other i b c rest n)
  | inr h ↦ elim (Bool-cases (is_entry i c e)) [
    | inl k ↦ rw (h, k)
    | inr k ↦ rw (h, k) (find-drop_other i b c rest n)
  ]
]

find-drop_none :
    (i c : String) (bs : List String) (es : List Entry)
    → find_entry i c es ≡ none
    → find_entry i c (drop_all i bs es) ≡ none
find-drop_none i c [] es h = h
find-drop_none i c (b ∷ bs) es h = elim (Bool-cases (str_eq b c)) [
  | inl e ↦
      find-drop_none i c bs (drop_entry i b es) (rw ((str_eq_iff b c).0 e) (find-drop_entry i c es))
  | inr n ↦ find-drop_none i c bs (drop_entry i b es) (find-drop_other i b c es n ∙ h)
]

find-drop_all :
    (i c : String) (bs : List String) (es : List Entry)
    → find_entry i c (drop_all i bs es) ≡ (if mem c bs then none else find_entry i c es)
find-drop_all i c [] es = refl
find-drop_all i c (b ∷ bs) es = elim (Bool-cases (str_eq c b)) [
  | inl e ↦ rw e (
      find-drop_none i c bs (drop_entry i b es)
        (rw (sym ((str_eq_iff c b).0 e)) (find-drop_entry i c es)))
  | inr n ↦
      rw (n, sym (find-drop_other i b c es (ground (arith, str_eq_iff c b, str_eq_iff b c))))
        (find-drop_all i c bs (drop_entry i b es))
]

-- After forget, the Decisions of the named Branches of that instance are gone, and those of its
-- other Branches are what they were.
pub forget-find_entry :
    (i c : String) (bs : List String) (a : Audit)
    → find_entry i c (forget i bs a).decisions
      ≡ (if mem c bs then none else find_entry i c a.decisions)
unfolding forget
forget-find_entry i c bs a = find-drop_all i c bs a.decisions

-- With a logger, a response that names its instance, Branch and decision point by non-empty texts
-- and has a masked state is the Decision that is found for that Branch after remember.
pub remember-find_entry :
    (response : Fields) (a : Audit) (i b point : String) (masked : Fields)
    → a.logging ≡ true
    → as_text (get "instance_id" response) ≡ some i
    → as_text (or_root (lookup "branch_id" response)) ≡ some b
    → as_text (get "decision_point_id" response) ≡ some point
    → as_mapping (get "masked_emulator_dto" response) ≡ some masked
    → find_entry i b (remember response a).decisions ≡ some response
unfolding remember
remember-find_entry response a i b point masked l hi hb hp hm =
    rw (l, hi, hb, hp, hm, (str_eq_iff i i).1 refl, (str_eq_iff b b).1 refl)

entered :
    (d : Identity) (a : Audit)
    → is_id (enter_request (some d) a).selection_request_id d.request_id ≡ true
unfolding enter_request
entered d a = elim (Bool-cases (is_id a.selection_request_id d.request_id)) [
  | inl e ↦ rw (e, e)
  | inr e ↦ rw (e, (str_eq_iff d.request_id d.request_id).1 refl)
]

known_after :
    (d : Identity) (event : Fields) (a : Audit)
    → is_id a.selection_request_id d.request_id ≡ true
    → is_recovery (some d) (remember_unless (knows (some d) a) (some d) (log event a)) ≡ true
unfolding is_recovery enter_request remember_selection
known_after d event a e = elim (Bool-cases (mem d.branch_id a.selection_branch_ids)) [
  | inl k ↦ rw (k, e, k)
  | inr k ↦ rw (k, e, (str_eq_iff d.branch_id d.branch_id).1 refl)
]

subst_known :
    (d : Identity) (a : Audit) (event : Fields)
    → is_recovery
        (some d)
        (remember_unless (is_recovery (some d) a) (some d) (log event (enter_request (some d) a)))
      ≡ true
unfolding is_recovery
subst_known d a event = known_after d event (enter_request (some d) a) (entered d a)

settle_error :
    (request : Fields) (result : Option Fields) (error : Exc) (a : Audit)
    → settle request result (some error) a ≡ (ok tt, a)
unfolding settle
settle_error request none error a = refl
settle_error request (some result) error a = refl

-- When the record of a selection with an identity ended in a client error, a further record of the
-- same identity is a recovery.
pub record_with-is_recovery :
    (python : Python) (request : Fields) (source : String) (result : Option Fields) (error : Exc)
    (received : Option Fields) (a : Audit) (d : Identity)
    → selection_identity request source ≡ some d
    → is_recovery (some d) (record_with python request source result (some error) received a).1
      ≡ true
unfolding record_with
record_with-is_recovery python request source result error received a d h =
    let x = enter_request (some d) a in
    rw
      (
        h,
        settle_error request result error (
            remember_unless (is_recovery (some d) a) (some d) (
              log (event_of python (is_recovery (some d) a) received request result (some error))
                x)),
      )
      (subst_known d a
        (event_of python (is_recovery (some d) a) received request result (some error)))
