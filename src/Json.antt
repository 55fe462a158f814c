-- ===== src/Json.antt =====
-- JSON values as `json.loads` gives them, and the Python operations on them that the API uses:
-- `d.get(k)`, `k in d`, `==`, `is True`, `isinstance`, hashability.
use sts2_training.Base.{
  ℕ, zero, suc, ◌*◌, ◌^◌, String, Bool, true, false, not, ◌&&◌, ◌-◌, Option, none, some, List, [],
  ◌∷◌, ◌==◌, str_eq, if◌then◌else◌, ◌≡◌, refl, ◌↔◌, arith, str_eq_iff,
}
use mathlib.Core.Bool.{false≢true}
use native.Mathlib.Decide.{ℕ_discrete}
use sts2_training.Base.Int.{ℤ, pos, negsuc, int_eq}

-- A float is an exact binary fraction, m / 2 ^ k, or one of the three special values.
pub data Float : Type 0 where
  fraction : ℤ → ℕ → Float
  nan : Float
  inf : Bool → Float

mutual
  pub data Value : Type 0 where
    null : Value
    bool : Bool → Value
    int : ℤ → Value
    float : Float → Value
    str : String → Value
    arr : Items → Value
    obj : Fields → Value

  -- A dict in insertion order. A key stands once.
  pub data Fields : Type 0 where
    end : Fields
    field : String → Value → Fields → Fields

  pub data Items : Type 0 where
    nil : Items
    cons : Value → Items → Items

-- d.get(k, None) is `get`, and k in d is `has`.
unfoldable pub lookup : String → Fields → Option Value
lookup k end = none
lookup k (field j v r) = if str_eq j k then some v else lookup k r

abbrev or_null : Option Value → Value
or_null none = null
or_null (some v) = v

abbrev is_some : Option Value → Bool
is_some none = false
is_some (some v) = true

unfoldable pub get : String → Fields → Value
unfolding lookup
get k d = or_null (lookup k d)

unfoldable pub has : String → Fields → Bool
unfolding lookup
has k d = is_some (lookup k d)

abbrev pub to_list : Items → List Value
to_list nil = []
to_list (cons v r) = v ∷ to_list r

abbrev pub of_list : List Value → Items
of_list [] = nil
of_list (v ∷ r) = cons v (of_list r)

abbrev pub keys : Fields → List String
keys end = []
keys (field k v r) = k ∷ keys r

-- {**d, **e} for dicts with different keys
abbrev pub append_fields : Fields → Fields → Fields
append_fields end e = e
append_fields (field k v r) e = field k v (append_fields r e)

-- v is True
abbrev pub is_true : Value → Bool
is_true (bool true) = true
is_true _ = false

abbrev pub is_null : Value → Bool
is_null null = true
is_null _ = false

abbrev pub is_bool : Value → Bool
is_bool (bool b) = true
is_bool _ = false

-- A list or a dict cannot be a member of a set: `v in s` raises TypeError.
abbrev pub hashable : Value → Bool
hashable (arr v) = false
hashable (obj v) = false
hashable _ = true

-- isinstance(v, str) and v, and isinstance(v, Mapping)
abbrev non_empty : String → Option String
non_empty s = if str_eq s "" then none else some s

abbrev pub as_text : Value → Option String
as_text (str s) = non_empty s
as_text _ = none

abbrev pub as_mapping : Value → Option Fields
as_mapping (obj d) = some d
as_mapping _ = none

abbrev pub as_items : Value → Option Items
as_items (arr v) = some v
as_items _ = none

-- isinstance(v, int) and not isinstance(v, bool)
abbrev pub as_int : Value → Option ℤ
as_int (int i) = some i
as_int _ = none

-- The same, and v > 0.
abbrev positive : ℤ → Option ℕ
positive (pos zero) = none
positive (pos (suc n)) = some (suc n)
positive (negsuc n) = none

abbrev pub as_positive : Value → Option ℕ
as_positive (int i) = positive i
as_positive _ = none

abbrev scale : ℤ → ℕ → ℤ
scale (pos n) k = pos (n * 2 ^ k)
scale (negsuc n) k = negsuc (suc n * 2 ^ k - 1)

float_eq : Float → Float → Bool
float_eq (fraction m k) (fraction n l) = int_eq (scale m l) (scale n k)
float_eq (inf s) (inf t) = if s then t else not t
float_eq _ _ = false

-- A bool is a number in Python: True == 1.
abbrev as_number : Value → Option Float
as_number (bool true) = some (fraction (pos 1) 0)
as_number (bool false) = some (fraction (pos 0) 0)
as_number (int i) = some (fraction i 0)
as_number (float f) = some f
as_number _ = none

number_eq : Option Float → Option Float → Bool
unfolding float_eq
number_eq (some f) (some g) = float_eq f g
number_eq _ _ = false

abbrev count_fields : Fields → ℕ
count_fields end = 0
count_fields (field k v r) = suc (count_fields r)

-- v == w. Dicts are compared without regard to order.
unfoldable mutual
  unfolding lookup number_eq

  pub py_eq : Value → Value → Bool
  py_eq null w = is_null w
  py_eq (str s) (str t) = str_eq s t
  py_eq (arr v) (arr w) = items_eq v w
  py_eq (obj d) (obj e) = (count_fields d == count_fields e) && fields_within d e
  py_eq v w = number_eq (as_number v) (as_number w)

  pub items_eq : Items → Items → Bool
  items_eq nil nil = true
  items_eq (cons v r) (cons w s) = py_eq v w && items_eq r s
  items_eq _ _ = false

  pub fields_within : Fields → Fields → Bool
  fields_within end e = true
  fields_within (field k v r) e =
      elim (lookup k e) [ none ↦ false | some w ↦ py_eq v w ] && fields_within r e

pub py_eq_str : (v : Value) (s : String) → py_eq v (str s) ≡ true → v ≡ str s
unfolding py_eq
py_eq_str (str t) s h = ground (arith, str_eq_iff t s)
py_eq_str (bool true) s h = cc
py_eq_str (bool false) s h = cc
py_eq_str v s h = cc

decide_by : {s t : String} (b : Bool) → ((b ≡ true) ↔ (s ≡ t)) → Dec (s ≡ t)
decide_by true e = yes (e.0 refl)
decide_by false e = no (λ p. false≢true (e.1 p))

String_discrete : Discrete String
unfolding decide_by
String_discrete s t = decide_by (str_eq s t) (str_eq_iff s t)

Fields_discrete : Discrete Fields
unfolding String_discrete ℕ_discrete
Fields_discrete = hlevel (ℕ_discrete, String_discrete)

abbrev to_bool {ℓ} : {P : Type ℓ} → Dec P → Bool
to_bool (yes p) = true
to_bool (no p) = false

-- A retry token is the text of a request, so two are equal when they read alike, key order included.
unfoldable pub same : Fields → Fields → Bool
unfolding Fields_discrete
same d e = to_bool (Fields_discrete d e)

to_bool-sound : {P : Type 0} (d : Dec P) → to_bool d ≡ true → P
to_bool-sound (yes p) h = p
to_bool-sound (no p) h = cc

to_bool_of : {P : Type 0} (d : Dec P) → P → to_bool d ≡ true
to_bool_of (yes p) x = refl
to_bool_of (no p) x = absurd (p x)

pub same_iff : (d e : Fields) → (same d e ≡ true) ↔ (d ≡ e)
unfolding same
same_iff d e = (to_bool-sound (Fields_discrete d e), to_bool_of (Fields_discrete d e))

test_same :
    (same (field "a" (int (pos 1)) end) (field "a" (int (pos 1)) end) ≡ true)
    × (same (field "a" (int (pos 1)) end) (field "a" (bool true) end) ≡ false)
unfolding same
test_same = (refl, refl)
