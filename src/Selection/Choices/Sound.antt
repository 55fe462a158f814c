-- ===== src/Selection/Choices/Sound.antt =====
-- choice_semantics.py: the parsed description and the context of a pending choice.
use sts2_training.Base.{
  ℕ, ◌≡◌, inl, inr, refl, ap, subst, String, Bool, true, Option, none, some, List, [], ◌∷◌, mem,
  length, ==_iff, IsDistinct, distinct-IsDistinct, Bool-cases, arith, All, IsFresh,
}
use sts2_training.Base.Int.{ℤ, pos, negsuc}
use sts2_training.Json.{
  Fields, Items, Value, obj, null, str, get, as_int, as_items, as_mapping, to_list,
}
use sts2_training.Selection.Choices.{
  Semantics, Context, unknown, choice_effects, choice_zones, choice_modifiers, choice_operations,
  parse_choice_semantics, parse_fields, accepts, all_parsed, enum_or_none, pending_choice_context,
  token_or_none, option_token, tokens_of, option_tokens, collect, counts, token_sequence,
  option_id_sequence, context_if, context_of, disjoint,
}

abbrev pub Within : List String → Option String → Type 0
Within allowed none = Unit
Within allowed (some s) = mem s allowed ≡ true

-- Every part of the description is one of the published words, or absent.
pub record IsPublished (s : Semantics) : Type 0 where
  pub operation : mem s.operation choice_operations ≡ true
  pub effect : Within choice_effects s.effect
  pub source_zone : Within choice_zones s.source_zone
  pub destination_zone : Within choice_zones s.destination_zone
  pub modifier : Within choice_modifiers s.modifier

abbrev EnumOk : List String → Option (Option String) → Type 0
EnumOk allowed none = Unit
EnumOk allowed (some o) = Within allowed o

enum_or_none-EnumOk : (v : Value) (allowed : List String) → EnumOk allowed (enum_or_none v allowed)
enum_or_none-EnumOk null allowed = tt
enum_or_none-EnumOk (str s) allowed = elim (Bool-cases (mem s allowed)) [
  | inl e ↦ rw e e
  | inr e ↦ rw e tt
]
enum_or_none-EnumOk v allowed = tt

unknown-IsPublished : IsPublished unknown
unknown-IsPublished = record {
  operation = refl;
  effect = tt;
  source_zone = tt;
  destination_zone = tt;
  modifier = tt;
}

all_parsed-IsPublished :
    (operation : String) (e s d m : Option (Option String)) (o r : Option (Option Bool))
    → mem operation choice_operations ≡ true
    → EnumOk choice_effects e
    → EnumOk choice_zones s
    → EnumOk choice_zones d
    → EnumOk choice_modifiers m
    → IsPublished (all_parsed operation e s d m o r)
all_parsed-IsPublished op (some e) (some s) (some d) (some m) (some o) (some r) h he hs hd hm =
    record { operation = h; effect = he; source_zone = hs; destination_zone = hd; modifier = hm }
all_parsed-IsPublished op e s d m o r h he hs hd hm = ground arith

parse_fields-IsPublished : (raw : Fields) (v : Value) → IsPublished (parse_fields raw v)
parse_fields-IsPublished raw (str op) = elim (Bool-cases (accepts raw op)) [
  | inl t ↦ rw t (
      all_parsed-IsPublished op _ _ _ _ _ _ (ground arith)
        (enum_or_none-EnumOk (get "effect" raw) choice_effects)
        (enum_or_none-EnumOk (get "sourceZone" raw) choice_zones)
        (enum_or_none-EnumOk (get "destinationZone" raw) choice_zones)
        (enum_or_none-EnumOk (get "modifier" raw) choice_modifiers))
  | inr t ↦ rw t unknown-IsPublished
]
parse_fields-IsPublished raw v = unknown-IsPublished

-- Whatever is parsed, the description speaks only of published operations, effects, zones and
-- modifiers.
pub parse_choice_semantics-IsPublished : (raw : Value) → IsPublished (parse_choice_semantics raw)
unfolding parse_choice_semantics
parse_choice_semantics-IsPublished (obj raw) = parse_fields-IsPublished raw (get "operation" raw)
parse_choice_semantics-IsPublished v = unknown-IsPublished

-- The tokens of the items: one for each item, in order.
abbrev pub AllNamed : (Value → Option String) → List Value → List String → Type 0
AllNamed name [] [] = Unit
AllNamed name (v ∷ vs) (s ∷ ss) = (name v ≡ some s) × AllNamed name vs ss
AllNamed name vs ss = ⊥

-- Each item of the list is named, in order.
abbrev pub Named : (Value → Option String) → Option Items → List String → Type 0
Named name none ids = ⊥
Named name (some items) ids = AllNamed name (to_list items) ids

-- The ids of a choice whose identity is valid.
pub record IsIdentified (is_opaque : String → Bool) (pending : Fields) (c : Context) : Type 0 where
  pub selected :
      Named
        (token_or_none is_opaque)
        (as_items (get "selectedOptionIds" pending))
        c.selected_option_ids
  pub options :
      Named
        (λ v. option_token is_opaque (as_mapping v))
        (as_items (get "options" pending))
        c.option_ids
  pub counted : as_int (get "selectedCount" pending) ≡ some (pos (length c.selected_option_ids))
  pub selected_distinct : IsDistinct c.selected_option_ids
  pub options_distinct : IsDistinct c.option_ids
  pub apart : All (λ s. IsFresh s c.option_ids) c.selected_option_ids

disjoint-All : (xs ys : List String) → disjoint xs ys ≡ true → All (λ s. IsFresh s ys) xs
disjoint-All [] ys h = tt
disjoint-All (x ∷ xs) ys h = (ground arith, disjoint-All xs ys (ground arith))

named_cons :
    (name : Value → Option String) (v : Value) (vs : List Value) (o : Option String)
    (os : List (Option String))
    → name v ≡ o
    → ((collect os).1 ≡ true → AllNamed name vs (collect os).0)
    → (collect (o ∷ os)).1 ≡ true
    → AllNamed name (v ∷ vs) (collect (o ∷ os)).0
named_cons name v vs none os e k h = cc
named_cons name v vs (some s) os e k h = (e, k h)

counts-length : (o : Option ℤ) (n : ℕ) → counts o n ≡ true → o ≡ some (pos n)
counts-length none n h = cc
counts-length (some (pos k)) n h = ap (λ m. some (pos m)) ((==_iff k n).0 h)
counts-length (some (negsuc k)) n h = cc

module _ (is_opaque : String → Bool) where
  tokens-AllNamed :
      (vs : List Value)
      → (collect (tokens_of is_opaque vs)).1 ≡ true
      → AllNamed (token_or_none is_opaque) vs (collect (tokens_of is_opaque vs)).0
  tokens-AllNamed [] h = tt
  tokens-AllNamed (v ∷ vs) h =
      named_cons (token_or_none is_opaque) v vs (token_or_none is_opaque v) (tokens_of is_opaque vs)
        refl (tokens-AllNamed vs) h

  options-AllNamed :
      (vs : List Value)
      → (collect (option_tokens is_opaque vs)).1 ≡ true
      → AllNamed
          (λ v. option_token is_opaque (as_mapping v))
          vs
          (collect (option_tokens is_opaque vs)).0
  options-AllNamed [] h = tt
  options-AllNamed (v ∷ vs) h =
      named_cons (λ v. option_token is_opaque (as_mapping v)) v vs
        (option_token is_opaque (as_mapping v)) (option_tokens is_opaque vs) refl
        (options-AllNamed vs) h

  token_sequence-Named :
      (o : Option Items)
      → (token_sequence is_opaque o).1 ≡ true
      → Named (token_or_none is_opaque) o (token_sequence is_opaque o).0
  token_sequence-Named none h = cc
  token_sequence-Named (some items) h = tokens-AllNamed (to_list items) h

  option_id_sequence-Named :
      (o : Option Items)
      → (option_id_sequence is_opaque o).1 ≡ true
      → Named (λ v. option_token is_opaque (as_mapping v)) o (option_id_sequence is_opaque o).0
  option_id_sequence-Named none h = cc
  option_id_sequence-Named (some items) h = options-AllNamed (to_list items) h

  context_of-IsIdentified :
      (pending : Fields) (s : Semantics) (xs ys : List String) (b c : Bool)
      → (b ≡ true → Named (token_or_none is_opaque) (as_items (get "selectedOptionIds" pending)) xs)
      → (c ≡ true
          → Named
              (λ v. option_token is_opaque (as_mapping v))
              (as_items (get "options" pending))
              ys)
      → (context_of is_opaque pending s (xs, b) (ys, c)).identity_valid ≡ true
      → IsIdentified is_opaque pending (context_of is_opaque pending s (xs, b) (ys, c))
  context_of-IsIdentified pending s xs ys b c n m h = record {
    selected = n (ground arith);
    options = m (ground arith);
    counted = counts-length _ (length xs) (ground arith);
    selected_distinct = distinct-IsDistinct xs (ground arith);
    options_distinct = distinct-IsDistinct ys (ground arith);
    apart = disjoint-All xs ys (ground arith);
  }

  -- The context describes the pending choice, and is identified when it is called valid.
  abbrev WhenValid : Option Fields → Option Context → Type 0
  WhenValid pending none = Unit
  WhenValid none (some c) = ⊥
  WhenValid (some pending) (some c) = c.identity_valid ≡ true → IsIdentified is_opaque pending c

  context_if-WhenValid : (o : Option Fields) → WhenValid o (context_if is_opaque o)
  unfolding context_if
  context_if-WhenValid none = tt
  context_if-WhenValid (some pending) =
      let xs = token_sequence is_opaque (as_items (get "selectedOptionIds" pending)) in
      let ys = option_id_sequence is_opaque (as_items (get "options" pending)) in
      context_of-IsIdentified pending (parse_choice_semantics (get "choiceSemantics" pending)) xs.0
        ys.0 xs.1 ys.1 (token_sequence-Named (as_items (get "selectedOptionIds" pending)))
        (option_id_sequence-Named (as_items (get "options" pending)))

  IsIdentified-in :
      (o : Option Fields) (c : Context)
      → WhenValid o (some c)
      → c.identity_valid ≡ true
      → (pending : Fields) × (o ≡ some pending) × IsIdentified is_opaque pending c
  IsIdentified-in none c w h = elim w [ ]
  IsIdentified-in (some pending) c w h = (pending, refl, w h)

  -- A pending choice whose identity is called valid comes from an object: each of its selected options
  -- and of its remaining options has a token, in order, the number of the selected ones is the count that it gives, no
  -- token is repeated among the selected or among the remaining options, and no option is both.
  pub pending_choice_context-IsIdentified :
      (dto : Fields) (c : Context)
      → pending_choice_context is_opaque dto ≡ some c
      → c.identity_valid ≡ true
      → (pending : Fields) × (as_mapping (get "pendingChoice" dto) ≡ some pending)
        × IsIdentified is_opaque pending c
  unfolding pending_choice_context
  pending_choice_context-IsIdentified dto c e h =
      IsIdentified-in (as_mapping (get "pendingChoice" dto)) c
        (subst (WhenValid (as_mapping (get "pendingChoice" dto))) e
          (context_if-WhenValid (as_mapping (get "pendingChoice" dto))))
        h
