-- ===== src/Base/Lists.antt =====
-- Lists measured by native numbers, and predicates on lists by recursion.
use Prim.Native.Nat.{ℕ, zero, suc}
use Prim.Native.String.{String}
use mathlib.Core.Path.{◌≡◌, refl, ap, subst}
use mathlib.Core.Logic.{◌⊎◌, inl, inr}
use mathlib.Core.Bool.{Bool, true, false, not, ◌&&◌, ◌||◌}
use mathlib.Core.List.{List, [], ◌∷◌, ◌++◌}
use native.Mathlib.Omega.{arith}
use sts2_training.Base.Tests.{str_eq, str_eq_iff}

module _ {ℓ} {A : Type ℓ} where
  abbrev pub length : List A → ℕ
  length [] = 0
  length (x ∷ xs) = suc (length xs)

  abbrev pub take : ℕ → List A → List A
  take zero xs = []
  take (suc n) [] = []
  take (suc n) (x ∷ xs) = x ∷ take n xs

  abbrev pub drop : ℕ → List A → List A
  drop zero xs = xs
  drop (suc n) [] = []
  drop (suc n) (x ∷ xs) = drop n xs

  pub take-append-drop : (n : ℕ) (xs : List A) → take n xs ++ drop n xs ≡ xs
  take-append-drop zero xs = refl
  take-append-drop (suc n) [] = refl
  take-append-drop (suc n) (x ∷ xs) = ap (λ r. x ∷ r) (take-append-drop n xs)

  abbrev pub any : (A → Bool) → List A → Bool
  any p [] = false
  any p (x ∷ xs) = p x || any p xs

  abbrev pub all : (A → Bool) → List A → Bool
  all p [] = true
  all p (x ∷ xs) = p x && all p xs

  -- A predicate that holds throughout, by recursion.
  abbrev pub All {κ} : (A → Type κ) → List A → Type κ
  All P [] = Unit
  All P (x ∷ xs) = P x × All P xs

  pub All-map {κ μ} :
      (P : A → Type κ) (Q : A → Type μ) (xs : List A) → ((x : A) → P x → Q x) → All P xs → All Q xs
  All-map P Q [] f h = tt
  All-map P Q (x ∷ xs) f h = (f x h.0, All-map P Q xs f h.1)

-- Membership, by recursion.
abbrev pub In : {A : Type 0} → A → List A → Type 0
In a [] = ⊥
In a (x ∷ xs) = (x ≡ a) ⊎ In a xs

pub All-In : {A : Type 0} (P : A → Type 0) (xs : List A) {a : A} → All P xs → In a xs → P a
All-In P [] h m = elim m [ ]
All-In P (x ∷ xs) h (inl e) = subst P e h.0
All-In P (x ∷ xs) h (inr m) = All-In P xs h.1 m

abbrev pub mem : String → List String → Bool
mem s xs = any (str_eq s) xs

abbrev pub IsFresh : String → List String → Type 0
IsFresh s xs = mem s xs ≡ false

str_eq_symm : (s t : String) → str_eq s t ≡ false → str_eq t s ≡ false
str_eq_symm s t h = ground (arith, str_eq_iff s t, str_eq_iff t s)

pub IsFresh-cons : (seen : List String) (i j : String) → IsFresh j (i ∷ seen) → IsFresh j seen
IsFresh-cons seen i j h = ground arith

fresh_head : (seen : List String) (i j : String) → IsFresh j (i ∷ seen) → str_eq i j ≡ false
fresh_head seen i j h = str_eq_symm j i (ground arith)

pub IsFresh-of_seen :
    (seen : List String) (i : String) (ids : List String)
    → All (λ j. IsFresh j (i ∷ seen)) ids
    → IsFresh i ids
IsFresh-of_seen seen i [] h = refl
IsFresh-of_seen seen i (j ∷ ids) h =
    ground (arith, fresh_head seen i j h.0, IsFresh-of_seen seen i ids h.1)

-- No text stands twice.
abbrev pub IsDistinct : List String → Type 0
IsDistinct [] = Unit
IsDistinct (x ∷ xs) = IsFresh x xs × IsDistinct xs

abbrev pub distinct : List String → Bool
distinct [] = true
distinct (x ∷ xs) = not (mem x xs) && distinct xs

pub distinct-IsDistinct : (xs : List String) → distinct xs ≡ true → IsDistinct xs
distinct-IsDistinct [] h = tt
distinct-IsDistinct (x ∷ xs) h =
    let rest : distinct xs ≡ true = ground arith in (ground arith, distinct-IsDistinct xs rest)
