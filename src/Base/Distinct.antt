-- ===== src/Base/Distinct.antt =====
-- Lists of different texts.
use Prim.Native.Nat.{suc, ◌≤◌}
use Prim.Native.String.{String}
use mathlib.Core.Path.{◌≡◌, refl}
use mathlib.Core.Bool.{true, false}
use mathlib.Core.List.{List, [], ◌∷◌, ◌++◌}
use native.Mathlib.Omega.{arith}
use sts2_training.Base.Tests.{str_eq, str_eq_iff, if◌then◌else◌}
use sts2_training.Base.Lists.{length, mem, All, IsFresh, IsDistinct}

without : String → List String → List String
without x [] = []
without x (y ∷ ys) = let rest = without x ys in if str_eq x y then ys else y ∷ rest

length-without :
    (x : String) (ys : List String) → mem x ys ≡ true → suc (length (without x ys)) ≡ length ys
unfolding without
length-without x [] h = cc
length-without x (y ∷ ys) h = let ih = length-without x ys in ground (arith, ih)

mem-without :
    (x z : String) (ys : List String)
    → str_eq z x ≡ false
    → mem z ys ≡ true
    → mem z (without x ys) ≡ true
unfolding without
mem-without x z [] n h = h
mem-without x z (y ∷ ys) n h =
    let ih = mem-without x z ys n in
    ground (arith, ih, str_eq_iff x y, str_eq_iff z y, str_eq_iff z x)

All-without :
    (x : String) (xs ys : List String)
    → IsFresh x xs
    → All (λ z. mem z ys ≡ true) xs
    → All (λ z. mem z (without x ys) ≡ true) xs
All-without x [] ys f h = tt
All-without x (z ∷ xs) ys f h = (
  mem-without x z ys (ground (arith, str_eq_iff z x, str_eq_iff x z)) h.0,
  All-without x xs ys (ground arith) h.1,
)

-- Different members of a list are no more than it has.
pub length_distinct :
    (xs ys : List String) → IsDistinct xs → All (λ x. mem x ys ≡ true) xs → length xs ≤ length ys
length_distinct [] ys d h = omega arith
length_distinct (x ∷ xs) ys d h =
    let ih = length_distinct xs (without x ys) d.1 (All-without x xs ys d.0 h.1) in
    let e = length-without x ys h.0 in omega arith

pub IsFresh-append :
    (j i : String) (xs : List String)
    → str_eq j i ≡ false
    → IsFresh j xs
    → IsFresh j (xs ++ (i ∷ []))
IsFresh-append j i [] n f = ground arith
IsFresh-append j i (x ∷ xs) n f = let ih = IsFresh-append j i xs n in ground (arith, ih)

pub IsDistinct-append :
    (i : String) (xs : List String) → IsFresh i xs → IsDistinct xs → IsDistinct (xs ++ (i ∷ []))
IsDistinct-append i [] f d = (refl, tt)
IsDistinct-append i (x ∷ xs) f d = (
  IsFresh-append x i xs (ground (arith, str_eq_iff x i, str_eq_iff i x)) d.0,
  IsDistinct-append i xs (ground arith) d.1,
)

pub mem-append : (j i : String) (xs : List String) → mem j xs ≡ true → mem j (xs ++ (i ∷ [])) ≡ true
mem-append j i [] h = cc
mem-append j i (x ∷ xs) h = let ih = mem-append j i xs in ground (arith, ih)

pub mem-append_new : (i : String) (xs : List String) → mem i (xs ++ (i ∷ [])) ≡ true
mem-append_new i [] = ground (arith, str_eq_iff i i)
mem-append_new i (x ∷ xs) = let ih = mem-append_new i xs in ground (arith, ih)
