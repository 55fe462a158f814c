-- ===== src/Base/Outcome.antt =====
-- A Python call that returns or raises, and one that also changes an object: what was written
-- before a raise stays written, so the state comes back beside the exception too.
use mathlib.Core.Path.{◌≡◌, refl}
use mathlib.Core.Bool.{Bool, true, false}

pub data Result {ℓ} (E A : Type ℓ) : Type ℓ where
  ok : A → Result E A
  err : E → Result E A

pub ok-injective {ℓ} : {E A : Type ℓ} {a b : A} → ◌≡◌ {A = Result E A} (ok a) (ok b) → a ≡ b
ok-injective h = cc

-- a test that raises where it fails
abbrev pub guard : {E : Type 0} → Bool → E → Result E (Unit {0})
guard true failure = ok tt
guard false failure = err failure

pub guard-eq-ok :
    {E : Type 0} (test : Bool) (failure : E) {u : Unit {0}}
    → guard test failure ≡ ok u
    → test ≡ true
guard-eq-ok true failure h = refl
guard-eq-ok false failure h = cc

module _ {ℓ} {E A B : Type ℓ} where
  infixl 5 ◌>>=◌
  abbrev pub ◌>>=◌ : Result E A → (A → Result E B) → Result E B
  err raised >>= next = err raised
  ok value >>= next = next value

  pub >>=-eq-ok :
      (first : Result E A) (next : A → Result E B) {b : B}
      → (first >>= next) ≡ ok b
      → (a : A) × (first ≡ ok a) × (next a ≡ ok b)
  >>=-eq-ok (err raised) next h = cc
  >>=-eq-ok (ok value) next h = (value, refl, h)

module _ {ℓ} {E B : Type ℓ} where
  infixl 5 ◌>>◌
  abbrev pub ◌>>◌ : Result E (Unit {ℓ}) → Result E B → Result E B
  first >> rest = first >>= λ done. rest
