-- ===== src/Api/Exec.antt =====
-- Methods that change an object and may raise: what was written before a raise stays written.
use sts2_training.Base.Outcome.{Result, ok, err}
use sts2_training.Api.Errors.{Exc}

abbrev pub Exec : Type 0 → Type 0 → Type 0
Exec W A = W → Result Exc A × W

module _ {W A : Type 0} where
  unfoldable pub pure : A → Exec W A
  pure a w = (ok a, w)

  unfoldable pub raise : Exc → Exec W A
  raise e w = (err e, w)

  unfoldable pub lift : Result Exc A → Exec W A
  lift r w = (r, w)

  unfoldable pub gets : (W → A) → Exec W A
  gets f w = (ok (f w), w)

unfoldable pub modify : {W : Type 0} → (W → W) → Exec W (Unit {0})
modify f w = (ok tt, f w)

module _ {W A B : Type 0} where
  abbrev pub continue : Result Exc A → (A → Exec W B) → Exec W B
  continue (ok a) f w = f a w
  continue (err e) f w = (err e, w)

  infixl 5 ◌>>=◌
  unfoldable pub ◌>>=◌ : Exec W A → (A → Exec W B) → Exec W B
  ◌>>=◌ m f w = let (r, w') = m w in continue r f w'

module _ {W B : Type 0} where
  infixl 5 ◌>>◌
  abbrev pub ◌>>◌ : Exec W (Unit {0}) → Exec W B → Exec W B
  m >> n = m >>= λ _. n

module _ {W A : Type 0} where
  abbrev pub handle : (Exc → Exec W A) → Result Exc A → Exec W A
  handle f (ok a) w = (ok a, w)
  handle f (err e) w = f e w

  -- try: m, except e: f e
  unfoldable pub catch : Exec W A → (Exc → Exec W A) → Exec W A
  catch m f w = let (r, w') = m w in handle f r w'
