-- ===== src/Api/Wire/Triple.antt =====
-- Rules for methods that may raise: what holds before, after a return, and after a raise.
use sts2_training.Base.Outcome.{Result, ok, err}
use sts2_training.Api.Errors.{Exc}
use sts2_training.Api.Exec.{Exec, pure, raise, lift, modify, catch, ◌>>=◌}

abbrev pub Post : {W B : Type 0} → (B → W → Type 0) → (Exc → W → Type 0) → Result Exc B → W → Type 0
Post Q E (ok b) w = Q b w
Post Q E (err e) w = E e w

pub record Triple {W B : Type 0} (P : W → Type 0) (m : Exec W B) (Q : B → W → Type 0)
    (E : Exc → W → Type 0) : Type 0 where
  pub at : (w : W) → P w → Post Q E (m w).0 (m w).1

pub Post-both :
    {W B : Type 0} (P : W → Type 0) (r : Result Exc B) (w : W) → P w → Post (λ _. P) (λ _. P) r w
Post-both P (ok b) w h = h
Post-both P (err e) w h = h

module _ {W B : Type 0} where
  Post-map :
      (Q Q' : B → W → Type 0) (E E' : Exc → W → Type 0) (r : Result Exc B) (w : W)
      → ((b : B) → Q' b w → Q b w)
      → ((e : Exc) → E' e w → E e w)
      → Post Q' E' r w
      → Post Q E r w
  Post-map Q Q' E E' (ok b) w f g h = f b h
  Post-map Q Q' E E' (err e) w f g h = g e h

module _ {W B : Type 0} {Q : B → W → Type 0} {E : Exc → W → Type 0} where
  catch-Post :
      (E' : Exc → W → Type 0) (r : Result Exc B) (w : W) (f : Exc → Exec W B)
      → ((e : Exc) → Triple (E' e) (f e) Q E)
      → Post Q E' r w
      → Post Q E (catch (lift r) f w).0 (catch (lift r) f w).1
  unfolding lift catch
  catch-Post E' (ok b) w f k h = h
  catch-Post E' (err e) w f k h = (k e).at w h

module _ {W A B : Type 0} {R : B → W → Type 0} {E : Exc → W → Type 0} where
  bind-Post :
      (Q : A → W → Type 0) (r : Result Exc A) (w : W) (f : A → Exec W B)
      → ((a : A) → Triple (Q a) (f a) R E)
      → Post Q E r w
      → Post R E ((lift r >>= f) w).0 ((lift r >>= f) w).1
  unfolding lift ◌>>=◌
  bind-Post Q (ok a) w f k h = (k a).at w h
  bind-Post Q (err e) w f k h = h

module _ {W B : Type 0} {P : W → Type 0} {Q : B → W → Type 0} {E : Exc → W → Type 0} where
  pub Triple-pure : (b : B) → ((w : W) → P w → Q b w) → Triple P (pure b) Q E
  unfolding pure
  Triple-pure b h = record { at = h }

  pub Triple-raise : (e : Exc) → ((w : W) → P w → E e w) → Triple P (raise e) Q E
  unfolding raise
  Triple-raise e h = record { at = h }

  pub Triple-lift : (r : Result Exc B) → ((w : W) → P w → Post Q E r w) → Triple P (lift r) Q E
  unfolding lift
  Triple-lift r h = record { at = h }

  pub Triple-weaken :
      (R : W → Type 0) (m : Exec W B) → ((w : W) → P w → R w) → Triple R m Q E → Triple P m Q E
  Triple-weaken R m f t = record { at = λ w h. t.at w (f w h) }

  pub Triple-map :
      (Q' : B → W → Type 0) (E' : Exc → W → Type 0) (m : Exec W B)
      → ((b : B) (w : W) → Q' b w → Q b w)
      → ((e : Exc) (w : W) → E' e w → E e w)
      → Triple P m Q' E'
      → Triple P m Q E
  Triple-map Q' E' m f g t = record {
    at = λ w h. Post-map Q Q' E E' (m w).0 (m w).1 (λ b. f b (m w).1) (λ e. g e (m w).1) (t.at w h);
  }

module _ {W : Type 0} {P : W → Type 0} {Q : Unit {0} → W → Type 0} {E : Exc → W → Type 0} where
  pub Triple-modify : (f : W → W) → ((w : W) → P w → Q tt (f w)) → Triple P (modify f) Q E
  unfolding modify
  Triple-modify f h = record { at = h }

module _ {W A B : Type 0} {P : W → Type 0} {R : B → W → Type 0} {E : Exc → W → Type 0} where
  pub Triple-bind :
      (Q : A → W → Type 0) (m : Exec W A) (f : A → Exec W B)
      → Triple P m Q E
      → ((a : A) → Triple (Q a) (f a) R E)
      → Triple P (m >>= f) R E
  unfolding ◌>>=◌ lift
  Triple-bind Q m f t k = record { at = λ w h. bind-Post Q (m w).0 (m w).1 f k (t.at w h) }

module _ {W B : Type 0} {P : W → Type 0} {Q : B → W → Type 0} {E : Exc → W → Type 0} where
  pub Triple-catch :
      (E' : Exc → W → Type 0) (m : Exec W B) (f : Exc → Exec W B)
      → Triple P m Q E'
      → ((e : Exc) → Triple (E' e) (f e) Q E)
      → Triple P (catch m f) Q E
  unfolding catch lift
  Triple-catch E' m f t k = record { at = λ w h. catch-Post E' (m w).0 (m w).1 f k (t.at w h) }
