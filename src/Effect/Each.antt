-- ===== src/Effect/Each.antt =====
-- Runs whose calls all have a property, with a rule for each way to build a run.
use aws_autorecycle.Base.{List, All, All-append}
use aws_autorecycle.Exceptions.{Exception, Result, ok, err}
use aws_autorecycle.Effect.{Run, pure, raise, continue, ◌>>=◌, attempt, ask}

module _ {Call : Type 0} (P : Call → Type 0) where
  pub record Each {W A : Type 0} (m : Run W Call A) : Type 0 where
    pub at : (w : W) → All P (m w).calls

module _ {Call W A : Type 0} {P : Call → Type 0} where
  pub Each-pure : (a : A) → Each P {W = W} (pure a)
  Each-pure a = record { at = λ w. tt }

  pub Each-raise : (e : Exception) → Each P {W = W} {A = A} (raise e)
  Each-raise e = record { at = λ w. tt }

  pub Each-ask :
      (entry : Result A → Call) (f : W → Result A × W)
      → ((w : W) → P (entry (f w).0))
      → Each P (ask entry f)
  Each-ask entry f h = record { at = λ w. (h w, tt) }

  pub Each-attempt : {m : Run W Call A} → Each P m → Each P (attempt m)
  Each-attempt h = record { at = λ w. h.at w }

module _ {Call W A B : Type 0} {P : Call → Type 0} where
  continue-All :
      (r : Result A) (calls : List Call) (w : W) (f : A → Run W Call B)
      → All P calls
      → ((a : A) → Each P (f a))
      → All P (continue r calls w f).calls
  continue-All (ok a) calls w f h k = All-append P calls _ h ((k a).at w)
  continue-All (err e) calls w f h k = h

  pub Each-bind :
      (m : Run W Call A) (f : A → Run W Call B)
      → Each P m
      → ((a : A) → Each P (f a))
      → Each P (m >>= f)
  Each-bind m f h k = record {
    at = λ w. continue-All (m w).result (m w).calls (m w).world f (h.at w) k;
  }
