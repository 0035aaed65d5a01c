-- ===== src/Effect/Returns.antt =====
-- Runs whose results all have a property, if they return, with a rule for the last part of a run.
use aws_autorecycle.Base.{◌≡◌, List, arith}
use aws_autorecycle.Exceptions.{Result, ok, err}
use aws_autorecycle.Effect.{Run, lift, continue, ◌>>=◌}

module _ {A : Type 0} (P : A → Type 0) where
  pub record Returns {W Call : Type 0} (m : Run W Call A) : Type 0 where
    pub at : (w : W) (a : A) → (m w).result ≡ ok a → P a

module _ {W Call A : Type 0} {P : A → Type 0} where
  pub Returns-lift :
      (r : Result A) → ((a : A) → r ≡ ok a → P a) → Returns P {W = W} {Call = Call} (lift r)
  Returns-lift r h = record { at = λ w. h }

module _ {W Call A B : Type 0} {P : B → Type 0} where
  continue-Returns :
      (r : Result A) (calls : List Call) (w : W) (f : A → Run W Call B)
      → ((a : A) → Returns P (f a))
      → (b : B) → (continue r calls w f).result ≡ ok b
      → P b
  continue-Returns (ok a) calls w f h b e = (h a).at w b e
  continue-Returns (err c) calls w f h b e = absurd (ground (arith, e))

  -- What the first part returns does not matter.
  pub Returns-bind :
      (m : Run W Call A) (f : A → Run W Call B) → ((a : A) → Returns P (f a)) → Returns P (m >>= f)
  Returns-bind m f h = record {
    at = λ w. continue-Returns (m w).result (m w).calls (m w).world f h;
  }
