-- ===== src/Mongo/Poll.antt =====
-- src/mongo_recycler/utils/poll.py
pub mod Attempts
use aws_autorecycle.Base.{ℕ, zero, suc, ◌-◌, Option, none, some}
use aws_autorecycle.Exceptions.{Exception, Result, ok, err, NoneType}
use aws_autorecycle.Effect.{pure, raise, attempt, ◌>>=◌, ◌>>◌}
use aws_autorecycle.Mongo.Services.{Services, Run, sleep}

-- What `fails_with` returns: the exception, or `None`.
unfoldable pub failure {ℓ} : {A : Type ℓ} → Result A → Option Exception
failure (ok a) = none
failure (err e) = some e

module _ (S : Services) where
  unfoldable pub fails_with : Run S NoneType → Run S (Option Exception)
  fails_with fn = do r ← attempt fn; pure (failure r)

  unfoldable pub pause : Option ℕ → Run S NoneType
  pause none = pure tt
  pause (some zero) = pure tt
  pause (some (suc n)) = sleep S (suc n)

  -- The loop over `i`, from 1 on. `left` is `max_iters - i`, so that the test `i >= max_iters` is a
  -- match on it, and the recursion ends with no fuel.
  unfoldable pub poll_from : Run S NoneType → ℕ → Option ℕ → Run S NoneType
  poll_from fn zero seconds = do
    error ← fails_with fn
    elim error [ none ↦ pure tt | some e ↦ raise e ]
  poll_from fn (suc left) seconds =
      let again = poll_from fn left seconds in
      do error ← fails_with fn; elim error [ none ↦ pure tt | some e ↦ do pause seconds; again ]

  unfoldable pub poll : Run S NoneType → ℕ → Option ℕ → Run S NoneType
  poll fn max_iters seconds = poll_from fn (max_iters - 1) seconds
