-- ===== src/Effect.antt =====
-- Code that calls services. A run of it from a state of the outside world has a result, the calls
-- that it made in their order, and the state that it leaves. What was called before an exception
-- stays called.
pub mod Each
pub mod Follows
pub mod Returns
use aws_autorecycle.Base.{List, [], ◌∷◌, ◌++◌}
use aws_autorecycle.Exceptions.{Exception, Result, ok, err}

pub record Outcome (W Call A : Type 0) : Type 0 where
  pub result : Result A
  pub calls : List Call
  pub world : W

abbrev pub Run : Type 0 → Type 0 → Type 0 → Type 0
Run W Call A = W → Outcome W Call A

module _ {W Call A : Type 0} where
  abbrev pub lift : Result A → Run W Call A
  lift r w = record { result = r; calls = []; world = w }

  abbrev pub pure : A → Run W Call A
  pure a w = record { result = ok a; calls = []; world = w }

  abbrev pub raise : Exception → Run W Call A
  raise e w = record { result = err e; calls = []; world = w }

-- The calls of a run that goes on behind the calls made so far.
abbrev pub behind : {W Call B : Type 0} → List Call → Outcome W Call B → Outcome W Call B
behind calls o = record o { calls = calls ++ o.calls }

module _ {W Call A B : Type 0} where
  abbrev pub continue : Result A → List Call → W → (A → Run W Call B) → Outcome W Call B
  continue (ok a) calls w f = behind calls (f a w)
  continue (err e) calls w f = record { result = err e; calls = calls; world = w }

  infixl 5 ◌>>=◌ ◌>>◌
  abbrev pub ◌>>=◌ : Run W Call A → (A → Run W Call B) → Run W Call B
  ◌>>=◌ m f w = let o = m w in continue o.result o.calls o.world f

  abbrev pub ◌>>◌ : Run W Call A → Run W Call B → Run W Call B
  m >> k = m >>= λ _. k

module _ {W Call A : Type 0} where
  -- A run that hands its exception over as a value: the `try` of a handler.
  abbrev pub attempt : Run W Call A → Run W Call (Result A)
  attempt m w = let o = m w in record { result = ok o.result; calls = o.calls; world = o.world }

  -- One call of a service. `entry` says how the call is recorded, with its answer.
  abbrev pub ask : (Result A → Call) → (W → Result A × W) → Run W Call A
  ask entry f w = let (r, w') = f w in record { result = r; calls = entry r ∷ []; world = w' }
