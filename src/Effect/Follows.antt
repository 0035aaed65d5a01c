-- ===== src/Effect/Follows.antt =====
-- Runs whose calls an automaton accepts, with a rule for each way to build a run.
use aws_autorecycle.Base.{◌≡◌, refl, ap, ◌∙◌, List, [], ◌∷◌, ◌++◌, Option, none, some}
use aws_autorecycle.Exceptions.{Exception, Result, ok, err}
use aws_autorecycle.Effect.{Run, lift, pure, raise, continue, ◌>>=◌, attempt, ask}

module _ {State Call : Type 0} (step : State → Call → Option State) where
  abbrev pub then_accept : Option State → List Call → Option State
  then_accept none calls = none
  then_accept (some p) [] = some p
  then_accept (some p) (c ∷ calls) = then_accept (step p c) calls

  -- The state after the calls, or `none` if one of them is not allowed where it stands.
  abbrev pub accept : State → List Call → Option State
  accept p = then_accept (some p)

  accept-append_from :
      (o : Option State) (p : State) (xs ys : List Call)
      → then_accept o xs ≡ some p
      → then_accept o (xs ++ ys) ≡ accept p ys
  accept-append_from none p xs ys h = cc
  accept-append_from (some q) p [] ys h = ap (λ o. then_accept o ys) h
  accept-append_from (some q) p (x ∷ xs) ys h = accept-append_from (step q x) p xs ys h

  pub accept-append :
      (p q : State) (xs ys : List Call) → accept p xs ≡ some q → accept p (xs ++ ys) ≡ accept q ys
  accept-append p q xs ys h = accept-append_from (some p) q xs ys h

  -- Started in state `p`, the run makes only calls that are allowed, and its result and the state
  -- after them are in the relation `Q`.
  pub record Follows {W A : Type 0} (p : State) (Q : Result A → State → Type 0) (m : Run W Call A)
      : Type 0 where
    pub at : (w : W) → (q : State) × (accept p (m w).calls ≡ some q) × Q (m w).result q

module _ {State Call W A : Type 0} {step : State → Call → Option State} where
  pub Follows-pure :
      {p : State} {Q : Result A → State → Type 0} (a : A)
      → Q (ok a) p
      → Follows step {W = W} p Q (pure a)
  Follows-pure {p} a h = record { at = λ w. (p, refl, h) }

  pub Follows-raise :
      {p : State} {Q : Result A → State → Type 0} (e : Exception)
      → Q (err e) p
      → Follows step {W = W} p Q (raise e)
  Follows-raise {p} e h = record { at = λ w. (p, refl, h) }

  pub Follows-lift :
      {p : State} {Q : Result A → State → Type 0} (r : Result A)
      → Q r p
      → Follows step {W = W} p Q (lift r)
  Follows-lift {p} r h = record { at = λ w. (p, refl, h) }

  -- `R` is what the service promises of its answers.
  pub Follows-ask_where :
      (R : Result A → Type 0) {p : State} {Q : Result A → State → Type 0} (entry : Result A → Call)
      (f : W → Result A × W)
      → ((w : W) → R (f w).0)
      → ((r : Result A) → R r → (q : State) × (step p (entry r) ≡ some q) × Q r q)
      → Follows step p Q (ask entry f)
  Follows-ask_where R entry f promise h = record {
    at = λ w. let (q, e, x) = h (f w).0 (promise w) in (q, ap (λ o. then_accept step o []) e, x);
  }

  pub Follows-ask :
      {p : State} {Q : Result A → State → Type 0} (entry : Result A → Call) (f : W → Result A × W)
      → ((r : Result A) → (q : State) × (step p (entry r) ≡ some q) × Q r q)
      → Follows step p Q (ask entry f)
  Follows-ask entry f h = Follows-ask_where (λ r. Unit {0}) entry f (λ w. tt) (λ r _. h r)

  pub Follows-weaken :
      {p : State} {P Q : Result A → State → Type 0} {m : Run W Call A}
      → Follows step p P m
      → ((r : Result A) (q : State) → P r q → Q r q)
      → Follows step p Q m
  Follows-weaken {m = m} fm h = record {
    at = λ w. let (q, e, x) = fm.at w in (q, e, h (m w).result q x);
  }

  pub Follows-attempt :
      {p : State} {Q : Result (Result A) → State → Type 0} {m : Run W Call A}
      → Follows step p (λ r q. Q (ok r) q) m
      → Follows step p Q (attempt m)
  Follows-attempt fm = record { at = λ w. fm.at w }

module _ {State Call W A B : Type 0} {step : State → Call → Option State} where
  pub continue-accepted :
      (P : Result A → State → Type 0) (Q : Result B → State → Type 0) (f : A → Run W Call B)
      (p q : State) (r : Result A) (calls : List Call) (w : W)
      → accept step p calls ≡ some q
      → P r q
      → ((a : A) (q : State) → P (ok a) q → Follows step q Q (f a))
      → ((e : Exception) (q : State) → P (err e) q → Q (err e) q)
      → (q' : State) × (accept step p (continue r calls w f).calls ≡ some q')
        × Q (continue r calls w f).result q'
  continue-accepted P Q f p q (ok a) calls w e x good bad =
      let (q', e', y) = (good a q x).at w in (q', accept-append step p q calls _ e ∙ e', y)
  continue-accepted P Q f p q (err c) calls w e x good bad = (q, e, bad c q x)

  pub Follows-bind :
      {p : State} (P : Result A → State → Type 0) {Q : Result B → State → Type 0} (m : Run W Call A)
      (f : A → Run W Call B)
      → Follows step p P m
      → ((a : A) (q : State) → P (ok a) q → Follows step q Q (f a))
      → ((e : Exception) (q : State) → P (err e) q → Q (err e) q)
      → Follows step p Q (m >>= f)
  Follows-bind {p} P {Q} m f fm good bad = record {
    at = λ w.
        let (q, e, x) = fm.at w in
        continue-accepted P Q f p q (m w).result (m w).calls (m w).world e x good bad;
  }
