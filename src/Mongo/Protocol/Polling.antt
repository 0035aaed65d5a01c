-- ===== src/Mongo/Protocol/Polling.antt =====
-- Polling keeps to the protocol if each attempt does, from wherever a failed one leaves it.
use aws_autorecycle.Base.{ℕ, zero, suc, ◌-◌, ◌≡◌, refl, Option, none, some}
use aws_autorecycle.Exceptions.{Exception, Result, ok, err, NoneType}
use aws_autorecycle.Effect.{pure, raise, attempt, ◌>>◌}
use aws_autorecycle.Effect.Follows.{
  Follows, Follows-pure, Follows-raise, Follows-bind, Follows-ask_where, Follows-attempt,
}
use aws_autorecycle.Mongo.Services.{Services, Run, slept}
use aws_autorecycle.Mongo.Poll.{failure, fails_with, pause, poll_from, poll}
use aws_autorecycle.Mongo.Protocol.{Phase, allowed}

abbrev pub Keeps :
    (S : Services) {A : Type 0} (p : Phase) (Q : Result A → Phase → Type 0) (m : Run S A) → Type 0
Keeps S p Q m = Follows allowed {W = S.World} p Q m

module _ (S : Services) where
  abbrev Paused : Phase → Result NoneType → Phase → Type 0
  Paused p (ok a) q = q ≡ p
  Paused p (err e) q = ⊥

  pause-Keeps : (n : Option ℕ) (p : Phase) → Keeps S p (Paused p) (pause S n)
  unfolding pause
  pause-Keeps none p = Follows-pure tt refl
  pause-Keeps (some zero) p = Follows-pure tt refl
  pause-Keeps (some (suc n)) p =
      Follows-ask_where (λ r. r ≡ ok tt) (λ _. slept (suc n)) _ (λ w. refl)
        (λ r e. (p, refl, rw e refl))

module _ (S : Services) (P : Result NoneType → Phase → Type 0) where
  -- What holds after `fails_with`.
  abbrev Reported : Result (Option Exception) → Phase → Type 0
  Reported (ok none) q = P (ok tt) q
  Reported (ok (some e)) q = P (err e) q
  Reported (err e) q = ⊥

  abbrev Attempted : Result (Result NoneType) → Phase → Type 0
  Attempted (ok r) q = P r q
  Attempted (err e) q = ⊥

  Reported-failure : (r : Result NoneType) (q : Phase) → P r q → Reported (ok (failure r)) q
  unfolding failure
  Reported-failure (ok a) q h = h
  Reported-failure (err e) q h = h

  module _ (fn : Run S NoneType) where
    fails_with-Keeps : (p : Phase) → Keeps S p P fn → Keeps S p Reported (fails_with S fn)
    unfolding fails_with
    fails_with-Keeps p h =
        Follows-bind Attempted (attempt fn) _ (Follows-attempt h)
          (λ r q x. Follows-pure (failure r) (Reported-failure r q x)) (λ e q x. x)

    last_attempt :
        (o : Option Exception) (q : Phase)
        → Reported (ok o) q
        → Keeps S q P (elim o [ none ↦ pure tt | some e ↦ raise e ])
    last_attempt none q h = Follows-pure tt h
    last_attempt (some e) q h = Follows-raise e h

    retry :
        (seconds : Option ℕ) (rest : Run S NoneType)
        → ((e : Exception) (q : Phase) → P (err e) q → Keeps S q P rest)
        → (o : Option Exception) (q : Phase) → Reported (ok o) q
        → Keeps S q P (elim o [ none ↦ pure tt | some e ↦ do pause S seconds; rest ])
    retry seconds rest goes_on none q h = Follows-pure tt h
    retry seconds rest goes_on (some e) q h =
        Follows-bind (Paused S q) (pause S seconds) _ (pause-Keeps S seconds q)
          (λ a q' same. rw same (goes_on e q h)) (λ e' q' x. absurd x)

    module _ (again : (e : Exception) (q : Phase) → P (err e) q → Keeps S q P fn) where
      poll_from-Keeps :
          (left : ℕ) (seconds : Option ℕ) (p : Phase)
          → Keeps S p P fn
          → Keeps S p P (poll_from S fn left seconds)
      unfolding poll_from
      poll_from-Keeps zero seconds p h =
          Follows-bind Reported (fails_with S fn) _ (fails_with-Keeps p h) last_attempt
            (λ e q x. absurd x)
      poll_from-Keeps (suc left) seconds p h =
          Follows-bind Reported (fails_with S fn) _ (fails_with-Keeps p h)
            (retry seconds _ (λ e q x. poll_from-Keeps left seconds q (again e q x)))
            (λ e q x. absurd x)

      -- Whatever an attempt ensures, polling ensures.
      pub poll-Keeps :
          (max_iters : ℕ) (seconds : Option ℕ) (p : Phase)
          → Keeps S p P fn
          → Keeps S p P (poll S fn max_iters seconds)
      unfolding poll
      poll-Keeps max_iters seconds p h = poll_from-Keeps (max_iters - 1) seconds p h
