-- ===== src/Mongo/Poll/Attempts.antt =====
-- `poll` as a sequence of attempts: which of them are made, what is called and what is returned.
use mathlib.Core.List.{append-nil}
use aws_autorecycle.Base.{
  ℕ, zero, suc, ◌-◌, ◌≤◌, ◌<◌, ◌≡◌, ◌≢◌, ◌⊎◌, inl, inr, refl, ap, ◌∙◌, Option, none, some, List,
  ◌++◌, arith,
}
use aws_autorecycle.Exceptions.{Exception, ok, err, NoneType, Result-cases}
use aws_autorecycle.Effect.{Outcome}
use aws_autorecycle.Mongo.Services.{Services, Run, Call}
use aws_autorecycle.Mongo.Poll.{failure, fails_with, pause, poll_from, poll}

module _ (S : Services) (fn : Run S NoneType) (seconds : Option ℕ) where
  -- The world after a failed attempt and the pause behind it.
  pub after_failure : S.World → S.World
  after_failure w = (pause S seconds (fn w).world).world

  -- The world in which attempt `k` is made, counted from 0, if those before it failed.
  pub world_at : ℕ → S.World → S.World
  world_at zero w = w
  world_at (suc k) w = world_at k (after_failure w)

  -- The calls of `k` failed attempts, each with its pause, and of one more attempt.
  pub trail : ℕ → S.World → List Call
  trail zero w = (fn w).calls
  trail (suc k) w =
      (fn w).calls ++ ((pause S seconds (fn w).world).calls ++ trail k (after_failure w))

  -- The outcome is that of attempt `k`, which follows `k` failed ones and is the first that
  -- succeeds or number `last`.
  pub record IsAttempt (last : ℕ) (w : S.World) (o : Outcome S.World Call NoneType) (k : ℕ)
      : Type 0 where
    pub in_bounds : k ≤ last
    pub failed_before : (j : ℕ) → j < k → (fn (world_at j w)).result ≢ ok tt
    pub returned : o.result ≡ (fn (world_at k w)).result
    pub called : o.calls ≡ trail k w
    pub at_end : (o.result ≡ ok tt) ⊎ (k ≡ last)

  result-pause : (n : Option ℕ) (w : S.World) → (pause S n w).result ≡ ok tt
  unfolding pause
  result-pause none w = refl
  result-pause (some zero) w = refl
  result-pause (some (suc n)) w = refl

  result-poll_from_last : (w : S.World) → (poll_from S fn 0 seconds w).result ≡ (fn w).result
  unfolding poll_from fails_with failure
  result-poll_from_last w = ground arith

  calls-poll_from_last : (w : S.World) → (poll_from S fn 0 seconds w).calls ≡ (fn w).calls
  unfolding poll_from fails_with failure
  calls-poll_from_last w = ground (arith, append-nil {0} (fn w).calls)

  module _ (left : ℕ) (w : S.World) where
    result-poll_from_ok :
        (fn w).result ≡ ok tt → (poll_from S fn (suc left) seconds w).result ≡ ok tt
    unfolding poll_from fails_with failure
    result-poll_from_ok h = ground arith

    calls-poll_from_ok :
        (fn w).result ≡ ok tt → (poll_from S fn (suc left) seconds w).calls ≡ (fn w).calls
    unfolding poll_from fails_with failure
    calls-poll_from_ok h = ground (arith, append-nil {0} (fn w).calls)

    result-poll_from_err :
        (e : Exception)
        → (fn w).result ≡ err e
        → (poll_from S fn (suc left) seconds w).result
          ≡ (poll_from S fn left seconds (after_failure w)).result
    unfolding poll_from fails_with failure after_failure
    result-poll_from_err e h = rw h (ground (arith, result-pause seconds (fn w).world))

    calls-poll_from_err :
        (e : Exception)
        → (fn w).result ≡ err e
        → (poll_from S fn (suc left) seconds w).calls
          ≡ (fn w).calls
            ++ ((pause S seconds (fn w).world).calls
                ++ (poll_from S fn left seconds (after_failure w)).calls)
    unfolding poll_from fails_with failure after_failure
    calls-poll_from_err e h =
        ground (arith, append-nil {0} (fn w).calls, result-pause seconds (fn w).world)

  IsAttempt-suc :
      (left : ℕ) (w : S.World) (e : Exception) (k : ℕ)
      → (fn w).result ≡ err e
      → IsAttempt left (after_failure w) (poll_from S fn left seconds (after_failure w)) k
      → IsAttempt (suc left) w (poll_from S fn (suc left) seconds w) (suc k)
  unfolding world_at trail
  IsAttempt-suc left w e k h a = record {
    in_bounds = omega arith;
    failed_before = failed;
    returned = result-poll_from_err left w e h ∙ a.returned;
    called = calls-poll_from_err left w e h ∙ ap (λ cs. (fn w).calls ++ (paused ++ cs)) a.called;
    at_end = ground (arith, result-poll_from_err left w e h);
  }
    where
      paused : List Call
      paused = (pause S seconds (fn w).world).calls

      failed : (j : ℕ) → j < suc k → (fn (world_at j w)).result ≢ ok tt
      failed zero lt same = cc (h, same)
      failed (suc j) lt same = a.failed_before j (omega arith) same

  poll_from-IsAttempt :
      (left : ℕ) (w : S.World) → (k : ℕ) × IsAttempt left w (poll_from S fn left seconds w) k
  unfolding world_at trail
  poll_from-IsAttempt zero w = (
    0,
    record {
      in_bounds = omega arith;
      failed_before = λ j h. absurd (omega arith);
      returned = result-poll_from_last w;
      called = calls-poll_from_last w;
      at_end = inr refl;
    },
  )
  poll_from-IsAttempt (suc left) w = elim (Result-cases (fn w).result) [
    | inl (a, h) ↦ (
      0,
      record {
        in_bounds = omega arith;
        failed_before = λ j lt. absurd (omega arith);
        returned = ground (arith, result-poll_from_ok left w);
        called = ground (arith, calls-poll_from_ok left w);
        at_end = inl (result-poll_from_ok left w h);
      },
    )
    | inr (e, h) ↦
        let (k, a) = poll_from-IsAttempt left (after_failure w) in
        (suc k, IsAttempt-suc left w e k h a)
  ]

  -- For some `k` below `max_iters`, or `k = 0` if that is 0: the first `k` attempts fail, attempt
  -- `k` succeeds or is the last one, its result is returned, and the calls are those of these
  -- attempts with a pause behind each of the first `k`.
  pub poll-IsAttempt :
      (max_iters : ℕ) (w : S.World)
      → (k : ℕ) × IsAttempt (max_iters - 1) w (poll S fn max_iters seconds w) k
  unfolding poll
  poll-IsAttempt max_iters w = poll_from-IsAttempt (max_iters - 1) w
