-- ===== src/ScaleAsg/Handler/Counter.antt =====
-- What becomes of a recycling whose event goes round, from its first invocation on.
use aws_autorecycle.Base.{
  append_nil, ℕ, String, ap, zero, suc, ◌<◌, ◌≤◌, ℤ, pos, ◌≡◌, refl, ◌⊎◌, inl, inr, true, false,
  Option, none, some, arith,
}
use aws_autorecycle.Exceptions.{Exception, ok}
use aws_autorecycle.Effect.{pure, ◌>>=◌}
use aws_autorecycle.ScaleAsg.Event.{Event, value, next_counter}
use aws_autorecycle.ScaleAsg.Services.{Services, Run}
use aws_autorecycle.ScaleAsg.Handler.{is_unset, counter_below, has_counter, timed_out, handle_event}
use aws_autorecycle.ScaleAsg.Handler.Order.{turn_order}

-- The counter of the event after so many invocations.
abbrev pub counter_after : ℕ → Option ℤ
counter_after zero = none
counter_after (suc n) = some (pos (suc n))

pub below_sixty :
    (n : ℕ) (event : Event)
    → n < 60
    → value event.counter ≡ counter_after n
    → (is_unset (value event.counter) ≡ true) ⊎ (counter_below 60 event ≡ true)
below_sixty zero event b h = inl (rw h refl)
below_sixty (suc n) event b h = inr (rw (counter_below, h) (ground arith))

pub next_counter-after : (n : ℕ) → next_counter (counter_after n) ≡ pos (suc n)
next_counter-after zero = refl
next_counter-after (suc n) = ground arith

module _ (S : Services) (environment : Option String) (repr : Exception → String) where
  -- So many invocations, each with the event that the one before it returned.
  pub invocations : ℕ → Event → Run S Event
  invocations zero event = pure event
  invocations (suc n) event = invocations n event >>= handle_event S environment repr

  module _ (event : Event) (w : S.World) where
    Counted : ℕ → Type 0
    Counted n =
        (o : Event) × ((invocations n event w).result ≡ ok o) × (value o.counter ≡ counter_after n)

    invocations-Counted : (n : ℕ) → n ≤ 60 → value event.counter ≡ none → Counted n
    unfolding invocations Counted
    invocations-Counted zero b h = (event, refl, h)
    invocations-Counted (suc n) b h =
        let (o, e, c) = invocations-Counted n (omega arith) h in
        let turn = turn_order S environment repr o (below_sixty n o (omega arith) c) in
        let (q, accepted, turned) = turn.at (invocations n event w).world in
        let (o', e', next, _, _) = turned in
        (o', rw e e', rw (next, c, value) (ap some (next_counter-after n)))

    sixty-timed_out :
        (o : Event)
        → value o.counter ≡ some (pos 60)
        → handle_event S environment repr o ≡ pure (timed_out o)
    unfolding handle_event
    sixty-timed_out o h =
        let not_below : counter_below 60 o ≡ false = rw (counter_below, h) refl in
        let now : has_counter 60 o ≡ true = rw (has_counter, h) refl in
        rw h (rw (not_below, now) refl)

    after_sixty :
        (n : ℕ)
        → (o : Event) → (invocations n event w).result ≡ ok o
        → value o.counter ≡ some (pos 60)
        → invocations (suc n) event w ≡ record (invocations n event w) { result = ok (timed_out o) }
    unfolding invocations
    after_sixty n o e c = rw (e, sixty-timed_out o c, append_nil (invocations n event w).calls) refl

    -- From an event with no counter, the first sixty invocations raise no exception, whatever AWS
    -- answers, and count up to 60. The next one calls nothing and returns the event of a recycling
    -- that takes too long, which says "fail".
    pub invocations-timed_out :
        value event.counter ≡ none
        → (o : Event) × ((invocations 60 event w).result ≡ ok o)
          × (value o.counter ≡ some (pos 60))
          × (invocations 61 event w ≡ record (invocations 60 event w) { result = ok (timed_out o) })
    unfolding Counted
    invocations-timed_out h =
        let (o, e, c) = invocations-Counted 60 (omega arith) h in (o, e, c, after_sixty 60 o e c)
