-- ===== src/Flows/Consul/Protocol.antt =====
-- What the state machine of a Consul cluster may do in which order, and rules for runs that keep to it.
use aws_autorecycle.Base.{
  ℕ, ◌*◌, suc, zero, ◌≡◌, refl, ap, Option, none, some, List, [], ◌∷◌, ◌==◌, eqb, if◌then◌else◌,
}
use aws_autorecycle.Exceptions.{Result, Exception, ok, err, NoneType}
use aws_autorecycle.Effect.{attempt, ask, ◌>>=◌, ◌>>◌}
use aws_autorecycle.Effect.Follows.{
  Follows, then_accept, Follows-pure, Follows-ask, Follows-attempt, Follows-bind,
}
use aws_autorecycle.Consul.Nodes.{Node}
use aws_autorecycle.Flows.Consul.{
  Tasks, Call, started, completed, failed, notified, checked, listed, sent_leave, terminated,
  paused, Run, pause, or_again, retry,
}

-- How far an execution is, with the nodes that are still to be recycled.
pub data State : Type 0 where
  starting healthy : State
  waiting : List Node → State
  has_left may_go has_gone : Node → List Node → State
  finished broken stopped : State

-- What is allowed. A task that failed allows the notice of the failure alone, except that a health
-- check may be tried again.
abbrev pub next_state : State → Call → Option State
next_state starting (notified started (ok _)) = some starting
next_state starting (checked none (ok _)) = some healthy
next_state starting (checked none (err _)) = some starting
next_state starting (paused _) = some starting
next_state healthy (listed (ok nodes)) = some (waiting nodes)
next_state (waiting (n ∷ nodes)) (sent_leave ident (ok _)) =
    if ident == n.instance_id then some (has_left n nodes) else none
next_state (waiting []) (notified completed (ok _)) = some finished
next_state (has_left n nodes) (checked (some k) (ok _)) =
    if eqb k 4 then some (may_go n nodes) else none
next_state (has_left n nodes) (checked (some k) (err _)) =
    if eqb k 4 then some (has_left n nodes) else none
next_state (has_left n nodes) (paused _) = some (has_left n nodes)
next_state (may_go n nodes) (terminated ident (ok _)) =
    if ident == n.instance_id then some (has_gone n nodes) else none
next_state (has_gone n nodes) (checked none (ok _)) = some (waiting nodes)
next_state (has_gone n nodes) (checked none (err _)) = some (has_gone n nodes)
next_state (has_gone n nodes) (paused _) = some (has_gone n nodes)
next_state starting (notified started (err _)) = some broken
next_state healthy (listed (err _)) = some broken
next_state (waiting (n ∷ nodes)) (sent_leave ident (err _)) = some broken
next_state (waiting []) (notified completed (err _)) = some broken
next_state (may_go n nodes) (terminated ident (err _)) = some broken
next_state finished (notified failed _) = none
next_state stopped (notified failed _) = none
next_state _ (notified failed _) = some stopped
next_state _ _ = none

-- The states that a run leaves, if it succeeds and if it fails.
abbrev pub EndsIn : {A : Type 0} → State → State → Result A → State → Type 0
EndsIn good bad (ok a) q = q ≡ good
EndsIn good bad (err e) q = q ≡ bad

-- The failure may be announced.
abbrev pub IsUnderWay : State → Type 0
IsUnderWay p = (r : Result NoneType) → next_state p (notified failed r) ≡ some stopped

abbrev pub Led : {A : Type 0} → State → Result A → State → Type 0
Led good (ok a) q = q ≡ good
Led good (err e) q = IsUnderWay q

pub Led-EndsIn :
    {A : Type 0} (good bad : State) (r : Result A) (q : State)
    → IsUnderWay bad
    → EndsIn good bad r q
    → Led good r q
Led-EndsIn good bad (ok a) q u h = h
Led-EndsIn good bad (err e) q u h = rw h u

abbrev Tried : {A : Type 0} → State → State → Result (Result A) → State → Type 0
Tried p good (ok r) q = EndsIn good p r q
Tried p good (err e) q = ⊥

module _ (T : Tasks) where
  pub pause-EndsIn :
      (p : State) (seconds : ℕ)
      → next_state p (paused seconds) ≡ some p
      → Follows next_state p (EndsIn p p) (pause T seconds)
  pause-EndsIn p seconds h = record { at = λ w. (p, ap (λ o. then_accept next_state o []) h, refl) }

  again_EndsIn :
      {A : Type 0} (p good : State) (again : Run T A)
      → Follows next_state p (EndsIn good p) again
      → (r : Result A) (q : State) → EndsIn good p r q
      → Follows next_state q (EndsIn good p) (or_again T again r)
  again_EndsIn p good again h (ok a) q x = Follows-pure a x
  again_EndsIn p good again h (err e) q x = rw x h

  pause_first :
      {A : Type 0} (p good : State) (seconds : ℕ) (next : Run T A)
      → next_state p (paused seconds) ≡ some p
      → Follows next_state p (EndsIn good p) next
      → Follows next_state p (EndsIn good p) (pause T seconds >> next)
  pause_first p good seconds next w h =
      Follows-bind (EndsIn p p) (pause T seconds) (λ _. next) (pause-EndsIn p seconds w)
        (λ _ q x. rw x h) (λ e q x. x)

  module _ {A : Type 0} (p good : State) (task : Run T A)
      (waits : (seconds : ℕ) → next_state p (paused seconds) ≡ some p) where
    pub retry-EndsIn :
        (max_attempts seconds : ℕ)
        → Follows next_state p (EndsIn good p) task
        → Follows next_state p (EndsIn good p) (retry T max_attempts seconds task)
    unfolding retry
    retry-EndsIn zero seconds h = h
    retry-EndsIn (suc n) seconds h =
        Follows-bind (Tried p good) (attempt task) _ (Follows-attempt h)
          (λ r q x.
            again_EndsIn p good _
              (pause_first p good seconds _ (waits seconds) (retry-EndsIn n (seconds * 2) h)) r q x)
          (λ e q x. absurd x)

  pub asks :
      {A : Type 0} {p : State} (good bad : State) (entry : Result A → Call)
      (f : T.World → Result A × T.World)
      → ((a : A) → next_state p (entry (ok a)) ≡ some good)
      → ((e : Exception) → next_state p (entry (err e)) ≡ some bad)
      → Follows next_state p (EndsIn good bad) (ask entry f)
  asks {A} {p} good bad entry f g b = Follows-ask entry f answer
    where
      answer :
          (r : Result A) → (q : State) × (next_state p (entry r) ≡ some q) × EndsIn good bad r q
      answer (ok a) = (good, g a, refl)
      answer (err e) = (bad, b e, refl)

  -- A task that leaves `good`, or `bad` from which the failure may be announced, and then the rest.
  pub then_Led :
      {A B : Type 0} {p better : State} (good bad : State) (m : Run T A) (f : A → Run T B)
      → IsUnderWay bad
      → Follows next_state p (EndsIn good bad) m
      → ((a : A) → Follows next_state good (Led better) (f a))
      → Follows next_state p (Led better) (m >>= f)
  then_Led good bad m f u h k =
      Follows-bind (EndsIn good bad) m f h (λ a q x. rw x (k a)) (λ e q x. rw x u)
