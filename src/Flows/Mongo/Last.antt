-- ===== src/Flows/Mongo/Last.antt =====
-- How an execution for the strategy "mongo" ends.
use mathlib.Core.Path.{subst}
use aws_autorecycle.Base.{
  ℕ, zero, suc, ◌+◌, ◌<◌, String, ◌≡◌, ◌≢◌, refl, ◌∙◌, some, arith, if◌then◌else◌,
}
use aws_autorecycle.Exceptions.{Exception, Result, ok, err}
use aws_autorecycle.Effect.{lift, pure}
use aws_autorecycle.Effect.Returns.{Returns, Returns-lift, Returns-bind}
use aws_autorecycle.Json.{Json, str, Fields, lookup, get_item, as_text}
use aws_autorecycle.Mongo.Models.{Decision, done, recycle_secondary, step_down_and_recycle_primary}
use aws_autorecycle.Mongo.Services.{Services, Run}
use aws_autorecycle.Mongo.Step.{
  decision_json, finish, is_first_run, record_recycle_starting, step, lambda_handler,
}
use aws_autorecycle.Mongo.Step.Counting.{Counts, recycled-Counts, Reports, reported-Reports}
use aws_autorecycle.Mongo.Step.Kept.{Kept, finish-Kept}
use aws_autorecycle.Flows.Mongo.Choices.{Next, wait, slack_message, after_recycle}
use aws_autorecycle.Flows.Mongo.{Exit, finished, raised, underway, after_lambda, recycle_cluster}

-- The choice that follows a decision.
next_of : Decision → Next
next_of done = slack_message
next_of _ = wait

after_recycle-Kept :
    (d : Decision) (event o : Fields) → Kept d event o → after_recycle o ≡ ok (next_of d)
unfolding after_recycle decision_json lookup next_of
after_recycle-Kept done event o k = rw (k.decision) refl
after_recycle-Kept (recycle_secondary i) event o k = rw (k.decision) refl
after_recycle-Kept (step_down_and_recycle_primary i) event o k = rw (k.decision) refl

module _ (S : Services) (show : Json → String) where
  IsFinished : Fields → Fields → Type 0
  IsFinished event o = (d : Decision) × (finish show d event ≡ ok o)

  -- An invocation that returns has written a decision into the event.
  lambda_handler-IsFinished :
      (event : Fields) → Returns (IsFinished event) (lambda_handler S show event)
  unfolding lambda_handler IsFinished
  lambda_handler-IsFinished event =
      let first_run = λ (component : String).
        if is_first_run event then record_recycle_starting S component else pure tt in
      Returns-bind (lift (get_item event "component")) _ (λ value.
        Returns-bind (lift (as_text value)) _ (λ component.
          Returns-bind (first_run component) _ (λ _.
            Returns-bind (step S component) _
              (λ d. Returns-lift (finish show d event) (λ o h. (d, h))))))

-- An event after so many invocations that recycled a node each.
pub record Underway (component : String) (n : ℕ) (event : Fields) : Type 0 where
  pub message : Fields
  pub counts : Counts n message event
  pub of_component : lookup "component" event ≡ some (str component)
  pub has_status : lookup "status" event ≡ some (str "success")

-- After so many invocations, each of which recycled a node and was followed by a wait, the next one is
-- made on this event in this state of the world.
pub data Reaches (S : Services) (show : Json → String) (rest : S.World → S.World) (started : Fields)
    (begun : S.World) : ℕ → Fields → S.World → Type 0 where
  at_start : Reaches S show rest started begun 0 started begun
  next :
      {n : ℕ} {event o : Fields} {w : S.World} (d : Decision)
      → Reaches S show rest started begun n event w
      → (lambda_handler S show event w).result ≡ ok o
      → lookup "decision" o ≡ some (decision_json d)
      → d ≢ done
      → Reaches S show rest started begun (suc n) o (rest (lambda_handler S show event w).world)

module _ (S : Services) (show : Json → String) (rest : S.World → S.World) (started : Fields)
    (begun : S.World) (component : String) (total : ℕ) where
  -- How the loop is left after so many invocations at most.
  pub data Left : Result Exit → Type 0 where
    reports :
        {k : ℕ} {event o : Fields} {w : S.World}
        → k < total
        → Reaches S show rest started begun k event w
        → (lambda_handler S show event w).result ≡ ok o
        → Reports show k o
        → lookup "decision" o ≡ some (decision_json done)
        → lookup "component" o ≡ some (str component)
        → lookup "status" o ≡ some (str "success")
        → Left (ok (finished o))
    stops :
        {k : ℕ} {event : Fields} {e : Exception} {w : S.World}
        → k < total
        → Reaches S show rest started begun k event w
        → (lambda_handler S show event w).result ≡ err e
        → lookup "component" event ≡ some (str component)
        → Left (ok (raised event e))
    goes_on :
        {event : Fields} {w : S.World}
        → Reaches S show rest started begun total event w
        → Underway component total event
        → Left (ok (underway event))

  finish-eq :
      (d : Decision) (event o o' : Fields)
      → finish show d event ≡ ok o
      → finish show d event ≡ ok o'
      → o' ≡ o
  finish-eq d event o o' h h' = ground (arith, h, h')

  recycled-Underway :
      (n : ℕ) (d : Decision) (event o : Fields)
      → d ≢ done
      → finish show d event ≡ ok o
      → Underway component n event
      → Underway component (suc n) o
  recycled-Underway n d event o ne h u =
      let (o', h', counts) = recycled-Counts show n u.message event d ne u.counts in
      let kept = finish-Kept show d event o h in
      record {
        message = u.message;
        counts = subst (λ o. Counts (suc n) u.message o) (finish-eq d event o o' h h') counts;
        of_component = kept.component ∙ u.of_component;
        has_status = kept.status ∙ u.has_status;
      }

  done-Left :
      (n : ℕ) (event o : Fields) (w : S.World)
      → n < total
      → Reaches S show rest started begun n event w
      → (lambda_handler S show event w).result ≡ ok o
      → finish show done event ≡ ok o
      → Underway component n event
      → Left (ok (finished o))
  done-Left n event o w below reached returned h u =
      let (o', h', says) = reported-Reports show n u.message event u.counts in
      let kept = finish-Kept show done event o h in
      reports below reached returned
        (subst (λ o. Reports show n o) (finish-eq done event o o' h h') says) kept.decision
        (kept.component ∙ u.of_component) (kept.status ∙ u.has_status)

module _ (S : Services) (show : Json → String) (rest : S.World → S.World) (started : Fields)
    (begun : S.World) (component : String) (total : ℕ) where
  abbrev Leaves : Fields → ℕ → S.World → Type 0
  Leaves event rounds w =
      Left S show rest started begun component total
        (recycle_cluster S show rest rounds event w).result

  abbrev again : ℕ → Fields → Run S Exit
  again rounds = recycle_cluster S show rest rounds

  module _ (n rounds : ℕ) (left : n + suc rounds ≡ total)
      (later : (event : Fields) (w : S.World)
        → Reaches S show rest started begun (suc n) event w
        → Underway component (suc n) event
        → Leaves event rounds w)
      (event : Fields) (w : S.World) (reached : Reaches S show rest started begun n event w) where
    abbrev Answers : Result Fields → Type 0
    Answers r =
        Left S show rest started begun component total
          (after_lambda S show rest (again rounds) event r
            (lambda_handler S show event w).world).result

    waits-Left :
        (d : Decision) (o : Fields)
        → next_of d ≡ wait
        → d ≢ done
        → (lambda_handler S show event w).result ≡ ok o
        → finish show d event ≡ ok o
        → Underway component n event
        → Answers (ok o)
    waits-Left d o waits ne returned h u =
        let kept = finish-Kept show d event o h in
        rw (after_recycle-Kept d event o kept, waits)
          (later o (rest (lambda_handler S show event w).world)
            (next d reached returned kept.decision ne)
            (recycled-Underway S show rest started begun component total n d event o ne h u))

    decided-Left :
        (d : Decision) (o : Fields)
        → (lambda_handler S show event w).result ≡ ok o
        → finish show d event ≡ ok o
        → Underway component n event
        → Answers (ok o)
    unfolding next_of
    decided-Left done o returned h u =
        rw (after_recycle-Kept done event o (finish-Kept show done event o h)) (
          done-Left S show rest started begun component total n event o w (omega (arith, left))
            reached returned h u)
    decided-Left (recycle_secondary i) o returned h u =
        waits-Left (recycle_secondary i) o refl (λ e. ground (arith, e)) returned h u
    decided-Left (step_down_and_recycle_primary i) o returned h u =
        waits-Left (step_down_and_recycle_primary i) o refl (λ e. ground (arith, e)) returned h u

    answered-Left :
        (r : Result Fields)
        → (lambda_handler S show event w).result ≡ r
        → Underway component n event
        → Answers r
    unfolding IsFinished
    answered-Left (err e) h u = stops (omega (arith, left)) reached h u.of_component
    answered-Left (ok o) h u =
        let (d, e) = (lambda_handler-IsFinished S show event).at w o h in decided-Left d o h e u

  pub recycle_cluster-Left :
      (rounds n : ℕ) (event : Fields) (w : S.World)
      → n + rounds ≡ total
      → Reaches S show rest started begun n event w
      → Underway component n event
      → Leaves event rounds w
  unfolding recycle_cluster
  recycle_cluster-Left zero n event w left reached u =
      let e : n ≡ total = omega (arith, left) in
      goes_on (subst (λ k. Reaches S show rest started begun k event w) e reached)
        (subst (λ k. Underway component k event) e u)
  recycle_cluster-Left (suc rounds) n event w left reached u =
      answered-Left n rounds left
        (λ event' w' reached' u'.
          recycle_cluster-Left rounds (suc n) event' w' (omega (arith, left)) reached' u')
        event w reached (lambda_handler S show event w).result refl u
