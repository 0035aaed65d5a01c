-- ===== src/Flows/Mongo/Outcome.antt =====
-- What an execution for the strategy "mongo" ends with, from its input on.
use aws_autorecycle.Base.{
  ℕ, ◌<◌, String, ◌≡◌, refl, ◌∙◌, Option, none, some, List, false, ◌==◌, inl, inr, arith, eq_iff,
}
use aws_autorecycle.Exceptions.{Exception, Result, ok, err, Result-cases}
use aws_autorecycle.Effect.{continue, lift}
use aws_autorecycle.Json.{Json, str, Fields, lookup}
use aws_autorecycle.Mongo.Services.{Services, Call}
use aws_autorecycle.Mongo.Models.{done}
use aws_autorecycle.Mongo.Step.{decision_json, lambda_handler}
use aws_autorecycle.Mongo.Step.Kept.{insert-other}
use aws_autorecycle.Mongo.Step.Counting.{Reports}
use aws_autorecycle.Flows.InOut.Choices.{Ending, fail, success}
use aws_autorecycle.Flows.Mongo.Choices.{
  status, recycle_event, mongo_recycle, error_event, lambda_error,
}
use aws_autorecycle.Flows.Mongo.{Exit, noticed, recycle_cluster, conclude, mongo_strategy}
use aws_autorecycle.Flows.Mongo.Last.{
  Reaches, at_start, Underway, Left, reports, stops, goes_on, recycle_cluster-Left,
}

-- The documented behaviour of the lambda for notices, which src/autorecycle_scale_asg/lambda_types.py
-- names at `channels`: it makes a list of the channels, and answers with the event. Nothing is said of
-- a notice on which it raises.
abbrev pub ConvertsChannels : (Fields → Result Fields) → Type 0
ConvertsChannels notify =
    (event answer : Fields)
    → notify event ≡ ok answer
    → (key : String) → (key == "channels") ≡ false
    → lookup key answer ≡ lookup key event

mongo_recycle-ok :
    (environment slack_channel component : String) (event : Fields)
    → lookup "component" event ≡ some (str component)
    → mongo_recycle environment slack_channel event
      ≡ ok (recycle_event environment slack_channel (str component))
unfolding mongo_recycle
mongo_recycle-ok environment slack_channel component event h = rw h refl

recycle_event-Underway :
    (environment slack_channel component : String)
    → Underway component 0 (recycle_event environment slack_channel (str component))
unfolding lookup
recycle_event-Underway environment slack_channel component = record {
  message = _;
  counts = record { counter = refl; content = refl };
  of_component = refl;
  has_status = refl;
}

lambda_error-ok :
    (environment runbook component : String) (event : Fields)
    → lookup "component" event ≡ some (str component)
    → lambda_error environment runbook event ≡ ok (error_event environment runbook (str component))
unfolding lambda_error
lambda_error-ok environment runbook component event h = rw h refl

module _ (notify : Fields → Result Fields) (error_info : Exception → Json)
    (converts : ConvertsChannels notify) where
  -- A notice leaves the other keys alone, also where it raises.
  noticed-lookup :
      (event : Fields) (key : String)
      → (key == "channels") ≡ false
      → ("error-info" == key) ≡ false
      → lookup key (noticed notify error_info event) ≡ lookup key event
  noticed-lookup event key c e = elim (Result-cases (notify event)) [
    | inl (answer, h) ↦ rw (noticed, h) (converts event answer h key c)
    | inr (x, h) ↦ rw (noticed, h) (insert-other key "error-info" (error_info x) event e)
  ]

  notify-Underway :
      (component : String) (n : ℕ) (event : Fields)
      → Underway component n event
      → Underway component n (noticed notify error_info event)
  notify-Underway component n event u = record {
    message = u.message;
    counts = record {
      counter =
          noticed-lookup event "counter" (ground (arith, eq_iff "counter" "channels"))
            (ground (arith, eq_iff "error-info" "counter"))
          ∙ u.counts.counter;
      content =
          noticed-lookup event "message_content"
            (ground (arith, eq_iff "message_content" "channels"))
            (ground (arith, eq_iff "error-info" "message_content"))
          ∙ u.counts.content;
    };
    of_component =
        noticed-lookup event "component" (ground (arith, eq_iff "component" "channels"))
          (ground (arith, eq_iff "error-info" "component"))
        ∙ u.of_component;
    has_status =
        noticed-lookup event "status" (ground (arith, eq_iff "status" "channels"))
          (ground (arith, eq_iff "error-info" "status"))
        ∙ u.has_status;
  }

  status-success :
      (event : Fields)
      → lookup "status" event ≡ some (str "success")
      → status (noticed notify error_info event) ≡ ok success
  unfolding status
  status-success event h =
      rw
        (noticed-lookup event "status" (ground (arith, eq_iff "status" "channels"))
            (ground (arith, eq_iff "error-info" "status"))
          ∙ h)
        refl

  status-fail :
      (event : Fields)
      → lookup "status" event ≡ some (str "fail")
      → status (noticed notify error_info event) ≡ ok fail
  unfolding status
  status-fail event h =
      rw
        (noticed-lookup event "status" (ground (arith, eq_iff "status" "channels"))
            (ground (arith, eq_iff "error-info" "status"))
          ∙ h)
        refl

-- The event of the first invocation: what the notice of the start leaves of the event of "Mongo
-- Recycle".
abbrev pub first_event :
    (Fields → Result Fields) → (Exception → Json) → String → String → String → Fields
first_event notify error_info environment slack_channel component =
    noticed notify error_info (recycle_event environment slack_channel (str component))

module _ (S : Services) (show : Json → String) (rest : S.World → S.World) (started : Fields)
    (begun : S.World) where
  -- The end of an execution that makes so many invocations at most, the first one on the event
  -- `started`: with success, and the report of fewer nodes recycled, when the invocation after these
  -- decided `DONE`; with a failure, when the invocation after fewer nodes recycled raised an exception;
  -- or with as many nodes recycled, and the execution still under way.
  pub data Ends (component : String) (rounds : ℕ) : Result (Option Ending × Fields) → Type 0 where
    succeeds :
        {k : ℕ} {event last : Fields} {w : S.World}
        → k < rounds
        → Reaches S show rest started begun k event w
        → (lambda_handler S show event w).result ≡ ok last
        → Reports show k last
        → lookup "decision" last ≡ some (decision_json done)
        → lookup "component" last ≡ some (str component)
        → Ends component rounds (ok (some success, last))
    fails :
        {k : ℕ} {event last : Fields} {e : Exception} {w : S.World}
        → k < rounds
        → Reaches S show rest started begun k event w
        → (lambda_handler S show event w).result ≡ err e
        → lookup "status" last ≡ some (str "fail")
        → lookup "component" last ≡ some (str component)
        → Ends component rounds (ok (some fail, last))
    continues :
        {event : Fields} {w : S.World}
        → Reaches S show rest started begun rounds event w
        → Underway component rounds event
        → Ends component rounds (ok (none, event))

module _ (S : Services) (show : Json → String) (rest : S.World → S.World)
    (notify : Fields → Result Fields) (error_info : Exception → Json)
    (converts : ConvertsChannels notify) (environment slack_channel runbook component : String)
    (rounds : ℕ) where
  error_status :
      lookup "status" (error_event environment runbook (str component)) ≡ some (str "fail")
  unfolding lookup
  error_status = refl

  error_component :
      lookup "component" (error_event environment runbook (str component)) ≡ some (str component)
  unfolding lookup
  error_component = refl

  concluded-Ends :
      (r : Result Exit) (calls : List Call) (begun w : S.World)
      → Left S show rest
          (first_event notify error_info environment slack_channel component)
          begun
          component
          rounds
          r
      → Ends S show rest
          (first_event notify error_info environment slack_channel component)
          begun
          component
          rounds
          (continue r calls w
            (λ exit. lift (conclude notify error_info environment runbook exit))).result
  unfolding conclude
  concluded-Ends r calls begun w (reports {o = o} below reached returned says d c s) =
      rw (status-success notify error_info converts o s) (succeeds below reached returned says d c)
  concluded-Ends r calls begun w (stops {event = event} below reached h c) =
      rw
        (
          lambda_error-ok environment runbook component event c,
          status-fail notify error_info converts (error_event environment runbook (str component))
              error_status,
        )
        (fails below reached h error_status error_component)
  concluded-Ends r calls begun w (goes_on reached u) = continues reached u

  -- If the lambda for notices, where it answers, answers with the event and at most other channels, an
  -- execution with a component, of so many invocations at most, ends in one of three ways. It succeeds
  -- with the event of an invocation that decided `DONE`, which reports how many nodes the fewer
  -- invocations before it recycled; it fails with the status "fail" after fewer invocations that
  -- recycled a node each and one that raised an exception; or it is under way, with an event that
  -- counts a recycled node for each invocation. These invocations are the execution's own: each is made
  -- on the event that the one before returned, after a wait, in the state of the world that these
  -- left. The event's component is always the same.
  pub mongo_strategy-Ends :
      (event : Fields) (w : S.World)
      → lookup "component" event ≡ some (str component)
      → Ends S show rest
          (first_event notify error_info environment slack_channel component)
          w
          component
          rounds
          (mongo_strategy S show rest notify error_info environment slack_channel runbook rounds
            event w).result
  unfolding mongo_strategy
  mongo_strategy-Ends event w h =
      let o =
        recycle_cluster S show rest rounds
          (first_event notify error_info environment slack_channel component) w in
      let u =
        notify-Underway notify error_info converts component 0 _
          (recycle_event-Underway environment slack_channel component) in
      rw (mongo_recycle-ok environment slack_channel component event h) (
        concluded-Ends o.result o.calls w o.world (
          recycle_cluster-Left S show rest
            (first_event notify error_info environment slack_channel component) w component rounds
            rounds 0 (first_event notify error_info environment slack_channel component) w
            (omega arith) at_start u))
