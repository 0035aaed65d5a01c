-- ===== src/Mongo/Step/Counting.antt =====
-- What the events say after a number of invocations, each with the event that the last one returned.
use mathlib.Core.Path.{subst}
use native.Mathlib.Numerals.{add-one}
use aws_autorecycle.Base.{
  ℕ, zero, suc, ◌+◌, pos, String, ◌<>◌, ◌≡◌, ◌≢◌, refl, ◌∙◌, Option, none, some, List, [], ◌∷◌,
  arith, length, All, show_ℕ,
}
use aws_autorecycle.Exceptions.{Result, ok, ◌>>=◌}
use aws_autorecycle.Json.{Json, num, str, obj, Fields, lookup, insert}
use aws_autorecycle.Json.Laws.{lookup-insert}
use aws_autorecycle.Mongo.Models.{Decision, done, recycle_secondary, step_down_and_recycle_primary}
use aws_autorecycle.Mongo.Step.{
  decision_json, final_text, increment_counter, with_counter, bump, finish,
}

-- The events of invocations whose steps returned these decisions.
abbrev pub invocations : (Json → String) → List Decision → Fields → Result Fields
invocations show [] event = ok event
invocations show (d ∷ ds) event = finish show d event >>= λ event'. invocations show ds event'

-- The counter of an event after so many invocations.
abbrev pub counter_after : ℕ → Option Json
counter_after zero = none
counter_after (suc n) = some (num (pos (suc n)))

-- The event was returned by so many invocations, none of which was the last.
pub record Counts (n : ℕ) (message : Fields) (event : Fields) : Type 0 where
  pub counter : lookup "counter" event ≡ counter_after n
  pub content : lookup "message_content" event ≡ some (obj message)

with_counter-none :
    (event : Fields)
    → lookup "counter" event ≡ none
    → with_counter event ≡ insert "counter" (num (pos 0)) event
unfolding with_counter
with_counter-none event h = ground arith

with_counter-some :
    (event : Fields) {v : Json} → lookup "counter" event ≡ some v → with_counter event ≡ event
unfolding with_counter
with_counter-some event h = ground arith

bump-num :
    (event : Fields) (n : ℕ)
    → lookup "counter" event ≡ some (num (pos n))
    → bump event ≡ ok (insert "counter" (num (pos (n + 1))) event)
bump-num event n h = ground arith

increment_counter-parts : (event : Fields) → increment_counter event ≡ bump (with_counter event)
unfolding increment_counter
increment_counter-parts event = refl

increment-Counts :
    (n : ℕ) (message event : Fields)
    → Counts n message event
    → (event' : Fields) × (increment_counter event ≡ ok event') × Counts (suc n) message event'
increment-Counts zero message event h = (
  insert "counter" (num (pos 1)) (insert "counter" (num (pos 0)) event),
  rw (increment_counter-parts, with_counter-none event h.counter)
      (bump-num _ 0 (simp lookup-insert)),
  record { counter = simp lookup-insert; content = simp lookup-insert h.content },
)
increment-Counts (suc n) message event h = (
  insert "counter" (num (pos (suc n + 1))) event,
  rw (increment_counter-parts, with_counter-some event h.counter)
      (bump-num event (suc n) h.counter),
  record { counter = simp (lookup-insert, add-one) refl; content = simp lookup-insert h.content },
)

decided-Counts :
    (n : ℕ) (message event : Fields) (v : Json)
    → Counts n message event
    → Counts n message (insert "decision" v event)
decided-Counts n message event v h = record {
  counter = simp lookup-insert h.counter;
  content = simp lookup-insert h.content;
}

module _ (show : Json → String) where
  -- An invocation that recycled a node adds one to the counter.
  pub recycled-Counts :
      (n : ℕ) (message event : Fields) (d : Decision)
      → d ≢ done
      → Counts n message event
      → (event' : Fields) × (finish show d event ≡ ok event') × Counts (suc n) message event'
  unfolding finish
  recycled-Counts n message event done ne h = absurd (ne refl)
  recycled-Counts n message event (recycle_secondary i) ne h =
      increment-Counts n message _ (decided-Counts n message event _ h)
  recycled-Counts n message event (step_down_and_recycle_primary i) ne h =
      increment-Counts n message _ (decided-Counts n message event _ h)

  invocations-Counts :
      (n : ℕ) (message event : Fields) (ds : List Decision)
      → All (λ d. d ≢ done) ds
      → Counts n message event
      → (event' : Fields) × (invocations show ds event ≡ ok event')
        × Counts (n + length ds) message event'
  invocations-Counts n message event [] all h =
      (event, refl, subst (λ k. Counts k message event) (omega arith) h)
  invocations-Counts n message event (d ∷ ds) all h =
      let (next, e, h') = recycled-Counts n message event d all.0 h in
      let (last, e', h'') = invocations-Counts (suc n) message next ds all.1 h' in
      (last, rw e e', subst (λ k. Counts k message last) (omega arith) h'')

  -- The text that reports the number of nodes that were recycled.
  abbrev pub report : ℕ → String
  report zero = "No instances were recycled, because there was nothing to do"
  report (suc n) =
      "Autorecycling has successfully completed. Recycled "
      <> (show_ℕ (suc n) <> " mongo instances.")

  final_text-report :
      (n : ℕ) (message event : Fields) → Counts n message event → final_text show event ≡ report n
  unfolding final_text
  final_text-report zero message event h = rw (h.counter, final_text)
  final_text-report (suc n) message event h = rw (h.counter, final_text)

  -- The event that the last invocation returns.
  abbrev reported : Fields → ℕ → Fields → Fields
  reported message n event =
      insert "message_content" (obj (insert "text" (str (report n)) message))
        (insert "decision" (decision_json done) event)

  finish-done :
      (n : ℕ) (message event : Fields)
      → Counts n message event
      → finish show done event ≡ increment_counter (reported message n event)
  unfolding finish
  finish-done n message event h =
      let h' = decided-Counts n message event (decision_json done) h in
      rw (h'.content, final_text-report n message _ h')

  -- What the event says that the last of so many invocations returns.
  pub record Reports (n : ℕ) (event : Fields) : Type 0 where
    pub counter : lookup "counter" event ≡ some (num (pos (suc n)))
    pub message : Fields
    pub content : lookup "message_content" event ≡ some (obj message)
    pub text : lookup "text" message ≡ some (str (report n))

  pub reported-Reports :
      (n : ℕ) (message event : Fields)
      → Counts n message event
      → (event' : Fields) × (finish show done event ≡ ok event') × Reports n event'
  reported-Reports n message event h =
      let said = insert "text" (str (report n)) message in
      let (event', e, h') =
        increment-Counts n said (reported message n event)
          (record { counter = simp lookup-insert h.counter; content = simp lookup-insert }) in
      (
        event',
        finish-done n message event h ∙ e,
        record {
          counter = h'.counter;
          message = said;
          content = h'.content;
          text = simp lookup-insert;
        },
      )

  -- From an event with a message and no counter, after any number of invocations that recycled a node
  -- each, the one whose decision is `done` succeeds, counts itself too, and reports how many nodes
  -- were recycled, or that there was nothing to do if that is none.
  pub invocations-Reports :
      (ds : List Decision) (message event : Fields)
      → All (λ d. d ≢ done) ds
      → lookup "counter" event ≡ none
      → lookup "message_content" event ≡ some (obj message)
      → (last : Fields) × ((invocations show ds event >>= finish show done) ≡ ok last)
        × Reports (length ds) last
  invocations-Reports ds message event all fresh content =
      let (event', e, h) =
        invocations-Counts 0 message event ds all (record { counter = fresh; content = content }) in
      let (last, e', r) =
        reported-Reports (length ds) message event'
          (subst (λ k. Counts k message event') (omega arith) h) in
      (last, rw e e', r)
