-- ===== src/Flows/Input/Accepted.antt =====
-- The scaling lambda takes the input of the executions that src/autorecycle_invoke_stepfunctions starts.
use aws_autorecycle.Base.{
  String, ◌≡◌, refl, ap, ◌∙◌, inl, inr, true, Option, none, some, List, [], ◌∷◌, pos, arith,
}
use aws_autorecycle.Exceptions.{Exception, Result, ok}
use aws_autorecycle.Json.{str, Json, Fields, lookup}
use aws_autorecycle.Invoke
use aws_autorecycle.Invoke.Services.{
  Environment, Tag, searched_groups, described_tags, started_execution,
}
use aws_autorecycle.Invoke.Tags.{group_query, tag_names, collect_tags}
use aws_autorecycle.Invoke.Handler.Payload.{IsPayload}
use aws_autorecycle.Invoke.Handler.Starts.{
  Answers, asks_for_recycling, component_of, lambda_handler-Started,
}
use aws_autorecycle.ScaleAsg.Event.{Event, value}
use aws_autorecycle.ScaleAsg.Schema.{conforms, fits, event_schema}
use aws_autorecycle.ScaleAsg
use aws_autorecycle.ScaleAsg.Handler.{handle_event}
use aws_autorecycle.ScaleAsg.Handler.Order.{turn_order}
use aws_autorecycle.Flows.Input.{input-conforms}

-- The event has what the dictionary says: its two required fields, and no counter without one.
pub record Reads (d : Fields) (event : Event) : Type 0 where
  pub component : lookup "component" d ≡ some (str event.component)
  pub success_channel : lookup "success_channel" d ≡ some (str event.success_channel)
  pub no_counter : lookup "counter" d ≡ none → value event.counter ≡ none

-- What pydantic documents of `Event.model_validate`: a dictionary with a value of the declared type for
-- each key is an event with these values.
abbrev pub Validates : (Fields → Result Event) → Type 0
Validates validate =
    (d : Fields)
    → conforms fits event_schema d ≡ true
    → (event : Event) × (validate d ≡ ok event) × Reads d event

module _ (validate : Fields → Result Event) (dump : Event → Fields) where
  -- The dictionary is the event of a first invocation for the component, which does not fail, whatever
  -- AWS answers, and counts to 1.
  pub record Accepts (component : String) (d : Fields) : Type 1 where
    pub event : Event
    pub valid : validate d ≡ ok event
    pub about : event.component ≡ component
    pub first :
        (T : ScaleAsg.Services.Services) (environment : Option String) (repr : Exception → String)
        (w : T.World)
        → (o : Event) × ((ScaleAsg.Handler.lambda_handler T environment repr validate dump d
              w).result
            ≡ ok (dump o))
          × (value o.counter ≡ some (pos 1))

  first-Accepts :
      (d : Fields) (event : Event)
      → validate d ≡ ok event
      → value event.counter ≡ none
      → (T : ScaleAsg.Services.Services) (environment : Option String) (repr : Exception → String)
        (w : T.World)
      → (o : Event) × ((ScaleAsg.Handler.lambda_handler T environment repr validate dump d w).result
          ≡ ok (dump o))
        × (value o.counter ≡ some (pos 1))
  unfolding ScaleAsg.Handler.lambda_handler
  first-Accepts d event valid fresh T environment repr w =
      let turn = turn_order T environment repr event (inl (rw fresh refl)) in
      let (q, accepted, (o, returned, next, _, _)) = turn.at w in
      (o, rw (valid, returned) refl, rw (next, fresh) refl)

  input-Accepts :
      Validates validate
      → (account channel group component : String) (tags : List Tag) (payload : Fields)
      → IsPayload account channel group (str component) (collect_tags tags) payload
      → Accepts component payload
  input-Accepts promise account channel group component tags payload input =
      let (event, valid, reads) =
        promise payload (input-conforms account channel group component tags payload input) in
      let fresh = reads.no_counter (input.only "counter" refl refl) in
      record {
        event = event;
        valid = valid;
        about = ground (arith, reads.component, input.of_component);
        first = first-Accepts payload event valid fresh;
      }

module _ (S : Invoke.Services.Services) (show : Json → String) (env : Environment) (event : Fields)
    (w : S.World) (validate : Fields → Result Event) (dump : Event → Fields) where
  -- The one execution that was started, whose input is accepted for the component.
  pub record Starts (group asked component : String) : Type 1 where
    pub arn : String
    pub name : String
    pub payload : Fields
    pub calls :
        (Invoke.Handler.lambda_handler S show env event w).calls
        ≡ searched_groups (group_query asked)
          ∷ described_tags group tag_names
          ∷ started_execution arn name payload
          ∷ []
    pub accepted : Accepts validate dump component payload

  -- If AWS answers, the tags of the group ask for recycling, and pydantic accepts what conforms to the
  -- declared types, then the input of the one execution that is started is accepted as the event of a
  -- first invocation of the scaling lambda, for the component that the tags name or else the one of
  -- the group; this invocation returns, whatever AWS answers to it, and counts to 1.
  pub lambda_handler-Starts :
      Validates validate
      → (account channel group component : String) (tags : List Tag)
      → Answers S env event w component account channel group tags
      → asks_for_recycling tags ≡ true
      → Starts group component (component_of component tags)
  lambda_handler-Starts promise account channel group component tags h asks =
      let (calls, made, started) =
        lambda_handler-Started S show account channel group component tags env event w h in
      elim started [
        | inr (never, _) ↦ absurd (ground (arith, asks, never))
        | inl (_, payload, input, once) ↦ record {
          arn = _;
          name = _;
          payload = payload;
          calls =
              made
              ∙ ap
                  (λ c.
                    searched_groups (group_query component) ∷ described_tags group tag_names ∷ c)
                  once;
          accepted =
              input-Accepts validate dump promise account channel group
                (component_of component tags) tags payload input;
        }
      ]
