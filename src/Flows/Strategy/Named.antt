-- ===== src/Flows/Strategy/Named.antt =====
-- The strategy of a recycling is the one that the tag of the group names.
use aws_autorecycle.Base.{
  String, ◌<>◌, ◌≡◌, ◌≢◌, refl, ap, ◌∙◌, inl, inr, true, false, none, some, List, [], ◌∷◌, ◌==◌,
  eq_iff, arith, Bool-cases, Option-cases,
}
use mathlib.Core.Option
use aws_autorecycle.Exceptions.{ok}
use aws_autorecycle.Json.{Json, str, Fields, lookup}
use aws_autorecycle.Invoke.Services.{
  Services, Environment, Tag, searched_groups, described_tags, started_execution,
}
use aws_autorecycle.Invoke.Tags.{group_query, tag_names, collect_tags}
use aws_autorecycle.Invoke.Tags.Values.{first_value, lookup-collect_tags}
use aws_autorecycle.Invoke.Handler.{lambda_handler}
use aws_autorecycle.Invoke.Handler.Payload.{IsPayload}
use aws_autorecycle.Invoke.Handler.Starts.{
  Answers, asks_for_recycling, arn_of, component_of, lambda_handler-Started,
}
use aws_autorecycle.Flows.Strategy.{
  Strategy, in_out, mongo, instance_refresh, standard, choose_strategy,
}

-- The strategy of a name.
pub data Named : String → Strategy → Type 0 where
  named_in_out : Named "in-out" in_out
  named_mongo : Named "mongo" mongo
  named_instance_refresh : Named "instance-refresh" instance_refresh
  named_otherwise :
      {name : String}
      → name ≢ "in-out"
      → name ≢ "mongo"
      → name ≢ "instance-refresh"
      → Named name standard

not_equal : (s t : String) → (s == t) ≡ false → s ≢ t
not_equal s t h e = ground (arith, h, (eq_iff s t).1 e)

Named-eq : (s t : String) (x : Strategy) → (s == t) ≡ true → Named t x → Named s x
Named-eq s t x h n = rw ((eq_iff s t).0 h) n

choose_strategy-Named :
    (event : Fields) (name : String)
    → lookup "strategy" event ≡ some (str name)
    → (x : Strategy) × (choose_strategy event ≡ ok x) × Named name x
unfolding choose_strategy
choose_strategy-Named event name h = elim (Bool-cases (name == "in-out")) [
  | inl a ↦ (in_out, rw (choose_strategy, h, a) refl, Named-eq name "in-out" in_out a named_in_out)
  | inr a ↦ elim (Bool-cases (name == "mongo")) [
    | inl b ↦ (mongo, rw (choose_strategy, h, a, b) refl, Named-eq name "mongo" mongo b named_mongo)
    | inr b ↦ elim (Bool-cases (name == "instance-refresh")) [
      | inl c ↦ (
        instance_refresh,
        rw (choose_strategy, h, a, b, c) refl,
        Named-eq name "instance-refresh" instance_refresh c named_instance_refresh,
      )
      | inr c ↦ (
        standard,
        rw (choose_strategy, h, a, b, c) refl,
        named_otherwise (not_equal name _ a) (not_equal name _ b) (not_equal name _ c),
      )
    ]
  ]
]

asks-strategy :
    (tags : List Tag)
    → asks_for_recycling tags ≡ true
    → (name : String) × (first_value "autorecycle_strategy" tags ≡ some name)
asks-strategy tags h = elim (Option-cases (first_value "autorecycle_strategy" tags)) [
  | inr (name, e) ↦ (name, e)
  | inl e ↦ elim (Option-cases (first_value "autorecycle_recycle_on_asg_update" tags)) [
    | inl e' ↦ absurd (ground (arith, h, e, e'))
    | inr (v, e') ↦ absurd (ground (arith, h, e, e'))
  ]
]

-- The state machine of terraform/state_machine.tf, by its name.
abbrev pub autorecycle_arn : String → String
autorecycle_arn account =
    "arn:aws:states:eu-west-2:" <> (account <> (":stateMachine:" <> "autorecycle"))

module _ (account channel group component : String) (tags : List Tag) where
  payload-strategy :
      (payload : Fields) (name : String)
      → IsPayload account channel group
          (str (component_of component tags))
          (collect_tags tags)
          payload
      → first_value "autorecycle_strategy" tags ≡ some name
      → lookup "strategy" payload ≡ some (str name)
  payload-strategy payload name h e =
      h.copied.0 ∙ lookup-collect_tags "autorecycle_strategy" tags ∙ ap (Option.map str) e

  arn_of-unnamed :
      first_value "autorecycle_step_function_name" tags ≡ none
      → arn_of account tags ≡ autorecycle_arn account
  arn_of-unnamed unnamed = rw unnamed refl

  module _ (S : Services) (show : Json → String) (env : Environment) (event : Fields)
      (w : S.World) where
    -- The execution that was started, and the strategy that it chooses.
    pub record Executes : Type 0 where
      pub name : String
      pub payload : Fields
      pub strategy : String
      pub chosen : Strategy
      pub calls :
          (lambda_handler S show env event w).calls
          ≡ searched_groups (group_query component)
            ∷ described_tags group tag_names
            ∷ started_execution (autorecycle_arn account) name payload
            ∷ []
      pub tagged : first_value "autorecycle_strategy" tags ≡ some strategy
      pub chooses : choose_strategy payload ≡ ok chosen
      pub named : Named strategy chosen

    -- If AWS answers and the tags of the group ask for recycling without naming a state machine, one
    -- execution is started, of the state machine "autorecycle" of the account, and the first choice of
    -- that machine does not fail on its input: it takes the strategy that the first tag for it names,
    -- which is the standard one for every other name.
    pub lambda_handler-Executes :
        Answers S env event w component account channel group tags
        → asks_for_recycling tags ≡ true
        → first_value "autorecycle_step_function_name" tags ≡ none
        → Executes
    lambda_handler-Executes h asks unnamed =
        let (calls, made, started) =
          lambda_handler-Started S show account channel group component tags env event w h in
        elim started [
          | inr (never, _) ↦ absurd (ground (arith, asks, never))
          | inl (_, payload, input, once) ↦
              let (name, e) = asks-strategy tags asks in
              let (_, after_groups) = S.search_groups (group_query component) w in
              let (_, after_tags) = S.describe_tags group tag_names after_groups in
              let execution = component_of component tags <> ("-" <> (S.timestamp after_tags).0) in
              let (x, chooses, named) =
                choose_strategy-Named payload name (payload-strategy payload name input e) in
              record {
                name = _;
                payload = payload;
                strategy = name;
                chosen = x;
                calls =
                    made
                    ∙ ap
                        (λ c.
                          searched_groups (group_query component)
                          ∷ described_tags group tag_names
                          ∷ c)
                        (once
                          ∙ ap (λ arn. started_execution arn execution payload ∷ [])
                              (arn_of-unnamed unnamed));
                tagged = e;
                chooses = chooses;
                named = named;
              }
        ]
