-- ===== src/Invoke/Handler/Starts.antt =====
-- When an event starts an execution, and of what.
use mathlib.Core.Option
use aws_autorecycle.Base.{
  String, ◌<>◌, ◌≡◌, refl, ap, ◌∙◌, ◌⊎◌, inl, inr, Bool, true, false, Option, none, some, List, [],
  ◌∷◌, arith, Bool-cases, Option-cases, if◌then◌else◌,
}
use aws_autorecycle.Exceptions.{ok}
use aws_autorecycle.Effect.{pure}
use aws_autorecycle.Json.{Json, str, Fields, lookup}
use aws_autorecycle.Invoke.Services.{
  Services, Environment, Tag, Call, searched_groups, described_tags, started_execution,
}
use aws_autorecycle.Invoke.Component.{get_component_name, assert_recyclable}
use aws_autorecycle.Invoke.Tags.{
  group_query, tag_names, lowers_to, read_boolean, collect_tags, get_asg, get_autorecycling_tags,
}
use aws_autorecycle.Invoke.Tags.Values.{first_value, lookup-collect_tags}
use aws_autorecycle.Invoke.Handler.{
  construct_payload, state_machine_arn, execution_name, sf_start_execution, override_component_name,
  recycle, lambda_handler,
}
use aws_autorecycle.Invoke.Handler.Payload.{IsPayload, construct_payload-IsPayload}

-- The first tag that asks for recycling says "true", in any case, and there is a strategy.
abbrev pub asks_for_recycling : List Tag → Bool
asks_for_recycling tags = elim (first_value "autorecycle_recycle_on_asg_update" tags) [
  | none ↦ false
  | some v ↦ elim (first_value "autorecycle_strategy" tags) [
    | none ↦ false
    | some s ↦ lowers_to v "true"
  ]
]

abbrev value_or : String → Option String → String
value_or other none = other
value_or other (some v) = v

recycle_tag :
    (tags : List Tag) (found : Option String)
    → first_value "autorecycle_recycle_on_asg_update" tags ≡ found
    → lookup "autorecycle_recycle_on_asg_update" (collect_tags tags) ≡ Option.map read_boolean found
recycle_tag tags found e =
    lookup-collect_tags "autorecycle_recycle_on_asg_update" tags ∙ ap (Option.map read_boolean) e

strategy_tag :
    (tags : List Tag) (found : Option String)
    → first_value "autorecycle_strategy" tags ≡ found
    → lookup "autorecycle_strategy" (collect_tags tags) ≡ Option.map str found
strategy_tag tags found e = lookup-collect_tags "autorecycle_strategy" tags ∙ ap (Option.map str) e

pub assert_recyclable-collect_tags :
    (tags : List Tag) → assert_recyclable (collect_tags tags) ≡ asks_for_recycling tags
unfolding assert_recyclable read_boolean
assert_recyclable-collect_tags tags =
    elim (Option-cases (first_value "autorecycle_recycle_on_asg_update" tags)) [
      | inl e ↦ rw (assert_recyclable, asks_for_recycling, recycle_tag tags none e, e) refl
      | inr (v, e) ↦ elim (Option-cases (first_value "autorecycle_strategy" tags)) [
        | inl e' ↦ ground (arith, strategy_tag tags none e', recycle_tag tags (some v) e)
        | inr (s, e') ↦ ground (arith, strategy_tag tags (some s) e', recycle_tag tags (some v) e)
      ]
    ]

-- The tags of a group may name the state machine, and a component to use in place of the one that the
-- event is about.
abbrev pub arn_of : String → List Tag → String
arn_of account tags =
    "arn:aws:states:eu-west-2:"
    <> (account
        <> (":stateMachine:"
            <> value_or "autorecycle" (first_value "autorecycle_step_function_name" tags)))

abbrev pub component_of : String → List Tag → String
component_of component tags =
    value_or component (first_value "autorecycle_override_component_name" tags)

module _ (show : Json → String) (account channel group component : String) (tags : List Tag) where
  abbrev pub IsInput : Fields → Type 0
  IsInput = IsPayload account channel group (str (component_of component tags)) (collect_tags tags)

  pub override-component_of :
      override_component_name component (collect_tags tags) ≡ str (component_of component tags)
  override-component_of =
      elim (Option-cases (first_value "autorecycle_override_component_name" tags)) [
        | inl e ↦ ground (arith, tag_of none e)
        | inr (v, e) ↦ ground (arith, tag_of (some v) e)
      ]
    where
      tag_of :
          (found : Option String)
          → first_value "autorecycle_override_component_name" tags ≡ found
          → lookup "autorecycle_override_component_name" (collect_tags tags) ≡ Option.map str found
      tag_of found e =
          lookup-collect_tags "autorecycle_override_component_name" tags ∙ ap (Option.map str) e

  pub arn-IsInput :
      (payload : Fields)
      → IsInput payload
      → state_machine_arn show payload ≡ ok (arn_of account tags)
  unfolding state_machine_arn
  arn-IsInput payload h = elim (Option-cases (first_value "autorecycle_step_function_name" tags)) [
    | inl e ↦ rw (h.account_id, state_machine_arn, machine none e, e) refl
    | inr (v, e) ↦ rw (h.account_id, state_machine_arn, machine (some v) e, e) refl
  ]
    where
      machine :
          (found : Option String)
          → first_value "autorecycle_step_function_name" tags ≡ found
          → lookup "step_function_name" payload ≡ Option.map str found
      machine found e =
          h.copied.1.1.1.1.0
          ∙ lookup-collect_tags "autorecycle_step_function_name" tags
          ∙ ap (Option.map str) e

  pub name-IsInput :
      (payload : Fields) (time : String)
      → IsInput payload
      → execution_name show time payload ≡ ok (component_of component tags <> ("-" <> time))
  unfolding execution_name
  name-IsInput payload time h = rw (h.of_component) refl

-- The event is about the component, the account and the channel are configured, and AWS answers with
-- a first group and with its tags.
pub record Answers (S : Services) (env : Environment) (event : Fields) (w : S.World)
    (component account channel group : String) (tags : List Tag) : Type 0 where
  pub about : get_component_name event ≡ ok (some component)
  pub account_known : env.account_id ≡ some account
  pub channel_known : env.slack_channel ≡ some channel
  pub others : List String
  pub found : (S.search_groups (group_query component) w).0 ≡ ok (group ∷ others)
  pub tagged :
      (S.describe_tags group tag_names (S.search_groups (group_query component) w).1).0 ≡ ok tags

module _ (S : Services) (show : Json → String) (account channel group component : String)
    (tags : List Tag) where
  -- The calls that start an execution at the time, or none.
  abbrev pub Started : String → List Call → Type 0
  Started time calls =
      ((asks_for_recycling tags ≡ true)
        × (payload : Fields) × IsPayload account channel group (str (component_of component tags))
            (collect_tags tags) payload
        × (calls
            ≡ started_execution (arn_of account tags) (component_of component tags <> ("-" <> time))
                payload
              ∷ []))
      ⊎ ((asks_for_recycling tags ≡ false) × (calls ≡ []))

  sf-calls :
      (payload : Fields) (w : S.World)
      → IsInput show account channel group component tags payload
      → (sf_start_execution S show payload w).calls
        ≡ started_execution
            (arn_of account tags)
            (component_of component tags <> ("-" <> (S.timestamp w).0))
            payload
          ∷ []
  unfolding sf_start_execution
  sf-calls payload w h =
      rw
        (
          arn-IsInput show account channel group component tags payload h,
          name-IsInput show account channel group component tags payload (S.timestamp w).0 h,
        )
        refl

  module _ (env : Environment) (event : Fields) (w : S.World) where
    -- The world when the tags were read.
    abbrev pub after_tags : S.World
    after_tags = (S.describe_tags group tag_names (S.search_groups (group_query component) w).1).1

    abbrev pub input : Fields
    input =
        construct_payload account channel (str (component_of component tags)) group
          (collect_tags tags)

    -- The run after the two reads.
    reads_first :
        Answers S env event w component account channel group tags
        → (lambda_handler S show env event w).calls
          ≡ searched_groups (group_query component)
            ∷ described_tags group tag_names
            ∷ (if asks_for_recycling tags
                then sf_start_execution S show input after_tags
                else pure tt after_tags).calls
    unfolding lambda_handler recycle get_asg get_autorecycling_tags
    reads_first h = elim (Bool-cases (asks_for_recycling tags)) [
      | inl e ↦
          rw
            (
              h.about,
              h.account_known,
              h.channel_known,
              h.found,
              h.tagged,
              override-component_of show account channel group component tags,
              assert_recyclable-collect_tags tags,
              e,
            )
            refl
      | inr e ↦
          rw
            (
              h.about,
              h.account_known,
              h.channel_known,
              h.found,
              h.tagged,
              override-component_of show account channel group component tags,
              assert_recyclable-collect_tags tags,
              e,
            )
            refl
    ]

    -- If AWS answers, the group of the component and its tags are read, in this order. If its tags ask
    -- for recycling, one execution is then started, of the state machine that they name, under the
    -- component and the time, with the input that the tags make; otherwise none is.
    pub lambda_handler-Started :
        Answers S env event w component account channel group tags
        → (started : List Call) × ((lambda_handler S show env event w).calls
            ≡ searched_groups (group_query component) ∷ described_tags group tag_names ∷ started)
          × Started (S.timestamp after_tags).0 started
    lambda_handler-Started h =
        let payload =
          construct_payload-IsPayload account channel group (str (component_of component tags))
            (collect_tags tags) in
        elim (Bool-cases (asks_for_recycling tags)) [
          | inl e ↦
              (_, reads_first h, inl (e, input, payload, rw e (sf-calls input after_tags payload)))
          | inr e ↦ (_, reads_first h, inr (e, rw e refl))
        ]
