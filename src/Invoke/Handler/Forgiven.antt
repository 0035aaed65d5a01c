-- ===== src/Invoke/Handler/Forgiven.antt =====
-- What the lambda returns when an execution was to be started.
use aws_autorecycle.Base.{String, ◌<>◌, ◌≡◌, refl, sym, ◌∙◌, ◌⊎◌, inl, inr, ◌↔◌, true, List, arith}
use aws_autorecycle.Exceptions.{Result, ok, err, client_error, NoneType}
use aws_autorecycle.Json.{Json, str, Fields}
use aws_autorecycle.Invoke.Services.{Services, Environment, Tag}
use aws_autorecycle.Invoke.Tags.{collect_tags, get_asg, get_autorecycling_tags}
use aws_autorecycle.Invoke.Handler.{
  forgive_client_error, sf_start_execution, recycle, lambda_handler,
}
use aws_autorecycle.Invoke.Handler.Payload.{construct_payload-IsPayload}
use aws_autorecycle.Invoke.Handler.Starts.{
  Answers, asks_for_recycling, arn_of, component_of, IsInput, input, after_tags,
  override-component_of, assert_recyclable-collect_tags, arn-IsInput, name-IsInput,
}

-- The start succeeded, or was refused with a ClientError.
abbrev pub IsForgiven : Result NoneType → Type 0
IsForgiven answer = (answer ≡ ok tt) ⊎ ((message : String) × (answer ≡ err (client_error message)))

forgive-IsForgiven :
    (answer : Result NoneType) → (forgive_client_error answer ≡ ok tt) ↔ IsForgiven answer
forgive-IsForgiven (ok _) = ((λ h. inl refl), λ h. refl)
forgive-IsForgiven (err (client_error message)) = ((λ h. inr (message, refl)), λ h. refl)
forgive-IsForgiven (err e) = (
  (λ h. absurd (ground (arith, h))),
  λ h. elim h [ inl a ↦ absurd (ground (arith, a)) | inr (m, a) ↦ absurd (ground (arith, a)) ],
)

module _ (S : Services) (show : Json → String) (account channel group component : String)
    (tags : List Tag) (env : Environment) (event : Fields) (w : S.World) where
  abbrev tagged_world : S.World
  tagged_world = after_tags S show account channel group component tags env event w

  abbrev start_input : Fields
  start_input = input S show account channel group component tags env event w

  -- The answer to the start of the execution.
  abbrev start_answer : Result NoneType
  start_answer =
      (S.start_execution (arn_of account tags)
        (component_of component tags <> ("-" <> (S.timestamp tagged_world).0)) start_input
        (S.timestamp tagged_world).1).0

  sf_start_execution-answer :
      IsInput show account channel group component tags start_input
      → (sf_start_execution S show start_input tagged_world).result
        ≡ forgive_client_error start_answer
  unfolding sf_start_execution
  sf_start_execution-answer h =
      rw
        (
          arn-IsInput show account channel group component tags start_input h,
          name-IsInput show account channel group component tags start_input
              (S.timestamp tagged_world).0 h,
        )
        refl

  asked_result :
      Answers S env event w component account channel group tags
      → asks_for_recycling tags ≡ true
      → (lambda_handler S show env event w).result
        ≡ (sf_start_execution S show start_input tagged_world).result
  unfolding lambda_handler recycle get_asg get_autorecycling_tags
  asked_result h asks =
      rw
        (
          h.about,
          h.account_known,
          h.channel_known,
          h.found,
          h.tagged,
          override-component_of show account channel group component tags,
          assert_recyclable-collect_tags tags,
          asks,
        )
        refl

  -- If AWS answers and the tags ask for recycling, the lambda returns exactly if the start of the
  -- execution succeeded or was refused with a ClientError; another exception goes on.
  pub lambda_handler-Forgiven :
      Answers S env event w component account channel group tags
      → asks_for_recycling tags ≡ true
      → ((lambda_handler S show env event w).result ≡ ok tt) ↔ IsForgiven start_answer
  lambda_handler-Forgiven h asks =
      let payload =
        construct_payload-IsPayload account channel group (str (component_of component tags))
          (collect_tags tags) in
      let same = asked_result h asks ∙ sf_start_execution-answer payload in
      let (there, back) = forgive-IsForgiven start_answer in
      ((λ r. there (sym same ∙ r)), λ a. same ∙ back a)
