-- ===== src/Autorecycle/Report.antt =====
-- What the lambda reports for every answer of the queue.
use aws_autorecycle.Base.{
  String, ◌≡◌, refl, ◌⊎◌, inl, inr, true, false, Option, none, some, ◌∷◌, [], arith, Bool-cases,
  Option-cases,
}
use aws_autorecycle.Exceptions.{Result, ok, err}
use aws_autorecycle.Json.{Json, str, obj, Fields, lookup, contains}
use aws_autorecycle.Autorecycle.{
  Services, Call, sent_message, output, is_sent, sqs_queue, recycle_message, send_to_sqs,
  lambda_handler,
}

-- The text at a key of the inner dictionary.
abbrev inner_at : String → String → Fields → Option Json
inner_at outer key d = elim (lookup outer d) [ some (obj inner) ↦ lookup key inner | _ ↦ none ]

pub record Tells (status color : String) (channel component : Json) (out : Fields) : Type 0 where
  pub status_is : lookup "status" out ≡ some (str status)
  pub color_is : inner_at "message_content" "color" out ≡ some (str color)
  pub channel_is : lookup "channels" out ≡ some channel
  pub component_is : lookup "component" out ≡ some component

-- The queue took the message: it gave it an identifier.
abbrev pub Accepts : Result Fields → Type 0
Accepts r =
    (response : Fields) × (id : Json) × (r ≡ ok response) × (lookup "MessageId" response ≡ some id)

module _ (show : Json → String) (environment : Option String) (component channel : Json) where
  output-success :
      Tells "success" "good" channel component (output show environment component true channel)
  unfolding output lookup
  output-success = record {
    status_is = refl;
    color_is = refl;
    channel_is = refl;
    component_is = refl;
  }

  output-failure :
      Tells "failure" "danger"
        (str "team-infra-alerts")
        component
        (output show environment component false channel)
  unfolding output lookup
  output-failure = record {
    status_is = refl;
    color_is = refl;
    channel_is = refl;
    component_is = refl;
  }

Accepts-of_response : (response : Fields) → is_sent (ok response) ≡ true → Accepts (ok response)
Accepts-of_response response h = elim (Option-cases (lookup "MessageId" response)) [
  | inl e ↦ ground (arith, e)
  | inr (id, e) ↦ (response, id, refl, e)
]

is_sent-Accepts : (r : Result Fields) → is_sent r ≡ true → Accepts r
is_sent-Accepts (ok response) h = Accepts-of_response response h
is_sent-Accepts (err e) h = ground arith

Accepts-is_sent : (r : Result Fields) → Accepts r → is_sent r ≡ true
Accepts-is_sent r (response, id, e, found) = rw (e, is_sent, contains, found) refl

module _ (S : Services) (show : Json → String) (environment : Option String) (event : Fields)
    (component account_id channel : Json) (w : S.World) where
  -- The one call, and its answer.
  abbrev request : Call
  request =
      sent_message (sqs_queue show account_id component) component account_id
        (recycle_message show component)

  abbrev answer : Result Fields
  answer =
      (S.send_message (sqs_queue show account_id component) component account_id
        (recycle_message show component) w).0

  -- For an event with a component, an account and a channel, one message is sent to the component's
  -- queue, and whatever comes of it, be it an exception, the lambda returns. It reports a success to
  -- the event's channel if the answer has an identifier of the message, and else a failure to the
  -- infrastructure team's.
  pub lambda_handler-Tells :
      lookup "component" event ≡ some component
      → lookup "account_id" event ≡ some account_id
      → lookup "success_channel" event ≡ some channel
      → ((lambda_handler S show environment event w).calls ≡ request ∷ [])
        × (out : Fields) × ((lambda_handler S show environment event w).result ≡ ok out)
        × ((Accepts answer × Tells "success" "good" channel component out)
            ⊎ ((¬ Accepts answer)
                × Tells "failure" "danger" (str "team-infra-alerts") component out))
  unfolding lambda_handler send_to_sqs
  lambda_handler-Tells c a s = (
    rw (c, a, s) refl,
    output show environment component (is_sent answer) channel,
    rw (c, a, s) refl,
    elim (Bool-cases (is_sent answer)) [
      | inl e ↦
          inl (is_sent-Accepts answer e, rw e (output-success show environment component channel))
      | inr e ↦ inr (
        λ h. ground (arith, e, Accepts-is_sent answer h),
        rw e (output-failure show environment component channel),
      )
    ],
  )
