-- ===== src/Autorecycle/Tests.antt =====
-- The lambda at concrete inputs: queues that accept a message, and that raise.
use aws_autorecycle.Base.{String, ◌≡◌, refl, ◌⊎◌, none, ◌∷◌, []}
use aws_autorecycle.Exceptions.{ok, err, client_error}
use aws_autorecycle.Json.{Json, str, Fields, end, field, lookup, format}
use aws_autorecycle.Autorecycle.{Services, sent_message, lambda_handler, send_to_sqs}
use aws_autorecycle.Autorecycle.Report.{Accepts, Tells, lambda_handler-Tells}

abbrev queues : Services
queues = record {
  World = Unit;
  send_message = λ queue component account body w. (ok (field "MessageId" (str "m-1") end), w);
}

abbrev no_queue : Services
no_queue = record {
  World = Unit;
  send_message = λ queue component account body w. (err (client_error "NonExistentQueue"), w);
}

abbrev show : Json → String
show v = "{}"

abbrev event : Fields
event =
    field "component" (str "web")
      (field "account_id" (str "1234") (field "success_channel" (str "events") end))

lambda_handler_tests :
    (lambda_handler no_queue show none event tt).calls
    ≡ sent_message "https://sqs.eu-west-2.amazonaws.com/1234/recycle-web"
        (str "web")
        (str "1234")
        "Recycle web"
      ∷ []
unfolding lambda_handler send_to_sqs lookup format
lambda_handler_tests = refl

lambda_handler-Tells_example :
    ((lambda_handler queues show none event tt).calls
      ≡ sent_message "https://sqs.eu-west-2.amazonaws.com/1234/recycle-web"
          (str "web")
          (str "1234")
          "Recycle web"
        ∷ [])
    × (out : Fields) × ((lambda_handler queues show none event tt).result ≡ ok out)
    × ((Accepts (ok (field "MessageId" (str "m-1") end))
          × Tells "success" "good" (str "events") (str "web") out)
        ⊎ ((¬ Accepts (ok (field "MessageId" (str "m-1") end)))
            × Tells "failure" "danger" (str "team-infra-alerts") (str "web") out))
unfolding lookup format
lambda_handler-Tells_example =
    lambda_handler-Tells queues show none event (str "web") (str "1234") (str "events") tt refl refl
      refl
