-- ===== src/Consul/Terminate.antt =====
-- src/terminate_consul_instance/main.py
pub mod Outcome
use aws_autorecycle.Base.{ℕ, String, ◌<>◌, none, some, if◌then◌else◌}
use aws_autorecycle.Exceptions.{Exception, Result, ok, err, exception}
use aws_autorecycle.Effect.{lift, pure, attempt, ◌>>=◌, ◌>>◌}
use aws_autorecycle.Json.{Json, Fields, lookup, truthy, as_text, format}
use aws_autorecycle.Consul.Services.{Services, Run, terminate_instance}

-- "statusCode" and "body". The response of ec2, which the code passes on, is left out.
pub record Response : Type 0 where
  pub status_code : ℕ
  pub body : String

abbrev pub missing : Response
missing = record { status_code = 400; body = "Missing 'instanceId' in input" }

abbrev relabel {ℓ} : {A : Type ℓ} → String → (Exception → String) → Result A → Result A
relabel ident show_error (ok a) = ok a
relabel ident show_error (err e) =
    err (exception ("Failed to terminate " <> (ident <> (": " <> show_error e))))

module _ (S : Services) (show : Json → String) (show_error : Exception → String) where
  -- An identifier that is not a text is refused by ec2's client before the call.
  unfoldable pub terminate : Json → Run S Response
  terminate ident = do
    r ← attempt (do name ← lift (as_text ident); terminate_instance S name)
    lift (relabel (format show ident) show_error r)
    pure (record { status_code = 200; body = "Termination initiated for " <> format show ident })

  unfoldable pub lambda_handler : Fields → Run S Response
  lambda_handler event = elim (lookup "instanceId" event) [
    | none ↦ pure missing
    | some ident ↦ if truthy ident then terminate ident else pure missing
  ]
