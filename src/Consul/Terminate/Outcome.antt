-- ===== src/Consul/Terminate/Outcome.antt =====
-- What one invocation of the termination does, for each answer of ec2.
use aws_autorecycle.Base.{
  String, ◌<>◌, ◌≡◌, ◌≢◌, inl, inr, refl, true, some, [], ◌∷◌, arith, eq_iff,
}
use aws_autorecycle.Exceptions.{Exception, Result, ok, err, exception, NoneType, Result-cases}
use aws_autorecycle.Json.{Json, str, Fields, lookup, truthy, format}
use aws_autorecycle.Consul.Services.{Services, Process, terminated}
use aws_autorecycle.Consul.Terminate.{Response, terminate, lambda_handler}

module _ (S : Services) (show : Json → String) (show_error : Exception → String) where
  -- What the invocation does with the answer of ec2.
  pub data Answers (ident : String) : Result NoneType → Result Response → Type 0 where
    accepted :
        Answers ident
          (ok tt)
          (ok (record { status_code = 200; body = "Termination initiated for " <> ident }))
    refused :
        {e : Exception}
        → Answers ident
            (err e)
            (err (exception ("Failed to terminate " <> (ident <> (": " <> show_error e)))))

  module _ (event : Fields) (ident : String) (p : Process S.World) where
    named :
        ident ≢ ""
        → lookup "instanceId" event ≡ some (str ident)
        → lambda_handler S show show_error event p ≡ terminate S show show_error (str ident) p
    unfolding lambda_handler
    named ne h =
        let given : truthy (str ident) ≡ true = ground (arith, eq_iff ident "") in
        rw (lambda_handler, h, given) refl

    -- For an event that names an instance, ec2 is asked once, to terminate that instance. If ec2 accepts,
    -- the invocation answers with status 200 and the text for that instance; if ec2 raises an exception,
    -- the invocation raises one whose text names the instance and the exception.
    pub lambda_handler-terminated :
        ident ≢ ""
        → lookup "instanceId" event ≡ some (str ident)
        → ((lambda_handler S show show_error event p).calls ≡ terminated ident ∷ [])
          × Answers ident
              (S.terminate_instance ident p.world).0
              (lambda_handler S show show_error event p).result
    unfolding terminate format
    lambda_handler-terminated ne h =
        rw (named ne h) (elim (Result-cases (S.terminate_instance ident p.world).0) [
          | inl (a, e) ↦ rw e (refl, accepted)
          | inr (c, e) ↦ rw e (refl, refused)
        ])
