-- ===== src/Mongo/Tests/Connecting.antt =====
-- A host whose first two pings fail, and a `retry` that does not wait.
use aws_autorecycle.Base.{ℕ, zero, suc, String, ◌≡◌, refl, inl, inr, [], ◌∷◌}
use aws_autorecycle.Exceptions.{Result, ok, err, auto_reconnect, NoneType, Result-cases}
use aws_autorecycle.Effect
use aws_autorecycle.Effect.{Outcome, behind}
use aws_autorecycle.Mongo.Database.{cluster_name}
use aws_autorecycle.Mongo.Database.Connecting.{
  Call, opened, commanded, Driver, connect_once, connect, connect_service, Retried, returned,
  given_up, repeated, Retries, Attempts, connect-Attempts,
}

abbrev Run : Type 0
Run = Effect.Run ℕ (Call String) String

abbrev unless_ok :
    Result String
    → Outcome ℕ (Call String) String
    → (ℕ → Outcome ℕ (Call String) String)
    → Outcome ℕ (Call String) String
unless_ok (ok client) o again = o
unless_ok (err e) o again = behind o.calls (again o.world)

-- `retry_from left` makes at most `suc left` attempts.
unfoldable retry_from : ℕ → Run → Run
retry_from zero task w = task w
retry_from (suc left) task w = unless_ok (task w).result (task w) (retry_from left task)

abbrev retry : ℕ → Run → Run
retry zero task = task
retry (suc left) task = retry_from left task

abbrev ping : ℕ → Result NoneType × ℕ
ping zero = (ok tt, zero)
ping (suc n) = (err auto_reconnect, n)

-- The state of the world is the number of pings that still fail.
abbrev driver : Driver ℕ
driver = record {
  Client = String;
  open_client = λ host w. (ok host, w);
  command = λ client name w. ping w;
  retry = retry;
}

retry_from-Retried :
    (left : ℕ) (task : Run) (w : ℕ) → Retried driver task (suc left) w (retry_from left task w)
unfolding retry_from
retry_from-Retried zero task w = elim (Result-cases (task w).result) [
  | inl (client, h) ↦ returned h
  | inr (e, h) ↦ given_up h
]
retry_from-Retried (suc left) task w =
    go (task w).result refl (retry_from-Retried left task (task w).world)
  where
    go :
        (r : Result String)
        → (task w).result ≡ r
        → Retried driver task (suc left) (task w).world (retry_from left task (task w).world)
        → Retried driver task (suc (suc left)) w (unless_ok r (task w) (retry_from left task))
    go (ok client) h later = returned h
    go (err e) h later = repeated h (task w).world later

driver-Retries : Retries driver
driver-Retries n task w = retry_from-Retried n task w

third_time :
    (connect driver "10.0.0.1" 2).calls
    ≡ opened "10.0.0.1" (ok "10.0.0.1")
      ∷ commanded "10.0.0.1" "replSetGetStatus" (err auto_reconnect)
      ∷ opened "10.0.0.1" (ok "10.0.0.1")
      ∷ commanded "10.0.0.1" "replSetGetStatus" (err auto_reconnect)
      ∷ opened "10.0.0.1" (ok "10.0.0.1")
      ∷ commanded "10.0.0.1" "replSetGetStatus" (ok tt)
      ∷ []
unfolding connect connect_once retry_from
third_time = refl

tenth_time : (connect_service driver "10.0.0.1" 10).0 ≡ err auto_reconnect
unfolding connect connect_once retry_from
tenth_time = refl

cluster_name_tests :
    (cluster_name "protected_auth_mongo_b" ≡ "protected_auth")
    × (cluster_name "protected_mongo" ≡ "protected")
    × (cluster_name "mongo_b" ≡ "mongo_b")
unfolding cluster_name
cluster_name_tests = (refl, refl, refl)

connect-Attempts_example :
    Attempts driver "10.0.0.1" 10
      (connect driver "10.0.0.1" 2).result
      (connect driver "10.0.0.1" 2).calls
connect-Attempts_example = connect-Attempts driver driver-Retries "10.0.0.1" 2
