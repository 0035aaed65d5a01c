-- ===== src/Mongo/Database/Connecting.antt =====
-- `Mongo._connect` of src/mongo_recycler/connectors/mongo.py, over pymongo's client and tenacity's
-- `retry` as parameters. It fills `connect` of Mongo.Services.
use mathlib.Core.Path.{subst}
use aws_autorecycle.Base.{ℕ, suc, String, ◌≡◌, inl, inr, List, [], ◌∷◌, ◌++◌}
use aws_autorecycle.Exceptions.{Exception, Result, ok, err, NoneType, Result-cases}
use aws_autorecycle.Effect
use aws_autorecycle.Effect.{Outcome, pure, ask, behind, ◌>>=◌, ◌>>◌}

pub data Call (Client : Type 0) : Type 0 where
  opened : String → Result Client → Call Client
  commanded : Client → String → Result NoneType → Call Client

-- `pymongo.MongoClient(connection_string, ...)`, `client.admin.command(name)`, and tenacity's `retry`
-- for a wait between attempts, `stop_after_attempt` of a number, and `reraise=True`.
pub record Driver (W : Type 0) : Type 1 where
  pub Client : Type 0
  pub open_client : String → W → Result Client × W
  pub command : Client → String → W → Result NoneType × W
  pub retry : ℕ → Effect.Run W (Call Client) Client → Effect.Run W (Call Client) Client

module _ {W : Type 0} (D : Driver W) where
  abbrev pub Run : Type 0 → Type 0
  Run A = Effect.Run W (Call D.Client) A

  abbrev open_client : String → Run D.Client
  open_client host = ask (opened host) (D.open_client host)

  abbrev command : D.Client → String → Run NoneType
  command client name = ask (commanded client name) (D.command client name)

  -- The body of the method.
  unfoldable pub connect_once : String → Run D.Client
  connect_once host = do client ← open_client host; command client "replSetGetStatus"; pure client

  unfoldable pub connect : String → Run D.Client
  connect host = D.retry 10 (connect_once host)

  abbrev dropped : Result D.Client → Result NoneType
  dropped (ok client) = ok tt
  dropped (err e) = err e

  -- `connect` of Mongo.Services, where a client is known by its host.
  abbrev pub connect_service : String → W → Result NoneType × W
  connect_service host w = let o = connect host w in (dropped o.result, o.world)

  -- The documented behaviour of `retry`: attempts until one returns, so many at most, with a wait in
  -- between, which may leave any state of the world; the last one's result is the result.
  pub data Retried (task : Run D.Client) : ℕ → W → Outcome W (Call D.Client) D.Client → Type 0 where
    returned :
        {n : ℕ} {w : W} {client : D.Client}
        → (task w).result ≡ ok client
        → Retried task (suc n) w (task w)
    given_up : {w : W} {e : Exception} → (task w).result ≡ err e → Retried task 1 w (task w)
    repeated :
        {n : ℕ} {w : W} {e : Exception} {o : Outcome W (Call D.Client) D.Client}
        → (task w).result ≡ err e
        → (after : W) → Retried task (suc n) after o
        → Retried task (suc (suc n)) w (behind (task w).calls o)

  abbrev pub Retries : Type 0
  Retries = (n : ℕ) (task : Run D.Client) (w : W) → Retried task (suc n) w (D.retry (suc n) task w)

  -- An attempt by its result and its calls: the client is opened, and has to answer a ping.
  pub data Attempt (host : String) : Result D.Client → List (Call D.Client) → Type 0 where
    refused : {e : Exception} → Attempt host (err e) (opened host (err e) ∷ [])
    silent :
        {client : D.Client} {e : Exception}
        → Attempt host
            (err e)
            (opened host (ok client) ∷ commanded client "replSetGetStatus" (err e) ∷ [])
    answered :
        {client : D.Client}
        → Attempt host
            (ok client)
            (opened host (ok client) ∷ commanded client "replSetGetStatus" (ok tt) ∷ [])

  -- At most so many attempts: all but the last one failed, and it is the last that was allowed unless
  -- it did not.
  pub data Attempts (host : String) : ℕ → Result D.Client → List (Call D.Client) → Type 0 where
    connected :
        {n : ℕ} {client : D.Client} {calls : List (Call D.Client)}
        → Attempt host (ok client) calls
        → Attempts host (suc n) (ok client) calls
    exhausted :
        {e : Exception} {calls : List (Call D.Client)}
        → Attempt host (err e) calls
        → Attempts host 1 (err e) calls
    failed :
        {n : ℕ} {e : Exception} {r : Result D.Client} {calls later : List (Call D.Client)}
        → Attempt host (err e) calls
        → Attempts host (suc n) r later
        → Attempts host (suc (suc n)) r (calls ++ later)

  connect_once-Attempt :
      (host : String) (w : W)
      → Attempt host (connect_once host w).result (connect_once host w).calls
  unfolding connect_once
  connect_once-Attempt host w = elim (Result-cases (D.open_client host w).0) [
    | inr (e, h) ↦ rw h refused
    | inl (client, h) ↦
        elim (Result-cases (D.command client "replSetGetStatus" (D.open_client host w).1).0) [
          | inr (e, h') ↦ rw (h, h') silent
          | inl (a, h') ↦ rw (h, h') answered
        ]
  ]

  once-Attempt :
      (host : String) (w : W) (r : Result D.Client)
      → (connect_once host w).result ≡ r
      → Attempt host r (connect_once host w).calls
  once-Attempt host w r h =
      subst (λ r. Attempt host r (connect_once host w).calls) h (connect_once-Attempt host w)

  Retried-Attempts :
      {host : String} {n : ℕ} {w : W} {o : Outcome W (Call D.Client) D.Client}
      → Retried (connect_once host) n w o
      → Attempts host n o.result o.calls
  Retried-Attempts {host} (returned {w} {client} h) =
      rw h (connected (once-Attempt host w (ok client) h))
  Retried-Attempts {host} (given_up {w} {e} h) = rw h (exhausted (once-Attempt host w (err e) h))
  Retried-Attempts {host} (repeated {w} {e} h after later) =
      failed (once-Attempt host w (err e) h) (Retried-Attempts later)

  -- If tenacity's `retry` does what it documents, `_connect` makes one to ten attempts to open a client
  -- that answers a ping, every one but the last fails, and it returns the client of the last one, if
  -- that succeeds, or else has made ten and raises the last one's exception.
  pub connect-Attempts :
      Retries
      → (host : String) (w : W) → Attempts host 10 (connect host w).result (connect host w).calls
  unfolding connect
  connect-Attempts retries host w = Retried-Attempts (retries 9 (connect_once host) w)
