-- ===== src/Flows/Monitoring/Ending.antt =====
-- How the monitoring of a recycling ends.
use mathlib.Core.Path.{subst}
use aws_autorecycle.Base.{
  ℕ, ◌+◌, ◌<◌, zero, suc, pos, ltb, String, ◌≡◌, refl, sym, ◌∙◌, ◌⊎◌, inl, inr, Bool, true, false,
  not, ◌||◌, Option, none, some, arith, if◌then◌else◌,
}
use aws_autorecycle.Exceptions.{Exception, Result, ok, err, scaled_down_asg}
use aws_autorecycle.Json.{Json, bool, num, str, Fields, lookup}
use aws_autorecycle.Monitor.Services.{Services}
use aws_autorecycle.Monitor.Checks.{check}
use aws_autorecycle.Monitor.Handler.{lambda_handler}
use aws_autorecycle.Monitor.Handler.Report.{
  IsEvent, Says, Verdict, lambda_handler-Verdict, lambda_handler-overdue,
}
use aws_autorecycle.Monitor.Handler.Kept.{Kept, lambda_handler-Kept}
use aws_autorecycle.Flows.Monitoring.Choices.{is_done}
use aws_autorecycle.Flows.Monitoring.{Exit, finished, lambda_error, monitoring}

-- An event that comes round, with channels.
pub record Round (n : ℕ) (event : Fields) : Type 0 where
  pub component : String
  pub message : Fields
  pub channels : Json
  pub is_event : IsEvent component n message event
  pub has_channels : lookup "channels" event ≡ some channels

-- After an invocation that returned, up to the twentieth: the recycling is done, or goes round.
Goes : ℕ → Result Fields → Type 0
Goes n (err e) = Unit
Goes n (ok o) =
    ((lookup "recycle_success" o ≡ some (bool true)) × (is_done o ≡ ok true))
    ⊎ (Round (n + 1) o × (is_done o ≡ ok false))

is_done-Says :
    (success : Bool) (text : Option String) (n : ℕ) (message o : Fields)
    → Says success text n message o
    → is_done o ≡ ok (success || not (ltb (n + 1) 21))
unfolding is_done
is_done-Says true text n message o h = rw (is_done, h.recycle_success) refl
is_done-Says false text n message o h = rw (is_done, h.recycle_success, h.counter) refl

module _ (n : ℕ) (below : n < 20) (event : Fields) (round : Round n event) where
  recycled :
      (text : String) (r : Result Fields)
      → (o : Fields) × (r ≡ ok o) × Says true (some text) n round.message o
      → Goes n r
  unfolding Goes
  recycled text r (o, e, says) =
      rw e (inl (says.recycle_success, is_done-Says true (some text) n round.message o says))

  goes_round :
      (r : Result Fields)
      → (o : Fields) × (r ≡ ok o) × Says false none n round.message o
      → Kept event r
      → Goes n r
  unfolding Goes
  goes_round r (o, e, says) kept =
      let same = rw e at kept in
      let done : is_done o ≡ ok false =
        is_done-Says false none n round.message o says ∙ ground arith in
      rw e (
        inr (
          record {
            component = round.component;
            message = says.said;
            channels = round.channels;
            is_event = record {
              of_component = same.0 ∙ round.is_event.of_component;
              counter = says.counter;
              content = says.content;
            };
            has_channels = same.1 ∙ round.has_channels;
          },
          done,
        ))

  Verdict-Goes :
      (c : Result Bool) (r : Result Fields) → Verdict c n round.message r → Kept event r → Goes n r
  unfolding Goes
  Verdict-Goes (ok true) r v kept = recycled _ r v
  Verdict-Goes (ok false) r v kept = goes_round r v kept
  Verdict-Goes (err scaled_down_asg) r v kept = recycled _ r v
  Verdict-Goes (err e) r v kept = rw v tt

  monitor-Goes : (S : Services) (w : S.World) → Goes n (lambda_handler S event w).result
  monitor-Goes S w =
      Verdict-Goes (check S round.component w).result (lambda_handler S event w).result
        (lambda_handler-Verdict round.component n round.message event S w round.is_event below).0
        (lambda_handler-Kept round.component n round.message event S w round.is_event below)

-- Success; the monitor gave up, for which the status is "fail"; or an exception, with the same status.
pub data Ended : Exit → Type 0 where
  was_recycled : {o : Fields} → lookup "recycle_success" o ≡ some (bool true) → Ended (finished o)
  gave_up :
      {o : Fields}
      → lookup "recycle_success" o ≡ some (bool false)
      → lookup "status" o ≡ some (str "fail")
      → lookup "counter" o ≡ some (num (pos 21))
      → Ended (finished o)
  raised : {e : Exception} → Ended (lambda_error e)

abbrev pub Ends : Result (Option Exit) → Type 0
Ends r = (x : Exit) × (r ≡ ok (some x)) × Ended x

module _ (S : Services) where
  monitoring-err :
      (k : ℕ) (event : Fields) (w : S.World) (e : Exception)
      → (lambda_handler S event w).result ≡ err e
      → (monitoring S (suc k) event w).result ≡ ok (some (lambda_error e))
  unfolding monitoring
  monitoring-err k event w e h = rw h refl

  monitoring-ok :
      (k : ℕ) (event o : Fields) (w : S.World) (done : Bool)
      → (lambda_handler S event w).result ≡ ok o
      → is_done o ≡ ok done
      → (monitoring S (suc k) event w).result ≡ (
          if done
          then ok (some (finished o))
          else (monitoring S k o (lambda_handler S event w).world).result)
  unfolding monitoring
  monitoring-ok k event o w true h d = rw (h, d) refl
  monitoring-ok k event o w false h d = rw (h, d) refl

  -- The twenty-first invocation.
  last-Ends : (event : Fields) (w : S.World) → Round 20 event → Ends (monitoring S 1 event w).result
  last-Ends event w round =
      let (o, run, status, says) =
        lambda_handler-overdue round.component 20 round.message event S w round.channels
          round.is_event (omega arith) round.has_channels in
      let done : is_done o ≡ ok true = is_done-Says false _ 20 round.message o says in
      (
        finished o,
        monitoring-ok 0 event o w true (rw run refl) done,
        gave_up says.recycle_success status says.counter,
      )

  -- One invocation before it, if what follows ends.
  earlier-Ends :
      (k n : ℕ) (event : Fields) (w : S.World) (r : Result Fields)
      → (lambda_handler S event w).result ≡ r
      → Goes n r
      → ((o : Fields) (w' : S.World) → Round (n + 1) o → Ends (monitoring S k o w').result)
      → Ends (monitoring S (suc k) event w).result
  unfolding Goes
  earlier-Ends k n event w (err e) h g more = (lambda_error e, monitoring-err k event w e h, raised)
  earlier-Ends k n event w (ok o) h (inl (success, d)) more =
      (finished o, monitoring-ok k event o w true h d, was_recycled success)
  earlier-Ends k n event w (ok o) h (inr (round, d)) more =
      subst Ends (sym (monitoring-ok k event o w false h d))
        (more o (lambda_handler S event w).world round)

  pub monitoring-Ends :
      (k n : ℕ) (event : Fields) (w : S.World)
      → n + suc k ≡ 21
      → Round n event
      → Ends (monitoring S (suc k) event w).result
  monitoring-Ends zero n event w size round =
      last-Ends event w (subst (λ m. Round m event) (omega arith) round)
  monitoring-Ends (suc k) n event w size round =
      earlier-Ends (suc k) n event w (lambda_handler S event w).result refl
        (monitor-Goes n (omega arith) event round S w)
        (λ o w' next. monitoring-Ends k (n + 1) o w' (omega arith) next)
