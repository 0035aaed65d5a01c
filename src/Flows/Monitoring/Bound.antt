-- ===== src/Flows/Monitoring/Bound.antt =====
-- The monitoring from the event that starts it, which has no counter.
use aws_autorecycle.Base.{ℕ, suc, pos, String, ◌≡◌, refl, true, none, some}
use aws_autorecycle.Json.{Json, num, str, obj, Fields, lookup, insert, contains}
use aws_autorecycle.Json.Laws.{lookup-insert}
use aws_autorecycle.Monitor.Services.{Services}
use aws_autorecycle.Monitor.Handler.{with_defaults, monitor_autorecycle, lambda_handler}
use aws_autorecycle.Monitor.Handler.Report.{IsEvent, defaults-IsEvent}
use aws_autorecycle.Flows.Monitoring.{monitoring}
use aws_autorecycle.Flows.Monitoring.Ending.{Round, Ends, monitoring-Ends}

-- An event with a component, a message and channels, and no counter.
pub record Starts (event : Fields) : Type 0 where
  pub component : String
  pub message : Fields
  pub channels : Json
  pub of_component : lookup "component" event ≡ some (str component)
  pub content : lookup "message_content" event ≡ some (obj message)
  pub has_channels : lookup "channels" event ≡ some channels
  pub no_counter : lookup "counter" event ≡ none

module _ (event : Fields) (h : Starts event) where
  -- The counter is 0 if the event has none.
  abbrev first : Fields
  first = insert "counter" (num (pos 0)) event

  first-IsEvent : IsEvent h.component 0 h.message first
  first-IsEvent = record {
    of_component = simp lookup-insert h.of_component;
    counter = simp lookup-insert;
    content = simp lookup-insert h.content;
  }

  first-Round : Round 0 first
  first-Round = record {
    component = h.component;
    message = h.message;
    channels = h.channels;
    is_event = first-IsEvent;
    has_channels = simp lookup-insert h.has_channels;
  }

  defaults_first : with_defaults event ≡ first
  unfolding with_defaults
  defaults_first = rw (with_defaults, contains, h.content, h.no_counter) refl

  module _ (S : Services) (w : S.World) where
    lambda_handler-first : lambda_handler S event w ≡ lambda_handler S first w
    unfolding lambda_handler monitor_autorecycle
    lambda_handler-first =
        let known : contains "component" event ≡ true = rw (contains, h.of_component) refl in
        let known' : contains "component" first ≡ true =
          rw (contains, first-IsEvent.of_component) refl in
        rw
          (
            known,
            known',
            defaults_first,
            defaults-IsEvent h.component 0 h.message first first-IsEvent,
          )
          refl

    monitoring-first : (k : ℕ) → monitoring S (suc k) event w ≡ monitoring S (suc k) first w
    unfolding monitoring
    monitoring-first k = rw lambda_handler-first refl

    -- From an event with a component, a message and channels and no counter, the loop is left after at
    -- most 21 invocations of the monitor, whatever AWS answers: with an event that reports success, by
    -- an exception, or with the status "fail" and the counter 21.
    pub monitoring-bound : Ends (monitoring S 21 event w).result
    monitoring-bound = rw (monitoring-first 20) (monitoring-Ends S 20 0 first w refl first-Round)
