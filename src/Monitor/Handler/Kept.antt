-- ===== src/Monitor/Handler/Kept.antt =====
-- What the monitor leaves alone in the event.
use aws_autorecycle.Base.{ℕ, ◌<◌, String, ◌≡◌, refl, ◌∙◌, Bool, true, false, some, arith}
use aws_autorecycle.Exceptions.{Result, ok, err, scaled_down_asg}
use aws_autorecycle.Json.{str, Fields, lookup, contains}
use aws_autorecycle.Json.Laws.{lookup-insert}
use aws_autorecycle.Monitor.Services.{Services}
use aws_autorecycle.Monitor.Checks.{check}
use aws_autorecycle.Monitor.Handler.{
  is_overdue, conclude, check_event, monitor_autorecycle, lambda_handler,
}
use aws_autorecycle.Monitor.Handler.Report.{
  IsEvent, counted, counted-content, count_up-IsEvent, is_overdue-counted,
}

-- The component and the channels are those of the event, if there is a result.
abbrev pub Kept : Fields → Result Fields → Type 0
Kept event (err e) = Unit
Kept event (ok o) =
    (lookup "component" o ≡ lookup "component" event)
    × (lookup "channels" o ≡ lookup "channels" event)

module _ (component : String) (n : ℕ) (message event : Fields) where
  conclude-Kept :
      (r : Result Bool)
      → IsEvent component n message event
      → Kept event (conclude (counted n event) r)
  unfolding conclude
  conclude-Kept (ok true) h =
      let content = counted-content component n message event h in
      rw content (simp lookup-insert, simp lookup-insert)
  conclude-Kept (ok false) h = (simp lookup-insert, simp lookup-insert)
  conclude-Kept (err scaled_down_asg) h =
      let content = counted-content component n message event h in
      rw content (simp lookup-insert, simp lookup-insert)
  conclude-Kept (err e) h = tt

  module _ (S : Services) (w : S.World) where
    pub lambda_handler-Kept :
        IsEvent component n message event → n < 20 → Kept event (lambda_handler S event w).result
    unfolding lambda_handler monitor_autorecycle check_event
    lambda_handler-Kept h b =
        let not_yet : is_overdue (counted n event) ≡ false =
          is_overdue-counted component n message event ∙ ground arith in
        let name : lookup "component" (counted n event) ≡ some (str component) =
          simp lookup-insert h.of_component in
        let known : contains "component" event ≡ true = rw (contains, h.of_component) refl in
        rw (known, count_up-IsEvent component n message event h, not_yet, name)
          (conclude-Kept (check S component w).result h)
