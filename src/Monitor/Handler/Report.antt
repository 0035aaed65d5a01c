-- ===== src/Monitor/Handler/Report.antt =====
-- What the monitor's event says after an invocation.
use aws_autorecycle.Base.{
  ℕ, ◌+◌, ◌≤◌, ◌<◌, pos, String, ◌≡◌, refl, Bool, true, false, Option, none, some, [], ltb, ◌∙◌,
  append_nil, arith,
}
use aws_autorecycle.Exceptions.{Result, ok, err, scaled_down_asg}
use aws_autorecycle.Json.{Json, bool, num, str, obj, Fields, lookup, insert, contains}
use aws_autorecycle.Json.Laws.{lookup-insert}
use aws_autorecycle.Monitor.Services.{Services}
use aws_autorecycle.Monitor.Checks.{check}
use aws_autorecycle.Monitor.Handler.{
  with_defaults, count_up, is_overdue, overdue, conclude, check_event, monitor_autorecycle,
  lambda_handler, too_long, completed, not_required,
}

-- An event that comes round: a component, a message and so many invocations before.
pub record IsEvent (component : String) (n : ℕ) (message event : Fields) : Type 0 where
  pub of_component : lookup "component" event ≡ some (str component)
  pub counter : lookup "counter" event ≡ some (num (pos n))
  pub content : lookup "message_content" event ≡ some (obj message)

-- The event says so much, and has counted this invocation.
pub record Says (success : Bool) (text : Option String) (n : ℕ) (message o : Fields) : Type 0 where
  pub counter : lookup "counter" o ≡ some (num (pos (n + 1)))
  pub recycle_success : lookup "recycle_success" o ≡ some (bool success)
  pub said : Fields
  pub content : lookup "message_content" o ≡ some (obj said)
  pub says_text :
      lookup "text" said ≡ elim text [ none ↦ lookup "text" message | some t ↦ some (str t) ]

abbrev pub Verdict : Result Bool → ℕ → Fields → Result Fields → Type 0
Verdict (ok true) n message r = (o : Fields) × (r ≡ ok o) × Says true (some completed) n message o
Verdict (err scaled_down_asg) n message r =
    (o : Fields) × (r ≡ ok o) × Says true (some not_required) n message o
Verdict (ok false) n message r = (o : Fields) × (r ≡ ok o) × Says false none n message o
Verdict (err e) n message r = r ≡ err e

abbrev pub counted : ℕ → Fields → Fields
counted n event = insert "counter" (num (pos (n + 1))) event

module _ (component : String) (n : ℕ) (message event : Fields) where
  pub defaults-IsEvent : IsEvent component n message event → with_defaults event ≡ event
  unfolding with_defaults
  defaults-IsEvent h = ground (arith, h.content, h.counter)

  pub count_up-IsEvent :
      IsEvent component n message event → count_up (with_defaults event) ≡ ok (counted n event)
  unfolding count_up
  count_up-IsEvent h = rw (defaults-IsEvent h, h.counter) refl

  pub is_overdue-counted : is_overdue (counted n event) ≡ ltb 20 (n + 1)
  unfolding is_overdue
  is_overdue-counted =
      rw (is_overdue, lookup-insert "counter" "counter" (num (pos (n + 1))) event) refl

  pub counted-content :
      IsEvent component n message event
      → lookup "message_content" (counted n event) ≡ some (obj message)
  counted-content h = simp lookup-insert h.content

  succeeded-Says :
      (text : String)
      → IsEvent component n message event
      → Says true (some text) n message (
          insert "recycle_success"
            (bool true)
            (insert "message_content" (obj (insert "text" (str text) message)) (counted n event)))
  succeeded-Says text h = record {
    counter = simp lookup-insert;
    recycle_success = simp lookup-insert;
    said = insert "text" (str text) message;
    content = simp lookup-insert;
    says_text = simp lookup-insert;
  }

  conclude-Verdict :
      (r : Result Bool)
      → IsEvent component n message event
      → Verdict r n message (conclude (counted n event) r)
  unfolding conclude
  conclude-Verdict (ok true) h =
      let content = counted-content h in rw content (_, refl, succeeded-Says completed h)
  conclude-Verdict (ok false) h = (
    insert "recycle_success" (bool false) (counted n event),
    refl,
    record {
      counter = simp lookup-insert;
      recycle_success = simp lookup-insert;
      said = message;
      content = simp lookup-insert h.content;
      says_text = refl;
    },
  )
  conclude-Verdict (err scaled_down_asg) h =
      let content = counted-content h in rw content (_, refl, succeeded-Says not_required h)
  conclude-Verdict (err e) h = refl

  overdue-Says :
      (channels : Json)
      → IsEvent component n message event
      → lookup "channels" event ≡ some channels
      → (o : Fields) × (overdue (counted n event) ≡ ok o)
        × (lookup "status" o ≡ some (str "fail"))
        × Says false (some too_long) n message o
  unfolding overdue
  overdue-Says channels h c =
      let colored = insert "color" (str "danger") message in
      let said = insert "text" (str too_long) colored in
      let first = insert "message_content" (obj colored) (counted n event) in
      let content : lookup "message_content" first ≡ some (obj colored) = simp lookup-insert in
      let known : lookup "channels" (insert "message_content" (obj said) first) ≡ some channels =
        simp lookup-insert c in
      (
        insert "recycle_success" (bool false) (
            insert "status" (str "fail")
              (insert "channels" channels (insert "message_content" (obj said) first))),
        rw (counted-content h, content, known) refl,
        simp lookup-insert,
        record {
          counter = simp lookup-insert;
          recycle_success = simp lookup-insert;
          said = said;
          content = simp lookup-insert;
          says_text = simp lookup-insert;
        },
      )

  module _ (S : Services) (w : S.World) where
    -- Up to the twentieth invocation, an event with a component, a counter and a message reports what
    -- the check of the component's group said: success if the check returned true or found the group
    -- scaled down to nothing, no success if it returned false; another exception is raised again. The
    -- counter goes up by one, and the calls are those of the check.
    pub lambda_handler-Verdict :
        IsEvent component n message event
        → n < 20
        → Verdict (check S component w).result n message (lambda_handler S event w).result
          × ((lambda_handler S event w).calls ≡ (check S component w).calls)
    unfolding lambda_handler monitor_autorecycle check_event
    lambda_handler-Verdict h b =
        let not_yet : is_overdue (counted n event) ≡ false = is_overdue-counted ∙ ground arith in
        let name : lookup "component" (counted n event) ≡ some (str component) =
          simp lookup-insert h.of_component in
        let known : contains "component" event ≡ true = rw (contains, h.of_component) refl in
        rw (known, count_up-IsEvent h, not_yet, name)
          (conclude-Verdict (check S component w).result h, append_nil (check S component w).calls)

    -- From the twenty-first invocation on, an event with a component, a counter, a message and channels
    -- says "fail" and no success, counts up by one, and nothing is called.
    pub lambda_handler-overdue :
        (channels : Json)
        → IsEvent component n message event
        → 20 ≤ n
        → lookup "channels" event ≡ some channels
        → (o : Fields) × (lambda_handler S event w
            ≡ record { result = ok o; calls = []; world = w })
          × (lookup "status" o ≡ some (str "fail"))
          × Says false (some too_long) n message o
    unfolding lambda_handler monitor_autorecycle
    lambda_handler-overdue channels h b c =
        let late : is_overdue (counted n event) ≡ true = is_overdue-counted ∙ ground arith in
        let (o, e, status, says) = overdue-Says channels h c in
        let known : contains "component" event ≡ true = rw (contains, h.of_component) refl in
        (o, rw (known, count_up-IsEvent h, late, e) refl, status, says)
