-- ===== src/Mongo/Step/Recorded.antt =====
-- What the handler calls around its step: the first run records that it starts, and then only the step
-- calls anything.
use aws_autorecycle.Base.{
  ℕ, ◌+◌, eqb, String, ◌==◌, ◌≡◌, refl, ◌∙◌, ap, Bool, true, false, ◌&&◌, Option, none, some, List,
  [], ◌∷◌, arith, eq_iff, Bool-cases, inl, inr, if◌then◌else◌,
}
use aws_autorecycle.Exceptions.{Result, ok, err, NoneType}
use aws_autorecycle.Effect.{Run, continue, lift, ◌>>=◌}
use aws_autorecycle.Effect.Follows.{accept, then_accept, accept-append}
use aws_autorecycle.Json.{Json, str, Fields, lookup, truthy}
use aws_autorecycle.Mongo.Models.{Decision}
use aws_autorecycle.Mongo.Services.{Services, Call, put_item, put}
use aws_autorecycle.Mongo.Step.{step, is_first_run, record_recycle_starting, finish, lambda_handler}
use aws_autorecycle.Mongo.Step.Order.{step_order}
use aws_autorecycle.Mongo.Protocol.{Phase, unknown, allowed, Completes, Returning}
use aws_autorecycle.Mongo.Protocol.Recycling.{ListsRequested}

-- Whether the start is still to be recorded.
pub data Turn : Type 0 where
  starting : Turn
  going : Phase → Turn

-- A run is the first one if its event counts no node.
abbrev pub first_turn : Fields → Turn
first_turn event = elim (lookup "counter" event) [
  | none ↦ starting
  | some n ↦ if truthy n then going unknown else starting
]

-- Fifteen minutes after the time that was read.
abbrev is_due : Result ℕ → ℕ → Bool
is_due (ok now) expiry = eqb expiry (now + 900)
is_due (err e) expiry = false

abbrev as_turn : Option Phase → Option Turn
as_turn none = none
as_turn (some p) = some (going p)

-- The start is recorded first, for the component and with the due time; after that, what a step may
-- call is allowed, and the start is not recorded again.
abbrev pub turn_allowed : String → Result ℕ → Turn → Call → Option Turn
turn_allowed component now starting (put_item name expiry) =
    if (name == component) && is_due now expiry then some (going unknown) else none
turn_allowed component now starting _ = none
turn_allowed component now (going p) call = as_turn (allowed p call)

accept-going :
    (component : String) (now : Result ℕ) (o : Option Phase) (q : Phase) (calls : List Call)
    → then_accept allowed o calls ≡ some q
    → then_accept (turn_allowed component now) (as_turn o) calls ≡ some (going q)
accept-going component now none q calls h = cc
accept-going component now (some p) q [] h = ap as_turn h
accept-going component now (some p) q (call ∷ calls) h =
    accept-going component now (allowed p call) q calls h

first_turn-first : (event : Fields) → is_first_run event ≡ true → first_turn event ≡ starting
unfolding is_first_run
first_turn-first event h = ground (arith, h)

first_turn-later : (event : Fields) → is_first_run event ≡ false → first_turn event ≡ going unknown
unfolding is_first_run
first_turn-later event h = ground (arith, h)

put_allowed :
    (component : String) (now : ℕ)
    → turn_allowed component (ok now) starting (put_item component (now + 900))
      ≡ some (going unknown)
put_allowed component now = ground (arith, eq_iff component component)

-- The state of the world when the step begins.
abbrev pub step_from : (S : Services) → String → Turn → S.World → S.World
step_from S component starting w = (record_recycle_starting S component w).world
step_from S component (going p) w = w

-- If the handler returned an event: the decision that its step returned, with the calls that end
-- where this decision ends, and the event made from it.
abbrev pub Handled :
    (S : Services) → (Json → String) → String → Fields → S.World → Result Fields → Turn → Type 0
Handled S show component event w (err e) q = Unit
Handled S show component event w (ok event') q =
    (d : Decision) × (p : Phase) × (q ≡ going p)
    × ((step S component w).result ≡ ok d)
    × Completes d p
    × (finish show d event ≡ ok event')

module _ (S : Services) (promise : ListsRequested S) (show : Json → String) (component : String)
    (event : Fields) (now : Result ℕ) where
  -- The step from a state of the world, and what the handler does with its result.
  abbrev stepping : Run S.World Call Fields
  stepping = step S component >>= λ d. lift (finish show d event)

  abbrev Leads : Turn → S.World → Result Fields → List Call → Type 0
  Leads p w r calls =
      (q : Turn) × (accept (turn_allowed component now) p calls ≡ some q)
      × Handled S show component event w r q

  finished-Handled :
      (d : Decision) (p : Phase) (w : S.World) (r : Result Fields)
      → (step S component w).result ≡ ok d
      → Completes d p
      → finish show d event ≡ r
      → Handled S show component event w r (going p)
  finished-Handled d p w (ok event') s h e = (d, p, refl, s, h, e)
  finished-Handled d p w (err c) s h e = tt

  decided-Leads :
      (r : Result Decision) (calls : List Call) (w w' : S.World) (p : Phase)
      → (step S component w).result ≡ r
      → accept allowed unknown calls ≡ some p
      → Returning Completes r p
      → Leads
          (going unknown)
          w
          (continue r calls w' (λ d. lift (finish show d event))).result
          (continue r calls w' (λ d. lift (finish show d event))).calls
  decided-Leads (ok d) calls w w' p s a h =
      let accepted = accept-going component now (some unknown) p calls a in
      (
        going p,
        accept-append (turn_allowed component now) (going unknown) (going p) calls [] accepted,
        finished-Handled d p w (finish show d event) s h refl,
      )
  decided-Leads (err e) calls w w' p s a h =
      (going p, accept-going component now (some unknown) p calls a, tt)

  stepping-Leads : (w : S.World) → Leads (going unknown) w (stepping w).result (stepping w).calls
  stepping-Leads w =
      let o = step S component w in
      let (p, accepted, h) = step_order S promise component w in
      decided-Leads o.result o.calls w o.world p refl accepted h

  -- A first run: the time, the record, and the step if neither raises.
  put-Leads :
      (time : ℕ) (r : Result NoneType) (w : S.World)
      → now ≡ ok time
      → Leads starting w
          (continue r (put_item component (time + 900) ∷ []) w (λ _. stepping)).result
          (continue r (put_item component (time + 900) ∷ []) w (λ _. stepping)).calls
  put-Leads time r w e = after r
    where
      step_one :
          accept (turn_allowed component now) starting (put_item component (time + 900) ∷ [])
          ≡ some (going unknown)
      step_one = rw e (
          ap (λ o. then_accept (turn_allowed component (ok time)) o [])
            (put_allowed component time))

      after :
          (r : Result NoneType)
          → Leads starting w
              (continue r (put_item component (time + 900) ∷ []) w (λ _. stepping)).result
              (continue r (put_item component (time + 900) ∷ []) w (λ _. stepping)).calls
      after (err c) = (going unknown, step_one, tt)
      after (ok _) =
          let (q, a, h) = stepping-Leads w in
          (
            q,
            accept-append (turn_allowed component now) starting (going unknown)
                  (put_item component (time + 900) ∷ []) (stepping w).calls step_one
                ∙ a,
            h,
          )

  recorded-Leads :
      (r : Result ℕ) (w : S.World)
      → now ≡ r
      → let o = continue r [] w (λ time. put S component (time + 900)) in
        Leads starting o.world
          (continue o.result o.calls o.world (λ _. stepping)).result
          (continue o.result o.calls o.world (λ _. stepping)).calls
  recorded-Leads (err c) w e = (starting, refl, tt)
  recorded-Leads (ok time) w e =
      let o = put S component (time + 900) w in put-Leads time o.result o.world e

module _ (S : Services) (promise : ListsRequested S) (show : Json → String) where
  -- If the event counts no node, an invocation for a component first records the start, for this
  -- component and fifteen minutes after the time, and calls nothing else before; if it counts some, it
  -- records nothing. What it calls then is allowed in its order, as the calls of a step are. If it
  -- returns an event, the step that it ran next returned a decision, the calls end where this decision
  -- ends, and the event is the one that `finish` makes of the decision and the event received.
  pub handler_order :
      (component : String) (event : Fields) (w : S.World)
      → lookup "component" event ≡ some (str component)
      → (q : Turn) × (accept
            (turn_allowed component (S.time w).0)
            (first_turn event)
            (lambda_handler S show event w).calls
          ≡ some q)
        × Handled S show component event
            (step_from S component (first_turn event) w)
            (lambda_handler S show event w).result
            q
  unfolding lambda_handler record_recycle_starting
  handler_order component event w h = elim (Bool-cases (is_first_run event)) [
    | inl e ↦
        rw (h, e, first_turn-first event e)
          (recorded-Leads S promise show component event (S.time w).0 (S.time w).0 (S.time w).1
            refl)
    | inr e ↦
        rw (h, e, first_turn-later event e)
          (stepping-Leads S promise show component event (S.time w).0 w)
  ]
