-- ===== src/ScaleAsg/Handler/Order.antt =====
-- In which order one invocation calls AWS, and what it reports then.
use aws_autorecycle.Base.{
  String, ◌≡◌, refl, ◌∙◌, ap, sym, ℤ, pos, ◌⊎◌, inl, inr, true, false, Option, none, some, List, [],
  All, arith, Bool-cases,
}
use aws_autorecycle.Base.Dict.{Dict, values}
use aws_autorecycle.Exceptions.{Exception, Result, ok, err}
use aws_autorecycle.Effect.{pure, attempt}
use aws_autorecycle.Effect.Follows.{
  Follows, Follows-pure, Follows-ask, Follows-weaken, Follows-attempt, Follows-bind,
}
use aws_autorecycle.ScaleAsg.Event.{Event, set, one, value, next_counter, create_output_params}
use aws_autorecycle.ScaleAsg.Services.{Services, Asg, Activity, executed_policy}
use aws_autorecycle.ScaleAsg.Autoscaling.{describe_asg, execute_scaling_policy}
use aws_autorecycle.ScaleAsg.Handler.{
  describe_all, take_step, proceed, try_scale, caught, scale_asg, is_unset, counter_below,
  handle_event, good, failed,
}
use aws_autorecycle.ScaleAsg.NextAction.{
  NextAsgAction, get_overall_progress, get_overall_statuscode, get_next_asg_action,
}
use aws_autorecycle.ScaleAsg.Handler.Protocol.{
  State, start, reading, moved, broken, next_state, all_ready, known,
}
use aws_autorecycle.ScaleAsg.Handler.Reading.{
  Listed, Described, Found, Same, describe_asg-Listed, describe_all-Described,
  get_next_asg_action-Found,
}

-- What the output of the `try` says: its counter is kept, and it reports success only if no policy
-- was executed and all activities that were read are complete and successful.
abbrev pub Recycled : Event → State → Type 0
Recycled o q =
    (o.recycle_success ≡ set true) × ((d : Dict Activity) × (q ≡ reading d) × (all_ready d ≡ true))

-- The activity of every group of the component was read.
abbrev Complete : State → Type 0
Complete q = (q ≡ moved) ⊎ ((d : Dict Activity) × (q ≡ reading d))

-- Where an exception can come from: a read that raised, a component without groups, or the policy.
abbrev Stopped : State → Type 0
Stopped q = (q ≡ broken) ⊎ ((q ≡ reading []) ⊎ (q ≡ moved))

abbrev Reported : Event → Result Event → State → Type 0
Reported output (err e) q = Stopped q
Reported output (ok o) q =
    (o.counter ≡ output.counter) × ((o.recycle_success ≡ set false) ⊎ Recycled o q) × Complete q

abbrev Attempted : Event → Result (Result Event) → State → Type 0
Attempted output (err e) q = ⊥
Attempted output (ok r) q = Reported output r q

next_counter-unset : (c : Option ℤ) → is_unset c ≡ true → next_counter c ≡ pos 1
next_counter-unset none h = refl
next_counter-unset (some n) h = rw h refl

-- What a whole turn returns: no exception, and an event whose counter went up by one. Unless it names
-- an exception that a call raised, or for a component without groups, every group was read.
abbrev pub Turned : (Exception → String) → Event → Result Event → State → Type 0
Turned repr event r q =
    (o : Event) × (r ≡ ok o)
    × (o.counter ≡ set (next_counter (value event.counter)))
    × ((o.recycle_success ≡ set false) ⊎ Recycled o q)
    × (Complete q ⊎ ((e : Exception) × (o.exception ≡ set (repr e)) × Stopped q))

module _ (S : Services) (environment : Option String) (repr : Exception → String) where
  module _ (event output : Event) where
    policy-Same :
        (d : Dict Activity) (name policy : String)
        → all_ready d ≡ true
        → known name d ≡ true
        → Follows
            (next_state event.component)
            (reading d)
            (Same moved)
            (execute_scaling_policy S name policy)
    unfolding execute_scaling_policy
    policy-Same d name policy ready k =
        Follows-ask (λ _. executed_policy name policy) _ (λ r. (moved, (rw (ready, k) refl), refl))

    take_step-Reported :
        (d : Dict Activity) (next : Option NextAsgAction) (q : State)
        → all_ready d ≡ true
        → Found d (ok next) q
        → Follows
            (next_state event.component)
            q
            (Reported output)
            (take_step S environment repr event output next)
    unfolding take_step good
    take_step-Reported d none q ready found =
        Follows-pure _ (refl, inr (refl, (d, found, ready)), inr (d, found))
    take_step-Reported d (some next) q ready found = rw (found.0) (
        Follows-bind (Same moved) (execute_scaling_policy S next.asg_name _) _
          (policy-Same d next.asg_name _ ready found.1)
          (λ _ q' e. Follows-pure _ (refl, inl refl, inl e)) (λ e q' h. inr (inr h)))

    proceed-Reported :
        (d : Dict Activity) (asgs : List Asg)
        → All (λ asg. known asg.name d ≡ true) asgs
        → Follows
            (next_state event.component)
            (reading d)
            (Reported output)
            (proceed S environment repr event output asgs d)
    unfolding proceed good failed
    proceed-Reported d asgs all = elim (Bool-cases (get_overall_progress (values d))) [
      | inr e ↦ rw (e, proceed) (Follows-pure _ (refl, inl refl, inr (d, refl)))
      | inl e ↦ elim (Bool-cases (get_overall_statuscode (values d))) [
        | inr e' ↦ rw (e, e', proceed) (Follows-pure _ (refl, inl refl, inr (d, refl)))
        | inl e' ↦
            rw (e, e', proceed)
              (Follows-bind (Found d) (get_next_asg_action S asgs d) _
                (get_next_asg_action-Found S event.component d asgs all)
                (λ next q found. take_step-Reported d next q (rw (e, e') refl) found)
                (λ e q h. absurd h))
      ]
    ]

    try_scale-Reported :
        Follows
          (next_state event.component)
          start
          (Reported output)
          (try_scale S environment repr event output)
    unfolding try_scale
    try_scale-Reported =
        Follows-bind Listed (describe_asg S event.component) _
          (describe_asg-Listed S event.component)
          (λ asgs q e. rw e (
            Follows-bind (Described asgs []) (describe_all S asgs []) _
              (describe_all-Described S event.component asgs [])
              (λ d q' h. rw (h.0) (proceed-Reported d asgs h.2)) (λ e q' h. inl h)))
          (λ e q h. elim h [ inl b ↦ inl b | inr l ↦ inr (inl l) ])

    caught-Turned :
        output.counter ≡ set (next_counter (value event.counter))
        → (r : Result Event) (q : State) → Reported output r q
        → Turned repr event (ok (caught S environment repr event output r)) q
    unfolding caught failed
    caught-Turned c (ok o) q h = (o, refl, h.0 ∙ c, h.1, inl (h.2))
    caught-Turned c (err e) q h = (_, refl, c, inl refl, inr (e, refl, h))

  scale_asg-Turned :
      (event : Event)
      → Follows
          (next_state event.component)
          start
          (Turned repr event)
          (scale_asg S environment repr event)
  unfolding scale_asg create_output_params
  scale_asg-Turned event =
      let output = create_output_params event in
      Follows-bind (Attempted output) (attempt (try_scale S environment repr event output))
        (λ r. pure (caught S environment repr event output r))
        (Follows-attempt (Follows-weaken (try_scale-Reported event output) (λ r q h. h)))
        (λ r q h. Follows-pure _ (caught-Turned event (create_output_params event) refl r q h))
        (λ e q h. absurd h)

  -- The event of a first invocation.
  abbrev pub reset : Event → Event
  reset event = record event { counter = set (pos 0); channels = set (one event.success_channel) }

  reset-Turned :
      (event : Event)
      → is_unset (value event.counter) ≡ true
      → Follows
          (next_state event.component)
          start
          (Turned repr event)
          (scale_asg S environment repr (reset event))
  reset-Turned event e =
      Follows-weaken (scale_asg-Turned (reset event)) (λ r q (o, returned, c, x, read).
        (o, returned, c ∙ ap set (sym (next_counter-unset (value event.counter) e)), x, read))

  -- One invocation whose counter is missing, zero, or below 60 describes the groups once. It asks for
  -- the last activity of each group whose name matches the component, on all pages and in their order;
  -- where a call raises, or no group matches, it stops and reports an exception. It executes at most
  -- one policy, as its last call, on one of these groups, and only if the activity of each was read and
  -- all are complete and successful. It raises no exception, adds one to the counter, and reports
  -- success only if it executed no policy, the activity of each group was read and all are complete and
  -- successful.
  pub turn_order :
      (event : Event)
      → (is_unset (value event.counter) ≡ true) ⊎ (counter_below 60 event ≡ true)
      → Follows
          (next_state event.component)
          start
          (Turned repr event)
          (handle_event S environment repr event)
  unfolding handle_event
  turn_order event below = elim (Bool-cases (is_unset (value event.counter))) [
    | inl e ↦ rw (e, handle_event) (reset-Turned event e)
    | inr e ↦ elim below [
      | inl e' ↦ ground arith
      | inr e' ↦ rw (e, e', handle_event) (scale_asg-Turned event)
    ]
  ]
