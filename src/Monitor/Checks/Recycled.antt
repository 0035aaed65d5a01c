-- ===== src/Monitor/Checks/Recycled.antt =====
-- When the monitor takes a group for recycled.
use mathlib.Core.Path.{subst}
use aws_autorecycle.Base.{
  ℕ, String, ◌≡◌, refl, ◌↔◌, true, inl, inr, Option, none, some, List, [], ◌∷◌, arith, eq_iff,
  select, Bool-cases, Option-cases,
}
use aws_autorecycle.Monitor.Services.{Instance, Asg, Activity}
use aws_autorecycle.Monitor.Checks.{
  is_within, is_in_service, start_times, last_instance_activity_time, gather_times, check_instances,
}
use aws_autorecycle.Monitor.Checks.Times.{
  Near, IsLatest, sorted-IsLatest_iff, compare_start_times_iff,
}

-- The times of the activities that name an instance.
abbrev pub times_of : List Activity → String → List ℕ
times_of activities id = start_times (select (λ a. is_within id a.description) activities)

-- The instance serves, and the latest activity that names it was at the time.
pub record IsServing (launching : List Activity) (i : Instance) (t : ℕ) : Type 0 where
  pub healthy : i.health_status ≡ "Healthy"
  pub in_service : i.lifecycle_state ≡ "InService"
  pub at_time : IsLatest t (times_of launching i.instance_id)

-- One time for each instance.
abbrev pub Serving : List Activity → List Instance → List ℕ → Type 0
Serving launching [] [] = Unit
Serving launching (i ∷ instances) (t ∷ times) =
    IsServing launching i t × Serving launching instances times
Serving launching _ _ = ⊥

last_time_iff :
    (launching : List Activity) (id : String) (t : ℕ)
    → (last_instance_activity_time launching id ≡ some t) ↔ IsLatest t (times_of launching id)
unfolding last_instance_activity_time
last_time_iff launching id t = sorted-IsLatest_iff t (times_of launching id)

-- What the loop returns, if it returns no `False`, is one time for each instance.
Gathered : List Activity → List Instance → Option (List ℕ) → Type 0
Gathered launching instances none = Unit
Gathered launching instances (some times) = Serving launching instances times

serves :
    (launching : List Activity) (i : Instance) (t : ℕ)
    → is_in_service i ≡ true
    → last_instance_activity_time launching i.instance_id ≡ some t
    → IsServing launching i t
serves launching i t e e' = record {
  healthy = ground (arith, eq_iff i.health_status "Healthy");
  in_service = ground (arith, eq_iff i.lifecycle_state "InService");
  at_time = (last_time_iff launching i.instance_id t).0 e';
}

gather-Gathered :
    (launching : List Activity) (instances : List Instance)
    → Gathered launching instances (gather_times launching instances)
unfolding gather_times Gathered
gather-Gathered launching [] = tt
gather-Gathered launching (i ∷ instances) =
    let rest = gather-Gathered launching instances in
    elim (Bool-cases (is_in_service i)) [
      | inr e ↦ rw e tt
      | inl e ↦ elim (Option-cases (last_instance_activity_time launching i.instance_id)) [
        | inl e' ↦ rw (e, e') tt
        | inr (t, e') ↦ elim (Option-cases (gather_times launching instances)) [
          | inl e'' ↦ rw (e, e', e'') tt
          | inr (times, e'') ↦
              rw (e, e', e'')
                (serves launching i t e e', subst (Gathered launching instances) e'' rest)
        ]
      ]
    ]

Serving→gather :
    (launching : List Activity) (instances : List Instance) (times : List ℕ)
    → Serving launching instances times
    → gather_times launching instances ≡ some times
unfolding gather_times
Serving→gather launching [] [] h = refl
Serving→gather launching [] (t ∷ times) h = absurd h
Serving→gather launching (i ∷ instances) [] h = absurd h
Serving→gather launching (i ∷ instances) (t ∷ times) h =
    let served : is_in_service i ≡ true = ground (
      arith,
      h.0.healthy,
      h.0.in_service,
      eq_iff i.health_status "Healthy",
      eq_iff i.lifecycle_state "InService",
    ) in
    let at_time = (last_time_iff launching i.instance_id t).1 h.0.at_time in
    rw (served, at_time, Serving→gather launching instances times h.1) refl

module _ (asg : Asg) (launching : List Activity) where
  -- The group counts as recycled exactly if every instance is healthy and in service, was named by a
  -- launching activity, and no two of their latest such activities are more than two minutes apart.
  pub check_instances_iff :
      (check_instances asg launching ≡ true)
      ↔ ((times : List ℕ) × Serving launching asg.instances times × Near 120 times)
  unfolding check_instances Gathered
  check_instances_iff = (
    λ h. elim (Option-cases (gather_times launching asg.instances)) [
      | inl e ↦ ground arith
      | inr (times, e) ↦ (
        times,
        subst (Gathered launching asg.instances) e (gather-Gathered launching asg.instances),
        (compare_start_times_iff 2 times).0 (ground arith),
      )
    ],
    λ (times, served, near).
        rw (check_instances, Serving→gather launching asg.instances times served)
          ((compare_start_times_iff 2 times).1 near),
  )
