-- ===== src/ScaleAsg/Handler/Reading.antt =====
-- What the reads of one invocation leave.
use mathlib.Core.Path.{subst}
use aws_autorecycle.Base.{
  ◌⊎◌, String, ◌≡◌, refl, inl, inr, Bool, true, false, Option, none, some, List, [], ◌∷◌, ◌∙◌, ap,
  sym, map, All, arith, eq_iff, Bool-cases, Option-cases, if◌then◌else◌,
}
use aws_autorecycle.Base.Dict.{Dict, lookup, insert, lookup-insert}
use aws_autorecycle.Exceptions.{Result, ok, err, required}
use aws_autorecycle.Effect.{lift, pure}
use aws_autorecycle.Effect.Follows.{
  Follows, Follows-pure, Follows-lift, Follows-ask, Follows-weaken, Follows-bind,
}
use aws_autorecycle.ScaleAsg.Services.{
  Services, Asg, Activity, described_groups, described_activities, now, describe_groups,
  describe_activities,
}
use aws_autorecycle.ScaleAsg.Autoscaling.{
  found_or_raise, latest, describe_asg, describe_scaling_activities,
}
use aws_autorecycle.ScaleAsg.Handler.{describe_all}
use aws_autorecycle.ScaleAsg.NextAction.{
  NextAsgAction, scale_in, recently_scaled, has_stale, first_empty, first_stale,
  get_next_asg_action, ended_since,
}
use aws_autorecycle.ScaleAsg.Handler.Protocol.{
  State, start, listing, reading, broken, known, next_state, matching, matching-select,
}

known-insert :
    (j k : String) (a : Activity) (d : Dict Activity)
    → known j d ≡ true
    → known j (insert k a d) ≡ true
known-insert j k a d h = rw (known, lookup-insert j k a d) (ground arith)

known-insert_same : (k : String) (a : Activity) (d : Dict Activity) → known k (insert k a d) ≡ true
known-insert_same k a d = rw (known, lookup-insert k k a d) (ground (arith, eq_iff k k))

-- After the loop over the groups: what it read is what it returns, every group is in it, and nothing
-- was lost.
abbrev pub Described : List Asg → Dict Activity → Result (Dict Activity) → State → Type 0
Described asgs d (err e) q = q ≡ broken
Described asgs d (ok d') q =
    (q ≡ reading d')
    × ((name : String) → known name d ≡ true → known name d' ≡ true)
    × All (λ asg. known asg.name d' ≡ true) asgs

abbrev Noted : String → List String → Dict Activity → Result Activity → State → Type 0
Noted name todo d (err e) q = q ≡ broken
Noted name todo d (ok a) q = q ≡ listing todo (insert name a d)

-- The groups that were found are those whose activities are to be read; there may be none.
abbrev pub Listed : Result (List Asg) → State → Type 0
Listed (err e) q = (q ≡ broken) ⊎ (q ≡ reading [])
Listed (ok asgs) q = q ≡ listing (map (λ asg. asg.name) asgs) []

-- The step that was found is for a group that was read. Looking for it raises nothing.
abbrev pub Found : Dict Activity → Result (Option NextAsgAction) → State → Type 0
Found d (err e) q = ⊥
Found d (ok none) q = q ≡ reading d
Found d (ok (some next_step)) q = (q ≡ reading d) × (known next_step.asg_name d ≡ true)

abbrev pub Same : State → {A : Type 0} → Result A → State → Type 0
Same p r q = q ≡ p

-- The run raises nothing, and is where it was.
abbrev Quiet : State → {A : Type 0} → Result A → State → Type 0
Quiet p (ok a) q = q ≡ p
Quiet p (err e) q = ⊥

required-Quiet :
    (name : String) (found : Option Activity) (p : State)
    → (elim found [ none ↦ false | some a ↦ true ]) ≡ true
    → Quiet p (required name found) p
required-Quiet name none p h = ground arith
required-Quiet name (some a) p h = refl

head_name :
    (n : String) (d : Dict Activity) (name : String)
    → n ≡ name
    → known n d ≡ true
    → known name d ≡ true
head_name n d name e k = subst (λ n. known n d ≡ true) e k

first_empty-known :
    (asgs : List Asg) (d : Dict Activity) (name : String)
    → All (λ asg. known asg.name d ≡ true) asgs
    → first_empty asgs ≡ some name
    → known name d ≡ true
unfolding first_empty
first_empty-known [] d name all h = ground arith
first_empty-known (asg ∷ asgs) d name all h =
    ground (arith, all.0, first_empty-known asgs d name all.1, head_name asg.name d name)

module _ (S : Services) (component : String) where
  describe-Noted :
      (name : String) (todo : List String) (d : Dict Activity)
      → Follows
          (next_state component)
          (listing (name ∷ todo) d)
          (Noted name todo d)
          (describe_scaling_activities S name)
  unfolding describe_scaling_activities
  describe-Noted name todo d =
      Follows-bind Read (describe_activities S name 1) _
        (Follows-ask (described_activities name) _ after) (λ activities q e. Follows-pure _ e)
        (λ e q h. h)
    where
      Read : Result (List Activity) → State → Type 0
      Read (ok activities) q = q ≡ listing todo (insert name (latest activities) d)
      Read (err e) q = q ≡ broken

      after :
          (r : Result (List Activity))
          → (q : State) × (next_state component
                (listing (name ∷ todo) d)
                (described_activities name r)
              ≡ some q)
            × Read r q
      after (ok activities) =
          (listing todo (insert name (latest activities) d), ground (arith, eq_iff name name), refl)
      after (err e) = (broken, ground (arith, eq_iff name name), refl)

  found-Listed :
      (asgs : List Asg) (q : State)
      → q ≡ listing (map (λ asg. asg.name) asgs) []
      → Listed (found_or_raise component asgs) q
  unfolding found_or_raise
  found-Listed [] q h = inr h
  found-Listed (asg ∷ asgs) q h = h

  pub describe_asg-Listed : Follows (next_state component) start Listed (describe_asg S component)
  unfolding describe_asg
  describe_asg-Listed =
      Follows-bind Pages (describe_groups S) _ (Follows-ask described_groups _ after)
        (λ pages q e. Follows-lift _ (
          found-Listed _ q
            (e ∙ ap (λ names. listing names []) (sym (matching-select component pages)))))
        (λ e q h. inl h)
    where
      Pages : Result (List (List Asg)) → State → Type 0
      Pages (ok pages) q = q ≡ listing (matching component pages) []
      Pages (err e) q = q ≡ broken

      after :
          (r : Result (List (List Asg)))
          → (q : State) × (next_state component start (described_groups r) ≡ some q) × Pages r q
      after (ok pages) = (listing (matching component pages) [], refl, refl)
      after (err e) = (broken, refl, refl)

  pub describe_all-Described :
      (asgs : List Asg) (d : Dict Activity)
      → Follows
          (next_state component)
          (listing (map (λ asg. asg.name) asgs) d)
          (Described asgs d)
          (describe_all S asgs d)
  unfolding describe_all
  describe_all-Described [] d = Follows-pure d (refl, (λ name h. h), tt)
  describe_all-Described (asg ∷ asgs) d =
      Follows-bind (Noted asg.name (map (λ asg. asg.name) asgs) d)
        (describe_scaling_activities S asg.name) _
        (describe-Noted asg.name (map (λ asg. asg.name) asgs) d)
        (λ a q e. rw e (
          Follows-weaken (describe_all-Described asgs (insert asg.name a d))
            (λ r q h. weaken asg.name a r q h)))
        (λ e q h. h)
    where
      weaken :
          (name : String) (a : Activity) (r : Result (Dict Activity)) (q : State)
          → Described asgs (insert asg.name a d) r q
          → Described (asg ∷ asgs) d r q
      weaken name a (err e) q h = h
      weaken name a (ok d') q (e, keep, all) = (
        e,
        (λ n k. keep n (known-insert n asg.name a d k)),
        (keep asg.name (known-insert_same asg.name a d), all),
      )

  now-Quiet : (p : State) → Follows (next_state component) p (Quiet p) (now S)
  now-Quiet p = record { at = λ w. (p, refl, refl) }

  recently_scaled-Quiet :
      (p : State) (a : Activity) → Follows (next_state component) p (Quiet p) (recently_scaled S a)
  unfolding recently_scaled
  recently_scaled-Quiet p a =
      Follows-bind (Quiet p) (now S) (λ t. pure (ended_since t a)) (now-Quiet p)
        (λ t q e. Follows-pure (ended_since t a) e) (λ e q h. h)

  module _ (d : Dict Activity) (asg : Asg) (asgs : List Asg) where
    branch-Found :
        (recent : Bool)
        → known asg.name d ≡ true
        → Follows (next_state component) (reading d) (Found d) (first_stale S d asgs)
        → Follows (next_state component) (reading d) (Found d) (
            if has_stale recent asg.launch_template asg.instances
            then pure (some (record { asg_name = asg.name; action = scale_in }))
            else first_stale S d asgs)
    branch-Found recent k later =
        elim (Bool-cases (has_stale recent asg.launch_template asg.instances)) [
          | inl e ↦ (rw e (Follows-pure _ (refl, k)))
          | inr e ↦ (rw e later)
        ]

  first_stale-Found :
      (d : Dict Activity) (asgs : List Asg)
      → All (λ asg. known asg.name d ≡ true) asgs
      → Follows (next_state component) (reading d) (Found d) (first_stale S d asgs)
  unfolding first_stale
  first_stale-Found d [] all = Follows-pure none refl
  first_stale-Found d (asg ∷ asgs) all =
      let later = first_stale-Found d asgs all.1 in
      Follows-bind (Quiet (reading d)) (lift (required asg.name (lookup asg.name d))) _
        (Follows-lift _ (required-Quiet asg.name (lookup asg.name d) (reading d) all.0))
        (λ a q h. rw h (
          Follows-bind (Quiet (reading d)) (recently_scaled S a) _
            (recently_scaled-Quiet (reading d) a)
            (λ recent q' e. rw e (branch-Found d asg asgs recent all.0 later)) (λ e q' h. h)))
        (λ e q h. h)

  pub get_next_asg_action-Found :
      (d : Dict Activity) (asgs : List Asg)
      → All (λ asg. known asg.name d ≡ true) asgs
      → Follows (next_state component) (reading d) (Found d) (get_next_asg_action S asgs d)
  unfolding get_next_asg_action
  get_next_asg_action-Found d asgs all = elim (Option-cases (first_empty asgs)) [
    | inl e ↦ rw (get_next_asg_action, e) (first_stale-Found d asgs all)
    | inr (name, e) ↦
        rw (get_next_asg_action, e) (Follows-pure _ (refl, first_empty-known asgs d name all e))
  ]
