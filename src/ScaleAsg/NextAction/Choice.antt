-- ===== src/ScaleAsg/NextAction/Choice.antt =====
-- When `get_next_asg_action` finds nothing left to do.
use mathlib.Core.Path.{subst}
use mathlib.Core.Bool.{false≢true}
use aws_autorecycle.Base.{
  ℕ, ◌+◌, ◌<◌, String, ◌≡◌, ◌≢◌, refl, ◌↔◌, inl, inr, Bool, true, false, Option, none, some, List,
  [], ◌∷◌, All, arith, eq_iff, Bool-cases, Option-cases, if◌then◌else◌, ◌∙◌,
}
use aws_autorecycle.Base.Dict.{Dict, lookup}
use aws_autorecycle.Exceptions.{ok}
use aws_autorecycle.ScaleAsg.Services.{Services, Asg, AsgInstance, Activity}
use aws_autorecycle.ScaleAsg.NextAction.{
  ended_since, is_current, has_stale, first_empty, recently_scaled, first_stale,
  get_next_asg_action, scale_in,
}

-- A group at a time of the clock: it has instances, its last activity ended less than ten minutes
-- before, and every instance has the version of the group's launch template.
record IsRecycled (details : Dict Activity) (t : ℕ) (asg : Asg) : Type 0 where
  not_empty : asg.instances ≢ []
  version : String
  of_group : asg.launch_template ≡ some version
  of_instances : All (λ i. i.launch_template ≡ some version) asg.instances
  activity : Activity
  last_activity : lookup asg.name details ≡ some activity
  ended : ℕ
  at_end : activity.end_time ≡ some ended
  recent : t < ended + 600

-- The clock is read once for each group.
pub AllRecycled : (S : Services) → Dict Activity → S.World → List Asg → Type 0
AllRecycled S details w [] = Unit
AllRecycled S details w (asg ∷ asgs) =
    let (t, w') = S.now w in IsRecycled details t asg × AllRecycled S details w' asgs

current-true :
    (recent : Bool) (version : Option String) (i : AsgInstance)
    → is_current recent version i ≡ true
    → (recent ≡ true) × ((v : String) × (version ≡ some v) × (i.launch_template ≡ some v))
unfolding is_current
current-true recent none i h = absurd (false≢true h)
current-true recent (some u) i h = elim (Option-cases i.launch_template) [
  | inl e ↦ ground arith
  | inr (u', e) ↦ ground (arith, eq_iff u u')
]

true-current :
    (v : String) (i : AsgInstance) → i.launch_template ≡ some v → is_current true (some v) i ≡ true
unfolding is_current
true-current v i h = rw h (ground (arith, eq_iff v v))

not_stale-All :
    (recent : Bool) (v : String) (instances : List AsgInstance)
    → has_stale recent (some v) instances ≡ false
    → All (λ i. i.launch_template ≡ some v) instances
unfolding has_stale
not_stale-All recent v [] h = tt
not_stale-All recent v (i ∷ instances) h = elim (Bool-cases (is_current recent (some v) i)) [
  | inl e ↦
      let (r, found) = current-true recent (some v) i e in
      let (u, e', e'') = found in (ground arith, not_stale-All recent v instances (ground arith))
  | inr e ↦ ground arith
]

All-not_stale :
    (v : String) (instances : List AsgInstance)
    → All (λ i. i.launch_template ≡ some v) instances
    → has_stale true (some v) instances ≡ false
unfolding has_stale
All-not_stale v [] all = refl
All-not_stale v (i ∷ instances) all = rw (true-current v i all.0) (All-not_stale v instances all.1)

not_stale-current :
    (recent : Bool) (version : Option String) (i : AsgInstance) (instances : List AsgInstance)
    → has_stale recent version (i ∷ instances) ≡ false
    → is_current recent version i ≡ true
unfolding has_stale
not_stale-current recent version i instances h = ground arith

recent_iff :
    (t : ℕ) (a : Activity)
    → (ended_since t a ≡ true) ↔ ((e : ℕ) × (a.end_time ≡ some e) × t < e + 600)
unfolding ended_since
recent_iff t a = elim (Option-cases a.end_time) [
  | inl h ↦ rw h (ground arith)
  | inr (e, h) ↦ rw h ((λ b. (e, refl, ground arith)), λ (e', h', b). ground arith)
]

head_of :
    (instances : List AsgInstance)
    → instances ≢ []
    → (i : AsgInstance) × (rest : List AsgInstance) × (instances ≡ i ∷ rest)
head_of [] ne = absurd (ne refl)
head_of (i ∷ rest) ne = (i, rest, refl)

first_empty-none :
    (asgs : List Asg) → first_empty asgs ≡ none → All (λ asg. asg.instances ≢ []) asgs
unfolding first_empty
first_empty-none [] h = tt
first_empty-none (asg ∷ asgs) h = ground (arith, first_empty-none asgs)

module _ (S : Services) (details : Dict Activity) where
  -- What the second loop finds out of a group, with the time that it read.
  stale_at : ℕ → Asg → Activity → Bool
  stale_at t asg a = has_stale (ended_since t a) asg.launch_template asg.instances

  IsRecycled-not_stale :
      (t : ℕ) (asg : Asg)
      → IsRecycled details t asg
      → (a : Activity) × (lookup asg.name details ≡ some a) × (stale_at t asg a ≡ false)
  unfolding stale_at
  IsRecycled-not_stale t asg h = (
    h.activity,
    h.last_activity,
    rw (h.of_group, (recent_iff t h.activity).1 (h.ended, h.at_end, h.recent))
        (All-not_stale h.version asg.instances h.of_instances),
  )

  not_stale-IsRecycled :
      (t : ℕ) (asg : Asg) (a : Activity)
      → asg.instances ≢ []
      → lookup asg.name details ≡ some a
      → stale_at t asg a ≡ false
      → IsRecycled details t asg
  unfolding stale_at
  not_stale-IsRecycled t asg a ne e h =
      let (i, rest, shape) = head_of asg.instances ne in
      let h' = subst (λ xs. has_stale (ended_since t a) asg.launch_template xs ≡ false) shape h in
      let (recent, found) =
        current-true (ended_since t a) asg.launch_template i
          (not_stale-current (ended_since t a) asg.launch_template i rest h') in
      let (v, e', e'') = found in
      let (ended, at_end, since) = (recent_iff t a).0 recent in
      record {
        not_empty = ne;
        version = v;
        of_group = e';
        of_instances =
            not_stale-All (ended_since t a) v asg.instances
              (subst (λ o. has_stale (ended_since t a) o asg.instances ≡ false) e' h);
        activity = a;
        last_activity = e;
        ended = ended;
        at_end = at_end;
        recent = since;
      }

  -- A round of the second loop for a group whose last activity was read.
  first_stale-cons :
      (asg : Asg) (asgs : List Asg) (w : S.World) (a : Activity)
      → lookup asg.name details ≡ some a
      → (first_stale S details (asg ∷ asgs) w).result ≡ (
          if stale_at (S.now w).0 asg a
          then ok (some (record { asg_name = asg.name; action = scale_in }))
          else (first_stale S details asgs (S.now w).1).result)
  unfolding first_stale recently_scaled stale_at
  first_stale-cons asg asgs w a e =
      elim (Bool-cases (has_stale (ended_since (S.now w).0 a) asg.launch_template asg.instances)) [
        | inl e' ↦ (rw (e, e') refl)
        | inr e' ↦ (rw (e, e') refl)
      ]

  first_stale-known :
      (asg : Asg) (asgs : List Asg) (w : S.World)
      → (first_stale S details (asg ∷ asgs) w).result ≡ ok none
      → (a : Activity) × (lookup asg.name details ≡ some a)
  unfolding first_stale
  first_stale-known asg asgs w h = elim (Option-cases (lookup asg.name details)) [
    | inl e ↦ ground arith
    | inr found ↦ found
  ]

  first_stale-none :
      (asgs : List Asg) (w : S.World)
      → All (λ asg. asg.instances ≢ []) asgs
      → (first_stale S details asgs w).result ≡ ok none
      → AllRecycled S details w asgs
  unfolding AllRecycled
  first_stale-none [] w ne h = tt
  first_stale-none (asg ∷ asgs) w ne h =
      let (a, e) = first_stale-known asg asgs w h in
      let cons = first_stale-cons asg asgs w a e in
      elim (Bool-cases (stale_at (S.now w).0 asg a)) [
        | inl e' ↦ ground arith
        | inr e' ↦ (
          not_stale-IsRecycled (S.now w).0 asg a ne.0 e e',
          first_stale-none asgs (S.now w).1 ne.1 (ground arith),
        )
      ]

  none-first_stale :
      (asgs : List Asg) (w : S.World)
      → AllRecycled S details w asgs
      → (first_stale S details asgs w).result ≡ ok none
  unfolding AllRecycled first_stale
  none-first_stale [] w h = refl
  none-first_stale (asg ∷ asgs) w h =
      let (a, e, e') = IsRecycled-not_stale (S.now w).0 asg h.0 in
      first_stale-cons asg asgs w a e ∙ (rw e' (none-first_stale asgs (S.now w).1 h.1))

  AllRecycled-not_empty :
      (asgs : List Asg) (w : S.World) → AllRecycled S details w asgs → first_empty asgs ≡ none
  unfolding AllRecycled first_empty
  AllRecycled-not_empty [] w h = refl
  AllRecycled-not_empty (asg ∷ asgs) w h =
      ground (arith, h.0.not_empty, AllRecycled-not_empty asgs (S.now w).1 h.1)

  -- The code finds nothing to do exactly if every group is recycled at the time that is read for it.
  pub get_next_asg_action-none_iff :
      (asgs : List Asg) (w : S.World)
      → ((get_next_asg_action S asgs details w).result ≡ ok none) ↔ AllRecycled S details w asgs
  unfolding get_next_asg_action
  get_next_asg_action-none_iff asgs w = elim (Option-cases (first_empty asgs)) [
    | inl e ↦
        rw (e, get_next_asg_action)
          (first_stale-none asgs w (first_empty-none asgs e), none-first_stale asgs w)
    | inr (name, e) ↦
        rw (e, get_next_asg_action)
          ((λ h. ground arith), λ h. absurd (ground (arith, AllRecycled-not_empty asgs w h)))
  ]
