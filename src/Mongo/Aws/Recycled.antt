-- ===== src/Mongo/Aws/Recycled.antt =====
-- What is known of an instance when its recycling returned.
use aws_autorecycle.Base.{
  ℕ, ◌≤◌, String, ◌≡◌, refl, sym, ap, ◌∙◌, inl, inr, Bool, some, List, [], ◌∷◌, eq_iff, arith,
}
use aws_autorecycle.Exceptions.{
  Exception, Result, ok, err, NoneType, Result-cases, client_error, ◌>>=◌, ◌>>◌,
}
use aws_autorecycle.Mongo.Models.{Instance}
use aws_autorecycle.Mongo.Services.{Services, Ec2Instance, Reservation}
use aws_autorecycle.Mongo.Poll.{poll}
use aws_autorecycle.Mongo.Poll.Attempts.{poll-IsAttempt, world_at}
use aws_autorecycle.Mongo.Aws.{
  only_instance, instance_state, assert_terminated, one_resource, get_instance_state, is_terminated,
  terminate_and_wait, recycle_instance,
}

-- The one instance of the one reservation, in this state.
pub record Alone (state : String) (reservations : List Reservation) : Type 0 where
  pub reservation : Reservation
  pub machine : Ec2Instance
  pub one_reservation : reservations ≡ reservation ∷ []
  pub one_instance : reservation.instances ≡ machine ∷ []
  pub in_state : machine.state_name ≡ state

only_instance-ok :
    (r : Reservation) (machines : List Ec2Instance) (state : String)
    → r.instances ≡ machines
    → only_instance machines ≡ ok state
    → Alone state (r ∷ [])
unfolding only_instance
only_instance-ok r [] state e h = ground arith
only_instance-ok r (m ∷ []) state e h = record {
  reservation = r;
  machine = m;
  one_reservation = refl;
  one_instance = e;
  in_state = ground arith;
}
only_instance-ok r (m ∷ n ∷ rest) state e h = ground arith

instance_state-ok :
    (reservations : List Reservation) (state : String)
    → instance_state reservations ≡ ok state
    → Alone state reservations
unfolding instance_state
instance_state-ok [] state h = ground arith
instance_state-ok (r ∷ []) state h = only_instance-ok r r.instances state refl h
instance_state-ok (r ∷ q ∷ rest) state h = ground arith

assert_terminated-ok :
    (state : String) (b : Bool) → assert_terminated state ≡ ok b → state ≡ "terminated"
unfolding assert_terminated
assert_terminated-ok state b h = ground (arith, eq_iff state "terminated")

judged : List Reservation → Result NoneType
judged reservations = do state ← instance_state reservations; assert_terminated state; ok tt

judged-ok :
    (reservations : List Reservation)
    → judged reservations ≡ ok tt
    → Alone "terminated" reservations
unfolding judged
judged-ok reservations h = elim (Result-cases (instance_state reservations)) [
  | inr (e, h1) ↦ ground (arith, h1)
  | inl (state, h1) ↦ elim (Result-cases (assert_terminated state)) [
    | inr (e, h2) ↦ ground (arith, h1, h2)
    | inl (b, h2) ↦
        instance_state-ok reservations "terminated" (h1 ∙ ap ok (assert_terminated-ok state b h2))
  ]
]

module _ (S : Services) (ident : String) where
  abbrev attempt_at : ℕ → S.World → S.World
  attempt_at k w = world_at S (is_terminated S ident) (some 10) k w

  -- In one of the fifty attempts from a state of the world on, EC2 answered that the instance is alone
  -- and terminated.
  pub record Seen (w : S.World) : Type 0 where
    pub attempts : ℕ
    pub in_bounds : attempts ≤ 49
    pub reservations : List Reservation
    pub answered : (S.describe_instance ident (attempt_at attempts w)).0 ≡ ok reservations
    pub alone : Alone "terminated" reservations

  result-is_terminated :
      (w : S.World) (reservations : List Reservation)
      → (S.describe_instance ident w).0 ≡ ok reservations
      → (is_terminated S ident w).result ≡ judged reservations
  unfolding is_terminated get_instance_state judged
  result-is_terminated w reservations h = elim (Result-cases (instance_state reservations)) [
    | inr (e, h1) ↦ rw (h, h1) refl
    | inl (state, h1) ↦ elim (Result-cases (assert_terminated state)) [
      | inr (e, h2) ↦ rw (h, h1, h2) refl
      | inl (b, h2) ↦ rw (h, h1, h2) refl
    ]
  ]

  is_terminated-err :
      (w : S.World) (e : Exception)
      → (S.describe_instance ident w).0 ≡ err e
      → (is_terminated S ident w).result ≡ err e
  unfolding is_terminated get_instance_state
  is_terminated-err w e h = rw h refl

  is_terminated-Seen :
      (w : S.World) (k : ℕ)
      → k ≤ 49
      → (is_terminated S ident (attempt_at k w)).result ≡ ok tt
      → Seen w
  is_terminated-Seen w k b h = elim (Result-cases (S.describe_instance ident (attempt_at k w)).0) [
    | inr (e, h1) ↦ absurd (ground (arith, h, is_terminated-err (attempt_at k w) e h1))
    | inl (rs, h1) ↦ record {
      attempts = k;
      in_bounds = b;
      reservations = rs;
      answered = h1;
      alone = judged-ok rs (sym (result-is_terminated (attempt_at k w) rs h1) ∙ h);
    }
  ]

  terminate_and_wait-err :
      (w : S.World) (e : Exception)
      → (S.terminate ident w).0 ≡ err e
      → (terminate_and_wait S ident w).result ≡ err e
  unfolding terminate_and_wait
  terminate_and_wait-err w e h = rw h refl

  terminate_and_wait-poll :
      (w : S.World)
      → (S.terminate ident w).0 ≡ ok tt
      → (terminate_and_wait S ident w).result
        ≡ (poll S (is_terminated S ident) 50 (some 10) (S.terminate ident w).1).result
  unfolding terminate_and_wait
  terminate_and_wait-poll w h = rw h refl

  terminate_and_wait-Seen :
      (w : S.World)
      → (terminate_and_wait S ident w).result ≡ ok tt
      → ((S.terminate ident w).0 ≡ ok tt) × Seen (S.terminate ident w).1
  terminate_and_wait-Seen w h = elim (Result-cases (S.terminate ident w).0) [
    | inr (e, h1) ↦ absurd (ground (arith, h, terminate_and_wait-err w e h1))
    | inl (_, h1) ↦
        let w' = (S.terminate ident w).1 in
        let (k, a) = poll-IsAttempt S (is_terminated S ident) (some 10) 50 w' in
        (
          h1,
          is_terminated-Seen w' k a.in_bounds
              (sym a.returned ∙ sym (terminate_and_wait-poll w h1) ∙ h),
        )
  ]

one_resource-ok :
    (found : Result (List String)) (ident : String)
    → one_resource found ≡ ok ident
    → found ≡ ok (ident ∷ [])
unfolding one_resource
one_resource-ok (ok []) ident h = ground arith
one_resource-ok (ok (i ∷ [])) ident h = ground arith
one_resource-ok (ok (i ∷ j ∷ rest)) ident h = ground arith
one_resource-ok (err (client_error message)) ident h = ground arith
one_resource-ok (err e) ident h = ground arith

module _ (S : Services) (i : Instance) (w : S.World) where
  abbrev listed : Result (List String) × S.World
  listed = S.list_instances i.instance_id w

  recycle_instance-err :
      (e : Exception) → one_resource listed.0 ≡ err e → (recycle_instance S i w).result ≡ err e
  unfolding recycle_instance
  recycle_instance-err e h = rw h refl

  recycle_instance-ok :
      (ident : String)
      → one_resource listed.0 ≡ ok ident
      → (recycle_instance S i w).result ≡ (terminate_and_wait S ident listed.1).result
  unfolding recycle_instance
  recycle_instance-ok ident h = rw h refl

  -- If the recycling of an instance returns, then one instance only was listed for it, EC2 accepted
  -- its termination, and in one of the fifty attempts that follow EC2 described one instance, which
  -- is terminated.
  pub recycle_instance-Seen :
      (recycle_instance S i w).result ≡ ok tt
      → (ident : String) × (listed.0 ≡ ok (ident ∷ []))
        × ((S.terminate ident listed.1).0 ≡ ok tt)
        × Seen S ident (S.terminate ident listed.1).1
  recycle_instance-Seen h = elim (Result-cases (one_resource listed.0)) [
    | inr (e, h1) ↦ absurd (ground (arith, h, recycle_instance-err e h1))
    | inl (ident, h1) ↦
        let (accepted, seen) =
          terminate_and_wait-Seen S ident listed.1 (sym (recycle_instance-ok ident h1) ∙ h) in
        (ident, one_resource-ok listed.0 ident h1, accepted, seen)
  ]
