-- ===== src/Mongo/Protocol/Recycling.antt =====
-- `AWS.recycle_instance` keeps to the protocol.
use aws_autorecycle.Base.{String, ◌≡◌, refl, some, List, [], ◌∷◌, All}
use aws_autorecycle.Exceptions.{Result, ok, err, client_error}
use aws_autorecycle.Effect.{lift, attempt, ◌>>=◌}
use aws_autorecycle.Effect.Follows.{
  Follows-pure, Follows-lift, Follows-bind, Follows-ask, Follows-ask_where, Follows-attempt,
  Follows-weaken,
}
use aws_autorecycle.Mongo.Models.{Instance}
use aws_autorecycle.Mongo.Services.{
  Services, listed_instances, list_instances, terminated, terminate,
}
use aws_autorecycle.Mongo.Poll.{poll}
use aws_autorecycle.Mongo.Aws.{
  instance_state, assert_terminated, one_resource, get_instance_state, is_terminated,
  terminate_and_wait, recycle_instance,
}
use aws_autorecycle.Mongo.Protocol.{Phase, on_terminate, Returning}
use aws_autorecycle.Mongo.Protocol.Polling.{Keeps, poll-Keeps}
use aws_autorecycle.Mongo.Protocol.Connectors.{
  Stays, Keeps-reads, describe_instance-Stays, Returning-all,
}

module _ (S : Services) where
  is_terminated-Stays : (ident : String) (p : Phase) → Keeps S p (Stays p) (is_terminated S ident)
  unfolding is_terminated get_instance_state
  is_terminated-Stays ident p =
      Keeps-reads S (get_instance_state S ident) _ state_stays
        (λ state.
          Keeps-reads S _ _ (Follows-lift (assert_terminated state) refl)
            (λ _. Follows-pure tt refl) (λ e. refl))
        (λ e. refl)
    where
      state_stays : Keeps S p (Stays p) (get_instance_state S ident)
      state_stays =
          Keeps-reads S _ _ (describe_instance-Stays S ident p)
            (λ rs. Follows-lift (instance_state rs) refl) (λ e. refl)

-- The documented effect of the filter `InstanceIds=[id]`: an answer lists no other instance.
abbrev pub ListsOnly : String → Result (List String) → Type 0
ListsOnly ident (ok found) = All (λ x. x ≡ ident) found
ListsOnly ident (err e) = Unit

abbrev pub ListsRequested : Services → Type 0
ListsRequested S = (ident : String) (w : S.World) → ListsOnly ident (S.list_instances ident w).0

module _ (S : Services) (promise : ListsRequested S) where
  abbrev Found : String → Result String → Type 0
  Found ident (ok found) = found ≡ ident
  Found ident (err e) = Unit

  Found-one_resource :
      (ident : String) (r : Result (List String)) → ListsOnly ident r → Found ident (one_resource r)
  unfolding one_resource
  Found-one_resource ident (ok []) h = tt
  Found-one_resource ident (ok (x ∷ [])) h = h.0
  Found-one_resource ident (ok (x ∷ y ∷ xs)) h = tt
  Found-one_resource ident (err (client_error m)) h = tt
  Found-one_resource ident (err _) h = tt

  abbrev Listed : Phase → String → Result (Result (List String)) → Phase → Type 0
  Listed p ident (ok r) q = (q ≡ p) × ListsOnly ident r
  Listed p ident (err e) q = ⊥

  list_instances-Listed :
      (ident : String) (p : Phase) → Keeps S p (Listed p ident) (attempt (list_instances S ident))
  list_instances-Listed ident p = Follows-attempt (
      Follows-ask_where (ListsOnly ident) (λ _. listed_instances ident) _ (promise ident)
        (λ r h. (p, refl, (refl, h))))

  terminate_and_wait-Returning :
      (ident : String) (p after : Phase)
      → on_terminate p ident ≡ some after
      → Keeps S p (Returning (λ _ q. q ≡ after)) (terminate_and_wait S ident)
  unfolding terminate_and_wait
  terminate_and_wait-Returning ident p after allows =
      Follows-bind (Stays after) _ _ terminates (λ _ q e. rw e polls) (λ e q h. tt)
    where
      terminates : Keeps S p (Stays after) (terminate S ident)
      terminates = Follows-ask (λ _. terminated ident) _ (λ r. (after, allows, refl))

      polls :
          Keeps S after (Returning (λ _ q. q ≡ after)) (poll S (is_terminated S ident) 50 (some 10))
      polls =
          Follows-weaken
            (poll-Keeps S (Stays after) (is_terminated S ident)
              (λ e q h. rw h (is_terminated-Stays S ident after)) 50 (some 10) after
              (is_terminated-Stays S ident after))
            (λ r q e. Returning-all S (λ q. q ≡ after) r q e)

  -- Terminates the instance with the identifier that was asked for, and no other.
  pub recycle_instance-Returning :
      (i : Instance) (p after : Phase)
      → on_terminate p i.instance_id ≡ some after
      → Keeps S p (Returning (λ _ q. q ≡ after)) (recycle_instance S i)
  unfolding recycle_instance
  recycle_instance-Returning i p after allows =
      Follows-bind (Listed p i.instance_id) _
        (λ found. lift (one_resource found) >>= terminate_and_wait S)
        (list_instances-Listed i.instance_id p)
        (λ found q h.
          rw (h.0) (chosen (one_resource found) (Found-one_resource i.instance_id found h.1)))
        (λ e q h. absurd h)
    where
      chosen :
          (r : Result String)
          → Found i.instance_id r
          → Keeps S p (Returning (λ _ q. q ≡ after)) (lift r >>= terminate_and_wait S)
      chosen r h =
          Follows-bind (λ (r : Result String) q. (q ≡ p) × Found i.instance_id r) (lift r) _
            (Follows-lift r (refl, h))
            (λ ident q g. rw (g.0) (terminate_and_wait-Returning ident p after (rw (g.1) allows)))
            (λ e q g. tt)
