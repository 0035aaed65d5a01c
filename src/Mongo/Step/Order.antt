-- ===== src/Mongo/Step/Order.antt =====
-- A whole step keeps to the protocol.
use aws_autorecycle.Base.{String, ◌≡◌, refl, ◌∙◌, some, List, [], ◌∷◌}
use aws_autorecycle.Exceptions.{Result, ok, err, NoneType, first}
use aws_autorecycle.Effect.{lift, pure, ◌>>=◌, ◌>>◌}
use aws_autorecycle.Effect.Follows.{
  Follows-pure, Follows-lift, Follows-bind, Follows-ask, Follows-weaken, accept,
}
use aws_autorecycle.Mongo.Models.{Decision}
use aws_autorecycle.Mongo.Services.{
  Services, Run, LaunchTemplate, described_launch_templates, describe_launch_templates,
  described_launch_template_versions, describe_launch_template_versions, get_status,
  ReplicaSetStatus,
}
use aws_autorecycle.Mongo.Aws.{
  MongoInstance, image_ids, latest_version, latest_versions, get_launch_template_image_ids,
}
use aws_autorecycle.Mongo.Database.{get_node_details, node_details}
use aws_autorecycle.Mongo.PreStepChecks.{
  assert_amis_match_and_get_ami, assert_all_nodes_in_same_replica_set,
  get_ami_and_check_all_amis_match, fetch_each, fetch_replica_set_status,
}
use aws_autorecycle.Mongo.Decision.{decide_on_action}
use aws_autorecycle.Mongo.Health.{assert_replica_set_healthy}
use aws_autorecycle.Mongo.Execute.{execute_action}
use aws_autorecycle.Mongo.Execute.Order.{execute_action-Completes}
use aws_autorecycle.Mongo.Step.{step}
use aws_autorecycle.Mongo.Protocol.{
  Phase, unknown, on_healthy, on_status, allowed, Completes, Returning,
}
use aws_autorecycle.Mongo.Protocol.Polling.{Keeps}
use aws_autorecycle.Mongo.Protocol.Connectors.{
  Stays, Keeps-reads, connect-Stays, get_status-Read, get_mongo_db_instances-Stays,
}
use aws_autorecycle.Mongo.Protocol.Recycling.{ListsRequested}

-- The reads before the decision are made while nothing was changed.
module _ (S : Services) where
  abbrev Reads : {A : Type 0} → Run S A → Type 0
  Reads m = Keeps S unknown (Stays unknown) m

  then-Reads :
      {A B : Type 0} (m : Run S A) (f : A → Run S B)
      → Reads m
      → ((a : A) → Reads (f a))
      → Reads (m >>= f)
  then-Reads m f h g = Keeps-reads S m f h g (λ e. refl)

  lift-Reads : {A : Type 0} (r : Result A) → Reads (lift r)
  lift-Reads r = Follows-lift r refl

  templates-Reads : (pattern : String) → Reads (describe_launch_templates S pattern)
  templates-Reads pattern =
      Follows-ask (λ _. described_launch_templates pattern) _ (λ r. (unknown, refl, refl))

  versions-Reads :
      (ident version : String) → Reads (describe_launch_template_versions S ident version)
  versions-Reads ident version =
      Follows-ask (λ _. described_launch_template_versions ident version) _
        (λ r. (unknown, refl, refl))

  latest_versions-Reads : (ts : List LaunchTemplate) → Reads (latest_versions S ts)
  unfolding latest_versions latest_version
  latest_versions-Reads [] = Follows-pure [] refl
  latest_versions-Reads (t ∷ ts) =
      then-Reads _ _ (then-Reads _ _ (versions-Reads _ _) (λ versions. lift-Reads (first versions)))
        (λ v. then-Reads _ _ (latest_versions-Reads ts) (λ vs. Follows-pure _ refl))

  ami-Reads : (component : String) → Reads (get_ami_and_check_all_amis_match S component)
  unfolding get_ami_and_check_all_amis_match get_launch_template_image_ids
  ami-Reads component =
      then-Reads _ _
        (then-Reads _ _ (templates-Reads _)
          (λ ts. then-Reads _ _ (latest_versions-Reads ts) (λ vs. lift-Reads (image_ids S vs))))
        (λ ids. lift-Reads (assert_amis_match_and_get_ami component ids))

  on_status-unknown : (r : Result ReplicaSetStatus) → on_status unknown r ≡ unknown
  on_status-unknown (err e) = refl
  on_status-unknown (ok status) = go (assert_replica_set_healthy status)
    where
      go :
          (r : Result NoneType) → (elim r [ ok _ ↦ on_healthy unknown | err _ ↦ unknown ]) ≡ unknown
      go (ok a) = refl
      go (err e) = refl

  status-Reads : (host : String) → Reads (get_status S host)
  status-Reads host =
      Follows-weaken (get_status-Read S host unknown) (λ r q e. e ∙ on_status-unknown r)

  node_details-Reads : (address : String) → Reads (get_node_details S address)
  unfolding get_node_details
  node_details-Reads address =
      then-Reads _ _ (connect-Stays S address unknown)
        (λ _. then-Reads _ _ (status-Reads address) (λ status. lift-Reads (node_details status)))

  fetch_each-Reads : (items : List (Result MongoInstance)) → Reads (fetch_each S items)
  unfolding fetch_each
  fetch_each-Reads [] = Follows-pure [] refl
  fetch_each-Reads (item ∷ items) = then-Reads _ _ (lift-Reads item) (λ i.
      then-Reads _ _ (node_details-Reads i.ip_address)
        (λ node. then-Reads _ _ (fetch_each-Reads items) (λ rest. Follows-pure _ refl)))

  fetch-Reads : (component : String) → Reads (fetch_replica_set_status S component)
  unfolding fetch_replica_set_status
  fetch-Reads component =
      then-Reads _ _ (get_mongo_db_instances-Stays S component unknown) fetch_each-Reads

module _ (S : Services) (promise : ListsRequested S) where
  step-Keeps :
      (component : String) → Keeps S unknown (Returning (λ d q. Completes d q)) (step S component)
  unfolding step
  step-Keeps component =
      Keeps-reads S _ _ (ami-Reads S component)
        (λ ami.
          Keeps-reads S _ _ (fetch-Reads S component)
            (λ nodes.
              Keeps-reads S _ _ (lift-Reads S (assert_all_nodes_in_same_replica_set nodes))
                (λ _. acts (decide_on_action nodes ami)) (λ e. tt))
            (λ e. tt))
        (λ e. tt)
    where
      acts :
          (d : Decision)
          → Keeps S unknown
              (Returning (λ d q. Completes d q))
              (execute_action S component d >> pure d)
      acts d =
          Follows-bind (Returning (λ _ q. Completes d q)) _ _
            (execute_action-Completes S promise component d) (λ _ q h. Follows-pure d h)
            (λ e q h. tt)

  -- What a step calls, in order, is allowed by the protocol: a node is terminated once at most, with
  -- chaining off, and not between a step-down of its primary and the next healthy status. If the step
  -- returns a decision, its calls end where that decision ends: chaining on for `done`; for the other
  -- two a healthy status after the termination of the node that was chosen and of no other, behind a
  -- step-down of this node for a primary and behind none for a secondary.
  pub step_order :
      (component : String) (w : S.World)
      → (q : Phase) × (accept allowed unknown (step S component w).calls ≡ some q)
        × Returning Completes (step S component w).result q
  step_order component w = (step-Keeps component).at w
