-- ===== src/Mongo/Aws.antt =====
-- src/mongo_recycler/connectors/aws.py
pub mod Listing
pub mod Recycled
use aws_autorecycle.Base.{
  String, ◌<>◌, Bool, true, not, List, [], ◌∷◌, ◌++◌, map, some, ◌==◌, select, sub_az, show_ℕ,
  if◌then◌else◌,
}
use aws_autorecycle.Exceptions.{
  Result, ok, err, NoneType, first, required, assertion_error, index_error, client_error,
  no_eni_found, no_instances_found, too_many_instances_found, too_many_reservations_found,
}
use aws_autorecycle.Effect.{lift, pure, attempt, ◌>>=◌, ◌>>◌}
use aws_autorecycle.Mongo.Models.{Instance}
use aws_autorecycle.Mongo.Services.{
  Services, Run, NetworkInterface, Ec2Instance, Reservation, LaunchTemplate, LaunchTemplateVersion,
  describe_launch_templates, describe_launch_template_versions, describe_instances,
  describe_instance, list_instances, terminate,
}
use aws_autorecycle.Mongo.Poll.{poll}

-- The value of the filter on `tag:Name`.
unfoldable pub create_instance_name_filters : String → List String
unfolding sub_az
create_instance_name_filters component =
    map (λ az. sub_az component <> az) ("_a" ∷ "_b" ∷ "_c" ∷ [])

-- A dictionary that `describe_mongodb_instances` yields.
pub record MongoInstance : Type 0 where
  pub instance_id : String
  pub image_id : String
  pub ip_address : String

-- `raise NoENIFound` for the `IndexError` of `[…][0]`
no_eni : Ec2Instance → Result String → Result String
no_eni i (ok address) = ok address
no_eni i (err index_error) = err (no_eni_found ("No ENI found for instance : " <> i.instance_id))
no_eni i (err e) = err e

unfoldable pub describe_ip_address_from_instance : Ec2Instance → Result String
unfolding no_eni
describe_ip_address_from_instance i = no_eni i (
    first (
      map (λ (n : NetworkInterface). n.private_ip_address)
        (select (λ n. not n.delete_on_termination) i.network_interfaces)))

details : Ec2Instance → Result String → Result MongoInstance
details i (ok address) =
    ok (record { instance_id = i.instance_id; image_id = i.image_id; ip_address = address })
details i (err e) = err e

yield_running : List Ec2Instance → List (Result MongoInstance)
yield_running [] = []
yield_running (i ∷ rest) =
    if i.state_name == "running"
    then details i (describe_ip_address_from_instance i) ∷ yield_running rest
    else yield_running rest

-- A generator is the list of what it yields. An exception ends it: what stands behind an `err` in
-- the list is never asked for.
unfoldable pub describe_mongodb_instances : List Reservation → List (Result MongoInstance)
unfolding yield_running details
describe_mongodb_instances [] = []
describe_mongodb_instances (r ∷ rest) = yield_running r.instances ++ describe_mongodb_instances rest

only_instance : List Ec2Instance → Result String
only_instance [] = err no_instances_found
only_instance (i ∷ []) = ok i.state_name
only_instance (i ∷ j ∷ rest) = err too_many_instances_found

unfoldable pub instance_state : List Reservation → Result String
unfolding only_instance
instance_state [] = err no_instances_found
instance_state (r ∷ []) = only_instance r.instances
instance_state (r ∷ q ∷ rest) = err too_many_reservations_found

unfoldable pub assert_terminated : String → Result Bool
assert_terminated state =
    if state == "terminated"
    then ok true
    else err (assertion_error ("instance is in state " <> state))

-- The identifiers of the resource objects: `except ClientError: raise NoInstancesFound`, the test
-- on their number, and `instances[0]`.
unfoldable pub one_resource : Result (List String) → Result String
one_resource (ok []) = err index_error
one_resource (ok (i ∷ [])) = ok i
one_resource (ok (i ∷ j ∷ rest)) = err too_many_instances_found
one_resource (err (client_error message)) = err no_instances_found
one_resource (err e) = err e

-- The methods of `AWS`. The component is the one that the object was made for.
module _ (S : Services) where
  unfoldable pub latest_version : LaunchTemplate → Run S LaunchTemplateVersion
  latest_version t = do
    versions ←
        describe_launch_template_versions S t.launch_template_id (show_ℕ t.latest_version_number)
    lift (first versions)

  unfoldable pub latest_versions : List LaunchTemplate → Run S (List LaunchTemplateVersion)
  latest_versions [] = pure []
  latest_versions (t ∷ rest) = do v ← latest_version t; vs ← latest_versions rest; pure (v ∷ vs)

  unfoldable pub image_ids : List LaunchTemplateVersion → Result (List String)
  image_ids [] = ok []
  image_ids (v ∷ rest) = elim (required "ImageId" v.image_id) [
    | err e ↦ err e
    | ok i ↦ elim (image_ids rest) [ err e ↦ err e | ok is ↦ ok (i ∷ is) ]
  ]

  unfoldable pub get_launch_template_image_ids : String → Run S (List String)
  get_launch_template_image_ids component = do
    templates ← describe_launch_templates S (component <> "*")
    versions ← latest_versions templates
    lift (image_ids versions)

  unfoldable pub get_instance_state : String → Run S String
  get_instance_state instance_id = do
    reservations ← describe_instance S instance_id
    lift (instance_state reservations)

  unfoldable pub get_mongo_db_instances : String → Run S (List (Result MongoInstance))
  get_mongo_db_instances component = do
    reservations ← describe_instances S (create_instance_name_filters component)
    pure (describe_mongodb_instances reservations)

  unfoldable pub is_terminated : String → Run S NoneType
  is_terminated instance_id = do
    state ← get_instance_state instance_id
    done ← lift (assert_terminated state)
    pure tt

  -- What follows the choice of the resource object.
  unfoldable pub terminate_and_wait : String → Run S NoneType
  terminate_and_wait ident = do terminate S ident; poll S (is_terminated ident) 50 (some 10)

  unfoldable pub recycle_instance : Instance → Run S NoneType
  recycle_instance i = do
    found ← attempt (list_instances S i.instance_id)
    ident ← lift (one_resource found)
    terminate_and_wait ident
