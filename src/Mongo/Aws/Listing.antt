-- ===== src/Mongo/Aws/Listing.antt =====
-- Which nodes of a cluster are listed, and when the listing fails.
use aws_autorecycle.Base.{
  String, ◌<>◌, ◌≡◌, refl, inl, inr, not, List, [], ◌∷◌, ◌++◌, map, Option, none, some, ◌==◌,
  select, Option-cases, Bool-cases, arith, if◌then◌else◌,
}
use aws_autorecycle.Exceptions.{
  Exception, Result, ok, err, collect, no_eni_found, index_error, first, ◌>>=◌,
}
use aws_autorecycle.Mongo.Services.{NetworkInterface, Ec2Instance, Reservation}
use aws_autorecycle.Mongo.Aws.{
  MongoInstance, no_eni, details, yield_running, describe_ip_address_from_instance,
  describe_mongodb_instances,
}

-- The address of the first interface that outlives the instance.
abbrev pub kept_address : List NetworkInterface → Option String
kept_address [] = none
kept_address (n ∷ rest) =
    if n.delete_on_termination then kept_address rest else some n.private_ip_address

-- The running instances of all reservations, in order.
abbrev pub running : List Ec2Instance → List Ec2Instance
running [] = []
running (i ∷ rest) = if i.state_name == "running" then i ∷ running rest else running rest

abbrev pub all_running : List Reservation → List Ec2Instance
all_running [] = []
all_running (r ∷ rest) = running r.instances ++ all_running rest

-- What the listing of these instances gives: all of them, or the failure of the first that has no
-- address to keep.
pub data Listed : List Ec2Instance → Result (List MongoInstance) → Type 0 where
  no_more : Listed [] (ok [])
  lost :
      {i : Ec2Instance} {rest : List Ec2Instance}
      → kept_address i.network_interfaces ≡ none
      → Listed (i ∷ rest) (err (no_eni_found ("No ENI found for instance : " <> i.instance_id)))
  one_more :
      {i : Ec2Instance} {rest : List Ec2Instance} {address : String} {nodes : List MongoInstance}
      → kept_address i.network_interfaces ≡ some address
      → Listed rest (ok nodes)
      → Listed (i ∷ rest) (
          ok (
            record { instance_id = i.instance_id; image_id = i.image_id; ip_address = address }
            ∷ nodes))
  lost_later :
      {i : Ec2Instance} {rest : List Ec2Instance} {address : String} {e : Exception}
      → kept_address i.network_interfaces ≡ some address
      → Listed rest (err e)
      → Listed (i ∷ rest) (err e)

or_index_error : Option String → Result String
or_index_error none = err index_error
or_index_error (some address) = ok address

first_kept :
    (ifaces : List NetworkInterface)
    → first (
        map
          (λ (n : NetworkInterface). n.private_ip_address)
          (select (λ n. not n.delete_on_termination) ifaces))
      ≡ or_index_error (kept_address ifaces)
unfolding or_index_error
first_kept [] = refl
first_kept (n ∷ rest) = ground (arith, first_kept rest)

described :
    (i : Ec2Instance) (found : Option String)
    → kept_address i.network_interfaces ≡ found
    → describe_ip_address_from_instance i ≡ no_eni i (or_index_error found)
unfolding describe_ip_address_from_instance
described i found h =
    rw (describe_ip_address_from_instance, first_kept i.network_interfaces, h) refl

abbrev node : Ec2Instance → String → MongoInstance
node i address = record { instance_id = i.instance_id; image_id = i.image_id; ip_address = address }

cons-Listed :
    (i : Ec2Instance) (rest : List Ec2Instance) (address : String) (r : Result (List MongoInstance))
    → kept_address i.network_interfaces ≡ some address
    → Listed rest r
    → Listed (i ∷ rest) (r >>= λ nodes. ok (node i address ∷ nodes))
cons-Listed i rest address (ok nodes) h l = one_more h l
cons-Listed i rest address (err e) h l = lost_later h l

-- One running instance in front of what is listed already.
collect-Listed :
    (i : Ec2Instance) (rest : List Ec2Instance) (more : List (Result MongoInstance))
    → Listed rest (collect more)
    → Listed (i ∷ rest) (collect (details i (describe_ip_address_from_instance i) ∷ more))
unfolding details no_eni or_index_error
collect-Listed i rest more l = elim (Option-cases (kept_address i.network_interfaces)) [
  | inl e ↦ rw (described i none e) (lost e)
  | inr (address, e) ↦
      rw (described i (some address) e) (cons-Listed i rest address (collect more) e l)
]

yield_running-Listed :
    (instances later : List Ec2Instance) (more : List (Result MongoInstance))
    → Listed later (collect more)
    → Listed (running instances ++ later) (collect (yield_running instances ++ more))
unfolding yield_running
yield_running-Listed [] later more l = l
yield_running-Listed (i ∷ rest) later more l =
    let ih = yield_running-Listed rest later more l in
    elim (Bool-cases (i.state_name == "running")) [
      | inl e ↦ rw (running, yield_running, e) (collect-Listed i _ (yield_running rest ++ more) ih)
      | inr e ↦ rw (running, yield_running, e) ih
    ]

-- The listing gives every running instance of all reservations, in order, each with the address of
-- its first interface that outlives it; if one has no such interface, it fails with NoENIFound for
-- the first of these.
pub describe_mongodb_instances-Listed :
    (reservations : List Reservation)
    → Listed (all_running reservations) (collect (describe_mongodb_instances reservations))
unfolding describe_mongodb_instances
describe_mongodb_instances-Listed [] = no_more
describe_mongodb_instances-Listed (r ∷ rest) =
    yield_running-Listed r.instances (all_running rest) (describe_mongodb_instances rest)
      (describe_mongodb_instances-Listed rest)
