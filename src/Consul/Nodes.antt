-- ===== src/Consul/Nodes.antt =====
-- src/get_consul_nodes/main.py: the nodes of the cluster, the leader last.
pub mod Order
pub mod Owned
pub mod Found
use aws_autorecycle.Base.{
  String, ◌<>◌, Bool, true, false, not, ◌||◌, Option, none, some, List, [], ◌∷◌, map, ◌==◌, has,
  if◌then◌else◌,
}
use aws_autorecycle.Base.Dict.{Dict, lookup, insert}
use aws_autorecycle.Exceptions.{Exception, Result, ok, err, exception}
use aws_autorecycle.Effect.{lift, pure, attempt, ◌>>=◌}
use aws_autorecycle.Json.{Json, Fields}
use aws_autorecycle.Consul.Services.{
  Services, SslContext, Run, Member, Ec2Instance, leader, members, describe_instances,
}
use aws_autorecycle.Consul.Certificate.{get_consul_host, get_ssl_context}
use aws_autorecycle.Consul.Leader.{leader_text, before_colon}

-- `m["Addr"] == leader`, the key of the sort
abbrev pub is_leader : String → Member → Bool
is_leader leader m = m.addr == leader

-- Puts a member in front of the first one whose key is not smaller: the sort is stable.
insert_member : String → Member → List Member → List Member
insert_member leader m [] = m ∷ []
insert_member leader m (n ∷ members) =
    if not (is_leader leader m) || is_leader leader n
    then m ∷ n ∷ members
    else n ∷ insert_member leader m members

-- `sorted(members, key=lambda m: m["Addr"] == leader)`
unfoldable pub sorted_members : String → List Member → List Member
unfolding insert_member
sorted_members leader [] = []
sorted_members leader (m ∷ members) = insert_member leader m (sorted_members leader members)

abbrev pub addresses : List Member → List String
addresses [] = []
addresses (m ∷ members) = m.addr ∷ addresses members

-- The loop over the interfaces of an instance.
unfoldable pub map_interfaces :
    List String → String → List (Option String) → Dict String → Dict String
map_interfaces ips ident [] instance_map = instance_map
map_interfaces ips ident (none ∷ ifaces) instance_map = map_interfaces ips ident ifaces instance_map
map_interfaces ips ident (some ip ∷ ifaces) instance_map =
    let found = insert ip ident instance_map in
    map_interfaces ips ident ifaces (if has (λ i. i == ip) ips then found else instance_map)

-- The loops over the reservations and their instances.
unfoldable pub map_instances : List String → List Ec2Instance → Dict String → Dict String
map_instances ips [] instance_map = instance_map
map_instances ips (i ∷ instances) instance_map =
    map_instances ips instances (map_interfaces ips i.instance_id i.addresses instance_map)

pub record Node : Type 0 where
  pub ip : String
  pub instance_id : String

-- The comprehension of "instanceList".
unfoldable pub instance_list : Dict String → List String → List Node
instance_list instance_map [] = []
instance_list instance_map (ip ∷ ips) = elim (lookup ip instance_map) [
  | none ↦ instance_list instance_map ips
  | some ident ↦ record { ip = ip; instance_id = ident } ∷ instance_list instance_map ips
]

abbrev pub relabel {ℓ} : {A : Type ℓ} → (Exception → String) → Result A → Result A
relabel show_error (ok a) = ok a
relabel show_error (err e) = err (exception ("Get Consul Nodes Failed: " <> show_error e))

module _ (S : Services) where
  -- `if ip_list:` and its body
  unfoldable pub get_instance_map : List String → Run S (Dict String)
  get_instance_map [] = pure []
  get_instance_map (ip ∷ ips) = do
    instances ← describe_instances S (ip ∷ ips)
    pure (map_instances (ip ∷ ips) instances [])

  -- The body of the `try`.
  unfoldable pub list_nodes : String → SslContext → Run S (List Node)
  list_nodes host context = do
    body ← leader S host context
    found ← members S host context
    let ips = addresses (sorted_members (before_colon (leader_text body)) found)
    instance_map ← get_instance_map ips
    pure (instance_list instance_map ips)

  -- `show_error` is Python's text of an exception, `arn` and `environment` are variables of the
  -- environment.
  unfoldable pub lambda_handler :
      (Json → String)
      → (Exception → String)
      → Option String
      → Option String
      → Fields
      → Run S (List Node)
  lambda_handler show show_error environment arn event = do
    context ← get_ssl_context S arn
    r ← attempt (list_nodes (get_consul_host show environment event) context)
    lift (relabel show_error r)
