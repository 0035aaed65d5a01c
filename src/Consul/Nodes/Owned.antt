-- ===== src/Consul/Nodes/Owned.antt =====
-- What the list of nodes holds: the instances by their addresses, the leader's last.
use mathlib.Core.Path.{subst}
use aws_autorecycle.Base.{
  String, ◌≡◌, refl, ◌⊎◌, inl, inr, true, false, Option, none, some, List, [], ◌∷◌, ◌++◌, All, has,
  ◌==◌, eq_iff, arith, Bool-cases, Option-cases,
}
use aws_autorecycle.Base.Dict.{Dict, lookup, insert, lookup-insert}
use aws_autorecycle.Exceptions.{ok}
use aws_autorecycle.Consul.Services.{Services, SslContext, Process, Member, Ec2Instance}
use aws_autorecycle.Consul.Leader.{leader_text, before_colon}
use aws_autorecycle.Consul.Nodes.{
  Node, sorted_members, addresses, map_interfaces, map_instances, instance_list, get_instance_map,
  list_nodes,
}
use aws_autorecycle.Consul.Nodes.Order.{
  followers, leaders, followers-All, leaders-All, instance_list-leader_last,
}

abbrev HasAddress : String → List (Option String) → Type 0
HasAddress ip [] = ⊥
HasAddress ip (a ∷ addresses) = (a ≡ some ip) ⊎ HasAddress ip addresses

-- An instance with the identifier has the address.
abbrev pub Owned : String → String → List Ec2Instance → Type 0
Owned ip ident [] = ⊥
Owned ip ident (i ∷ instances) =
    ((i.instance_id ≡ ident) × HasAddress ip i.addresses) ⊎ Owned ip ident instances

module _ (all : List Ec2Instance) where
  pub Sound : Dict String → Type 0
  Sound d = (ip ident : String) → lookup ip d ≡ some ident → Owned ip ident all

  pub Sound-empty : Sound []
  unfolding Sound lookup
  Sound-empty ip ident e = ground arith

  insert-Sound :
      (ip ident : String) (d : Dict String)
      → Owned ip ident all
      → Sound d
      → Sound (insert ip ident d)
  unfolding Sound
  insert-Sound ip ident d owned sound j id h = elim (Bool-cases (ip == j)) [
    | inl e ↦
        let same : ident ≡ id = ground (arith, lookup-insert j ip ident d, e, h) in
        subst (λ i. Owned j i all) same (subst (λ a. Owned a ident all) ((eq_iff ip j).0 e) owned)
    | inr e ↦ sound j id (ground (arith, lookup-insert j ip ident d, e, h))
  ]

  map_interfaces-Sound :
      (ips : List String) (ident : String) (ifaces : List (Option String)) (d : Dict String)
      → ((ip : String) → HasAddress ip ifaces → Owned ip ident all)
      → Sound d
      → Sound (map_interfaces ips ident ifaces d)
  unfolding map_interfaces
  map_interfaces-Sound ips ident [] d owns sound = sound
  map_interfaces-Sound ips ident (none ∷ ifaces) d owns sound =
      map_interfaces-Sound ips ident ifaces d (λ ip h. owns ip (inr h)) sound
  map_interfaces-Sound ips ident (some ip ∷ ifaces) d owns sound =
      elim (Bool-cases (has (λ i. i == ip) ips)) [
        | inl e ↦
            rw (map_interfaces, e)
              (map_interfaces-Sound ips ident ifaces (insert ip ident d) (λ j h. owns j (inr h))
                (insert-Sound ip ident d (owns ip (inl refl)) sound))
        | inr e ↦
            rw (map_interfaces, e)
              (map_interfaces-Sound ips ident ifaces d (λ j h. owns j (inr h)) sound)
      ]

  pub map_instances-Sound :
      (ips : List String) (instances : List Ec2Instance) (d : Dict String)
      → ((ip ident : String) → Owned ip ident instances → Owned ip ident all)
      → Sound d
      → Sound (map_instances ips instances d)
  unfolding map_instances
  map_instances-Sound ips [] d owns sound = sound
  map_instances-Sound ips (i ∷ instances) d owns sound =
      map_instances-Sound ips instances (map_interfaces ips i.instance_id i.addresses d)
        (λ ip ident h. owns ip ident (inr h))
        (map_interfaces-Sound ips i.instance_id i.addresses d
          (λ ip h. owns ip i.instance_id (inl (refl, h))) sound)

  instance_list-Owned :
      (d : Dict String) (ips : List String)
      → Sound d
      → All (λ (n : Node). Owned n.ip n.instance_id all) (instance_list d ips)
  unfolding instance_list Sound
  instance_list-Owned d [] sound = tt
  instance_list-Owned d (ip ∷ ips) sound = elim (Option-cases (lookup ip d)) [
    | inl e ↦ rw (instance_list, e) (instance_list-Owned d ips sound)
    | inr (ident, e) ↦ rw (instance_list, e) (sound ip ident e, instance_list-Owned d ips sound)
  ]

instance_list-All :
    (P : String → Type 0) (d : Dict String) (members : List Member)
    → All (λ (m : Member). P m.addr) members
    → All (λ (n : Node). P n.ip) (instance_list d (addresses members))
unfolding instance_list
instance_list-All P d [] h = tt
instance_list-All P d (m ∷ members) h = elim (Option-cases (lookup m.addr d)) [
  | inl e ↦ rw (instance_list, e) (instance_list-All P d members h.1)
  | inr (ident, e) ↦ rw (instance_list, e) (h.0, instance_list-All P d members h.1)
]

-- Each node is an instance with the node's address, and those with the leader's address are last.
pub record Lists (leader : String) (instances : List Ec2Instance) (nodes : List Node) : Type 0 where
  pub owned : All (λ (n : Node). Owned n.ip n.instance_id instances) nodes
  pub front : List Node
  pub back : List Node
  pub in_order : nodes ≡ front ++ back
  pub no_leader : All (λ (n : Node). (n.ip == leader) ≡ false) front
  pub all_leader : All (λ (n : Node). (n.ip == leader) ≡ true) back

pub instance_list-Lists :
    (leader : String) (instances : List Ec2Instance) (members : List Member) (d : Dict String)
    → Sound instances d
    → Lists leader instances (instance_list d (addresses (sorted_members leader members)))
instance_list-Lists leader instances members d sound = record {
  owned = instance_list-Owned instances d _ sound;
  front = instance_list d (addresses (followers leader members));
  back = instance_list d (addresses (leaders leader members));
  in_order = instance_list-leader_last leader d members;
  no_leader =
      instance_list-All (λ ip. (ip == leader) ≡ false) d (followers leader members)
        (followers-All leader members);
  all_leader =
      instance_list-All (λ ip. (ip == leader) ≡ true) d (leaders leader members)
        (leaders-All leader members);
}

module _ (S : Services) where
  get_instance_map-Sound :
      (ips : List String) (instances : List Ec2Instance) (p : Process S.World)
      → (S.describe_instances ips p.world).0 ≡ ok instances
      → (d : Dict String) × ((get_instance_map S ips p).result ≡ ok d) × Sound instances d
  unfolding get_instance_map
  get_instance_map-Sound [] instances p h = ([], refl, Sound-empty instances)
  get_instance_map-Sound (ip ∷ ips) instances p h = (
    map_instances (ip ∷ ips) instances [],
    rw h refl,
    map_instances-Sound instances (ip ∷ ips) instances [] (λ ip ident o. o) (Sound-empty instances),
  )

  module _ (host : String) (context : SslContext) (p : Process S.World) where
    -- The worlds after the answers of Consul.
    abbrev after_members : S.World
    after_members = (S.members host context (S.leader host context p.world).1).1

    -- If Consul names a leader and its members and EC2 describes the instances with their addresses,
    -- a list is returned, in which every node has the identifier of an instance with its address, and
    -- any with the leader's address come last.
    pub list_nodes-Lists :
        (body : String) (found : List Member) (instances : List Ec2Instance)
        → (S.leader host context p.world).0 ≡ ok body
        → (S.members host context (S.leader host context p.world).1).0 ≡ ok found
        → (S.describe_instances
            (addresses (sorted_members (before_colon (leader_text body)) found))
            after_members).0
          ≡ ok instances
        → (nodes : List Node) × ((list_nodes S host context p).result ≡ ok nodes)
          × Lists (before_colon (leader_text body)) instances nodes
    unfolding list_nodes
    list_nodes-Lists body found instances l m e =
        let leader = before_colon (leader_text body) in
        let ips = addresses (sorted_members leader found) in
        let (d, got, sound) =
          get_instance_map-Sound ips instances (record p { world = after_members }) e in
        (
          instance_list d ips,
          rw (l, m, got) refl,
          instance_list-Lists leader instances found d sound,
        )
