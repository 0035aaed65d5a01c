-- ===== src/Consul/Nodes/Found.antt =====
-- What a list of nodes that was returned says of the cluster.
use mathlib.Core.Path.{subst}
use aws_autorecycle.Base.{String, ◌≡◌, refl, sym, ◌∙◌, ◌⊎◌, inl, inr, Option, List, [], ◌∷◌, arith}
use aws_autorecycle.Base.Dict.{Dict}
use aws_autorecycle.Exceptions.{Exception, Result, ok, err, Result-cases}
use aws_autorecycle.Json.{Json, Fields}
use aws_autorecycle.Consul.Services.{Services, SslContext, Process, Member, Ec2Instance}
use aws_autorecycle.Consul.Leader.{leader_text, before_colon}
use aws_autorecycle.Consul.Certificate.{get_consul_host, get_ssl_context}
use aws_autorecycle.Consul.Nodes.{
  Node, sorted_members, addresses, map_instances, instance_list, get_instance_map, list_nodes,
  relabel, lambda_handler,
}
use aws_autorecycle.Consul.Nodes.Owned.{
  Sound, Sound-empty, map_instances-Sound, Lists, instance_list-Lists,
}

module _ (S : Services) where
  -- EC2 described the instances, or was not asked for any.
  abbrev Described : List Ec2Instance → Type 0
  Described instances =
      (instances ≡ [])
      ⊎ ((ips : List String) × (w : S.World) × ((S.describe_instances ips w).0 ≡ ok instances))

  -- Consul named a leader, and the nodes are instances by their addresses, those with the leader's
  -- address last.
  pub record Found (host : String) (nodes : List Node) : Type 0 where
    pub context : SslContext
    pub world : S.World
    pub body : String
    pub named : (S.leader host context world).0 ≡ ok body
    pub instances : List Ec2Instance
    pub described : Described instances
    pub lists : Lists (before_colon (leader_text body)) instances nodes

  failed : {A : Type 0} {r : Result A} {a : A} (e : Exception) → r ≡ ok a → r ≡ err e → ⊥
  failed e h h' = ground (arith, sym h ∙ h')

  get_instance_map-ok :
      (ips : List String) (p : Process S.World) (d : Dict String)
      → (get_instance_map S ips p).result ≡ ok d
      → (instances : List Ec2Instance) × Described instances × Sound instances d
  unfolding get_instance_map
  get_instance_map-ok [] p d h =
      let none_found : [] ≡ d = ground (arith, h) in
      ([], inl refl, subst (λ d. Sound [] d) none_found (Sound-empty []))
  get_instance_map-ok (ip ∷ ips) p d h =
      elim (Result-cases (S.describe_instances (ip ∷ ips) p.world).0) [
        | inr (e, h') ↦ absurd (failed e h (rw h' refl))
        | inl (instances, h') ↦
            let made : (get_instance_map S (ip ∷ ips) p).result
                ≡ ok (map_instances (ip ∷ ips) instances []) =
              rw h' refl in
            let same : map_instances (ip ∷ ips) instances [] ≡ d = ground (arith, sym made ∙ h) in
            (
              instances,
              inr (ip ∷ ips, p.world, h'),
              subst (λ d. Sound instances d) same
                  (map_instances-Sound instances (ip ∷ ips) instances [] (λ ip ident o. o)
                    (Sound-empty instances)),
            )
      ]

  module _ (host : String) (context : SslContext) (p : Process S.World) (nodes : List Node) where
    -- After the answers of Consul.
    listed-Found :
        (body : String) (found : List Member) (w : S.World) (d : Dict String)
        → (S.leader host context p.world).0 ≡ ok body
        → (get_instance_map S
            (addresses (sorted_members (before_colon (leader_text body)) found))
            (record p { world = w })).result
          ≡ ok d
        → instance_list d (addresses (sorted_members (before_colon (leader_text body)) found))
          ≡ nodes
        → Found host nodes
    listed-Found body found w d named made same =
        let (instances, described, sound) = get_instance_map-ok _ (record p { world = w }) d made in
        let leader = before_colon (leader_text body) in
        record {
          context = context;
          world = p.world;
          body = body;
          named = named;
          instances = instances;
          described = described;
          lists =
              subst (λ nodes. Lists leader instances nodes) same
                (instance_list-Lists leader instances found d sound);
        }

    list_nodes-Found : (list_nodes S host context p).result ≡ ok nodes → Found host nodes
    unfolding list_nodes
    list_nodes-Found h = elim (Result-cases (S.leader host context p.world).0) [
      | inr (e, h1) ↦ absurd (failed e h (rw h1 refl))
      | inl (body, h1) ↦
          let w1 = (S.leader host context p.world).1 in
          elim (Result-cases (S.members host context w1).0) [
            | inr (e, h2) ↦ absurd (failed e h (rw (h1, h2) refl))
            | inl (found, h2) ↦
                let w2 = (S.members host context w1).1 in
                let ips = addresses (sorted_members (before_colon (leader_text body)) found) in
                elim (Result-cases (get_instance_map S ips (record p { world = w2 })).result) [
                  | inr (e, h3) ↦ absurd (failed e h (rw (h1, h2, h3) refl))
                  | inl (d, h3) ↦
                      let listed : (list_nodes S host context p).result ≡ ok (instance_list d ips) =
                        rw (h1, h2, h3) refl in
                      listed-Found body found w2 d h1 h3 (ground (arith, sym listed ∙ h))
                ]
          ]
    ]

  module _ (show : Json → String) (show_error : Exception → String)
      (environment arn : Option String) (event : Fields) (nodes : List Node) where
    relabel-ok : (r : Result (List Node)) → relabel show_error r ≡ ok nodes → r ≡ ok nodes
    relabel-ok (ok a) h = h
    relabel-ok (err e) h = ground arith

    -- A list that was returned is one of the cluster at the host of the event.
    pub lambda_handler-Found :
        (p : Process S.World)
        → (lambda_handler S show show_error environment arn event p).result ≡ ok nodes
        → Found (get_consul_host show environment event) nodes
    unfolding lambda_handler
    lambda_handler-Found p h = elim (Result-cases (get_ssl_context S arn p).result) [
      | inr (e, h1) ↦ absurd (failed e h (rw h1 refl))
      | inl (context, h1) ↦
          let p' = (get_ssl_context S arn p).world in
          let host = get_consul_host show environment event in
          let listed : (lambda_handler S show show_error environment arn event p).result
              ≡ relabel show_error (list_nodes S host context p').result =
            rw h1 refl in
          list_nodes-Found host context p' nodes (relabel-ok _ (sym listed ∙ h))
    ]
