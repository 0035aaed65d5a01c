-- ===== src/Consul/Nodes/Order.antt =====
-- In which order the nodes are listed.
use aws_autorecycle.Base.{
  String, ◌≡◌, refl, ap, true, false, not, List, [], ◌∷◌, ◌++◌, All, select, Bool-cases,
  Option-cases, inl, inr,
}
use aws_autorecycle.Base.Dict.{Dict, lookup}
use aws_autorecycle.Consul.Services.{Member}
use aws_autorecycle.Consul.Nodes.{
  Node, is_leader, insert_member, sorted_members, addresses, instance_list,
}

abbrev node : String → String → Node
node ip ident = record { ip = ip; instance_id = ident }

module _ (leader : String) where
  abbrev pub followers : List Member → List Member
  followers members = select (λ m. not (is_leader leader m)) members

  abbrev pub leaders : List Member → List Member
  leaders members = select (λ m. is_leader leader m) members

  insert-follower :
      (m : Member) (members : List Member)
      → is_leader leader m ≡ false
      → insert_member leader m members ≡ m ∷ members
  unfolding insert_member
  insert-follower m [] h = refl
  insert-follower m (n ∷ members) h = rw h refl

  -- A leader goes behind those that are none, and in front of the first other leader.
  insert-leader_last :
      (m : Member) (members : List Member)
      → is_leader leader m ≡ true
      → All (λ n. is_leader leader n ≡ true) members
      → insert_member leader m members ≡ m ∷ members
  unfolding insert_member
  insert-leader_last m [] h all = refl
  insert-leader_last m (n ∷ members) h all = rw (h, all.0) refl

  insert-leader :
      (m : Member) (front back : List Member)
      → is_leader leader m ≡ true
      → All (λ n. is_leader leader n ≡ false) front
      → All (λ n. is_leader leader n ≡ true) back
      → insert_member leader m (front ++ back) ≡ front ++ (m ∷ back)
  unfolding insert_member
  insert-leader m [] back h f b = insert-leader_last m back h b
  insert-leader m (n ∷ front) back h f b =
      rw (h, f.0) (ap (λ ns. n ∷ ns) (insert-leader m front back h f.1 b))

  pub followers-All :
      (members : List Member) → All (λ n. is_leader leader n ≡ false) (followers members)
  followers-All [] = tt
  followers-All (m ∷ members) = elim (Bool-cases (is_leader leader m)) [
    | inl e ↦ rw (followers, e) (followers-All members)
    | inr e ↦ rw (followers, e) (e, followers-All members)
  ]

  pub leaders-All : (members : List Member) → All (λ n. is_leader leader n ≡ true) (leaders members)
  leaders-All [] = tt
  leaders-All (m ∷ members) = elim (Bool-cases (is_leader leader m)) [
    | inl e ↦ rw (leaders, e) (e, leaders-All members)
    | inr e ↦ rw (leaders, e) (leaders-All members)
  ]

  sorted_members-parts :
      (members : List Member) → sorted_members leader members ≡ followers members ++ leaders members
  unfolding sorted_members
  sorted_members-parts [] = refl
  sorted_members-parts (m ∷ members) = elim (Bool-cases (is_leader leader m)) [
    | inl e ↦
        rw (sorted_members-parts members, followers, leaders, e)
          (insert-leader m (followers members) (leaders members) e (followers-All members)
            (leaders-All members))
    | inr e ↦
        rw (sorted_members-parts members, followers, leaders, e)
          (insert-follower m (followers members ++ leaders members) e)
  ]

  -- The nodes that are not the leader come first, in the order of the members, and the leader last;
  -- each is listed if its instance is known, whatever the instances are.
  pub instance_list-leader_last :
      (instance_map : Dict String) (members : List Member)
      → instance_list instance_map (addresses (sorted_members leader members))
        ≡ instance_list instance_map (addresses (followers members))
          ++ instance_list instance_map (addresses (leaders members))
  unfolding instance_list
  instance_list-leader_last instance_map members =
      rw (sorted_members-parts members) (listed (followers members) (leaders members))
    where
      listed :
          (xs ys : List Member)
          → instance_list instance_map (addresses (xs ++ ys))
            ≡ instance_list instance_map (addresses xs) ++ instance_list instance_map (addresses ys)
      listed [] ys = refl
      listed (x ∷ xs) ys = elim (Option-cases (lookup x.addr instance_map)) [
        | inl e ↦ rw (instance_list, e) (listed xs ys)
        | inr (ident, e) ↦
            rw (instance_list, e) (ap (λ nodes. node x.addr ident ∷ nodes) (listed xs ys))
      ]
