-- ===== src/Mongo/PreStepChecks/Agreement.antt =====
-- The checks before a step pass exactly when all the values that they compare are equal.
use aws_autorecycle.Base.{
  String, ◌≡◌, ◌≢◌, ◌↔◌, refl, not, eqb, List, [], ◌∷◌, map, arith, ◌==◌, eq_iff, All, has, length,
  if◌then◌else◌,
}
use aws_autorecycle.Exceptions.{Result, ok, err, NoneType, mongo_replica_set_mismatch}
use aws_autorecycle.Mongo.Models.{Instance}
use aws_autorecycle.Mongo.PreStepChecks.{
  set_of, pop_only, assert_amis_match_and_get_ami, assert_all_nodes_in_same_replica_set,
}

abbrev pub AllAre : String → List String → Type 0
AllAre y xs = All (λ x. x ≡ y) xs

set_of-cons-ne-nil : (x : String) (xs : List String) → set_of (x ∷ xs) ≢ []
unfolding set_of
set_of-cons-ne-nil x [] h = cc
set_of-cons-ne-nil x (y ∷ ys) h = ground (arith, set_of-cons-ne-nil y ys)

set_of-cons :
    (x : String) (xs : List String)
    → set_of (x ∷ xs) ≡ (if has (λ v. v == x) (set_of xs) then set_of xs else x ∷ set_of xs)
unfolding set_of
set_of-cons x xs = refl

-- Adding to a set that is not empty gives a singleton only if nothing was added.
singleton-of_add :
    (x y : String) (s : List String)
    → s ≢ []
    → (if has (λ v. v == x) s then s else x ∷ s) ≡ y ∷ []
    → (s ≡ y ∷ []) × (x ≡ y)
singleton-of_add x y [] nonempty h = absurd (nonempty refl)
singleton-of_add x y (v ∷ []) nonempty h = ground (arith, eq_iff v x)
singleton-of_add x y (v ∷ u ∷ s) nonempty h = ground arith

AllAre-of_singleton : (xs : List String) (y : String) → set_of xs ≡ y ∷ [] → AllAre y xs
AllAre-of_singleton [] y h = tt
AllAre-of_singleton (x ∷ []) y h = unfold set_of in ground arith
AllAre-of_singleton (x ∷ z ∷ xs) y h =
    let (e, same) =
      singleton-of_add x y (set_of (z ∷ xs)) (set_of-cons-ne-nil z xs) (rw set_of-cons at h) in
    (same, AllAre-of_singleton (z ∷ xs) y e)

singleton-of_AllAre :
    (x : String) (xs : List String) (y : String) → AllAre y (x ∷ xs) → set_of (x ∷ xs) ≡ y ∷ []
unfolding set_of
singleton-of_AllAre x [] y h = ground arith
singleton-of_AllAre x (z ∷ xs) y h = ground (arith, singleton-of_AllAre z xs y h.1, eq_iff y x)

module _ (component : String) where
  pop_only_iff : (s : List String) (ami : String) → (pop_only component s ≡ ok ami) ↔ (s ≡ ami ∷ [])
  unfolding pop_only
  pop_only_iff [] ami = (λ h. cc, λ h. cc)
  pop_only_iff (x ∷ []) ami = (λ h. cc, λ h. cc)
  pop_only_iff (x ∷ y ∷ s) ami = (λ h. cc, λ h. cc)

  amis-parts :
      (x : String) (xs : List String)
      → assert_amis_match_and_get_ami component (x ∷ xs) ≡ pop_only component (set_of (x ∷ xs))
  unfolding assert_amis_match_and_get_ami
  amis-parts x xs = refl

  amis-nil : (ami : String) → assert_amis_match_and_get_ami component [] ≢ ok ami
  unfolding assert_amis_match_and_get_ami
  amis-nil ami h = cc

  -- The check returns an image identifier exactly when there are some and each of them is this one.
  pub assert_amis_match_and_get_ami_iff :
      (ids : List String) (ami : String)
      → (assert_amis_match_and_get_ami component ids ≡ ok ami) ↔ ((ids ≢ []) × AllAre ami ids)
  assert_amis_match_and_get_ami_iff [] ami = (λ h. absurd (amis-nil ami h), λ h. absurd (h.0 refl))
  assert_amis_match_and_get_ami_iff (x ∷ xs) ami = (
    λ h. (λ e. cc, AllAre-of_singleton (x ∷ xs) ami ((pop_only_iff _ ami).0 (rw amis-parts at h))),
    λ h. rw amis-parts ((pop_only_iff _ ami).1 (singleton-of_AllAre x xs ami h.1)),
  )

abbrev replica_sets : List Instance → List String
replica_sets nodes = map (λ (i : Instance). i.replica_set_name) nodes

-- The test on the size of the set.
abbrev one_element : List String → Result NoneType
one_element s = if not (eqb (length s) 1) then err mongo_replica_set_mismatch else ok tt

nodes-parts :
    (nodes : List Instance)
    → assert_all_nodes_in_same_replica_set nodes ≡ one_element (set_of (replica_sets nodes))
unfolding assert_all_nodes_in_same_replica_set
nodes-parts nodes = refl

nodes-nil : assert_all_nodes_in_same_replica_set [] ≢ ok tt
unfolding assert_all_nodes_in_same_replica_set set_of
nodes-nil h = cc

length-one : (s : List String) → one_element s ≡ ok tt → (y : String) × (s ≡ y ∷ [])
length-one [] h = cc
length-one (x ∷ []) h = (x, refl)
length-one (x ∷ y ∷ s) h = ground arith

AllAre-replica_sets :
    (nodes : List Instance) (name : String)
    → AllAre name (replica_sets nodes)
    → All (λ i. i.replica_set_name ≡ name) nodes
AllAre-replica_sets [] name h = tt
AllAre-replica_sets (i ∷ nodes) name h = (h.0, AllAre-replica_sets nodes name h.1)

replica_sets-AllAre :
    (nodes : List Instance) (name : String)
    → All (λ i. i.replica_set_name ≡ name) nodes
    → AllAre name (replica_sets nodes)
replica_sets-AllAre [] name h = tt
replica_sets-AllAre (i ∷ nodes) name h = (h.0, replica_sets-AllAre nodes name h.1)

-- The check passes exactly when there are nodes and one replica set has them all.
pub assert_all_nodes_in_same_replica_set_iff :
    (nodes : List Instance)
    → (assert_all_nodes_in_same_replica_set nodes ≡ ok tt)
      ↔ ((nodes ≢ []) × ((name : String) × All (λ i. i.replica_set_name ≡ name) nodes))
assert_all_nodes_in_same_replica_set_iff [] = (λ h. absurd (nodes-nil h), λ h. absurd (h.0 refl))
assert_all_nodes_in_same_replica_set_iff (i ∷ nodes) = (
  λ h.
      let (y, e) = length-one _ (rw nodes-parts at h) in
      (λ same. cc, (y, AllAre-replica_sets (i ∷ nodes) y (AllAre-of_singleton _ y e))),
  λ h.
      let (nonempty, (name, all)) = h in
      rw (nodes-parts, singleton-of_AllAre _ _ name (replica_sets-AllAre (i ∷ nodes) name all)),
)
