-- ===== src/Mongo/Decision/Choice.antt =====
-- Which node `decide_on_action` chooses, without the code's tests.
use aws_autorecycle.Base.{
  String, ◌≡◌, ◌≢◌, inl, inr, refl, ap, true, not, ◌&&◌, Bool-cases, if◌then◌else◌, List, [], ◌∷◌,
  ◌++◌, arith, ◌==◌, eq_iff, All,
}
use aws_autorecycle.Mongo.Models.{
  Instance, Decision, done, recycle_secondary, step_down_and_recycle_primary, find_instances,
}
use aws_autorecycle.Mongo.Decision.{choose, is_candidate_state, find_candidates, decide_on_action}

-- A node with another image than the target, in the given state.
abbrev pub IsOutdated : String → String → Instance → Type 0
IsOutdated target state i = (i.image_id ≢ target) × (i.mongo_state ≡ state)

-- The first element of the list with the property.
pub data IsFirst {A : Type 0} (P : A → Type 0) (xs : List A) (x : A) : Type 0 where
  first_at :
      (before after : List A)
      → xs ≡ before ++ (x ∷ after)
      → All (λ y. ¬ P y) before
      → P x
      → IsFirst P xs x

-- The decisions that fit the nodes and the target image.
abbrev pub Fits : String → List Instance → Decision → Type 0
Fits target nodes done =
    All (λ i. ¬ IsOutdated target "SECONDARY" i) nodes
    × All (λ i. ¬ IsOutdated target "PRIMARY" i) nodes
Fits target nodes (recycle_secondary i) = IsFirst (IsOutdated target "SECONDARY") nodes i
Fits target nodes (step_down_and_recycle_primary i) =
    All (λ j. ¬ IsOutdated target "SECONDARY" j) nodes
    × IsFirst (IsOutdated target "PRIMARY") nodes i

-- What the list of the outdated nodes in one state says.
abbrev Heads : String → String → List Instance → List Instance → Type 0
Heads target state nodes [] = All (λ i. ¬ IsOutdated target state i) nodes
Heads target state nodes (x ∷ xs) = IsFirst (IsOutdated target state) nodes x

module _ (target state : String) where
  abbrev outdated : List Instance → List Instance
  outdated nodes = find_instances (find_candidates nodes target) state

  Heads-skip :
      (i : Instance) (nodes found : List Instance)
      → ¬ IsOutdated target state i
      → Heads target state nodes found
      → Heads target state (i ∷ nodes) found
  Heads-skip i nodes [] h hs = (h, hs)
  Heads-skip i nodes (x ∷ xs) h (first_at before after e none_before p) =
      first_at (i ∷ before) after (ap (λ l. i ∷ l) e) (h, none_before) p

  module _ (counts : is_candidate_state state ≡ true) where
    outdated-cons :
        (i : Instance) (nodes : List Instance)
        → outdated (i ∷ nodes) ≡ (
            if not (i.image_id == target) && i.mongo_state == state
            then i ∷ outdated nodes
            else outdated nodes)
    unfolding find_instances find_candidates
    outdated-cons i nodes = ground (arith, eq_iff i.mongo_state state)

    Heads-outdated : (nodes : List Instance) → Heads target state nodes (outdated nodes)
    Heads-outdated [] = unfold find_instances find_candidates in tt
    Heads-outdated (i ∷ nodes) =
        elim (Bool-cases (not (i.image_id == target) && i.mongo_state == state)) [
          | inl e ↦
              rw (outdated-cons, e)
                (first_at [] nodes refl tt
                  (ground (arith, eq_iff i.image_id target, eq_iff i.mongo_state state)))
          | inr e ↦
              rw (outdated-cons, e)
                (Heads-skip i nodes (outdated nodes)
                  (ground (arith, eq_iff i.image_id target, eq_iff i.mongo_state state))
                  (Heads-outdated nodes))
        ]

Fits-choose :
    (target : String) (nodes secondaries primaries : List Instance)
    → Heads target "SECONDARY" nodes secondaries
    → Heads target "PRIMARY" nodes primaries
    → Fits target nodes (choose secondaries primaries)
unfolding choose
Fits-choose target nodes [] [] hs hp = (hs, hp)
Fits-choose target nodes [] (p ∷ ps) hs hp = (hs, hp)
Fits-choose target nodes (s ∷ ss) ps hs hp = hs

-- The decision is to recycle the first outdated secondary; if there is none, to step down and
-- recycle the first outdated primary; and `done` if there is neither.
pub decide_on_action-Fits :
    (nodes : List Instance) (target : String) → Fits target nodes (decide_on_action nodes target)
unfolding decide_on_action
decide_on_action-Fits nodes target =
    Fits-choose target nodes _ _ (Heads-outdated target "SECONDARY" refl nodes)
      (Heads-outdated target "PRIMARY" refl nodes)
