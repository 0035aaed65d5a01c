-- ===== src/Mongo/Decision/Progress.antt =====
-- Repeated invocations: each recycles the node that `decide_on_action` chose. Between two of them
-- the other nodes keep their images, while elections may change every state.
use aws_autorecycle.Base.{
  ℕ, suc, ◌+◌, ◌≤◌, String, ◌≡◌, ◌≢◌, refl, ap, some, List, [], ◌∷◌, ◌++◌, map, arith, ◌==◌, eq_iff,
  not, tally, All,
}
use aws_autorecycle.Mongo.Models.{
  Instance, Decision, done, recycle_secondary, step_down_and_recycle_primary, instance_of,
}
use aws_autorecycle.Mongo.Decision.{decide_on_action}
use aws_autorecycle.Mongo.Decision.Choice.{
  IsOutdated, IsFirst, first_at, Fits, decide_on_action-Fits,
}

abbrev images : List Instance → List String
images nodes = map (λ (i : Instance). i.image_id) nodes

-- The nodes after node `i` was replaced by one with the target image.
pub data Replaces (target : String) (i : Instance) : List Instance → List Instance → Type 0 where
  here :
      {xs ys : List Instance} (x y : Instance)
      → x ≡ i
      → y.image_id ≡ target
      → images xs ≡ images ys
      → Replaces target i (x ∷ xs) (y ∷ ys)
  there :
      {xs ys : List Instance} (x y : Instance)
      → x.image_id ≡ y.image_id
      → Replaces target i xs ys
      → Replaces target i (x ∷ xs) (y ∷ ys)

-- A number of rounds in which the decision was to recycle a node.
pub data Rounds (target : String) : List Instance → ℕ → List Instance → Type 0 where
  stop : {xs : List Instance} → Rounds target xs 0 xs
  round :
      {xs ys zs : List Instance} {n : ℕ} (i : Instance)
      → instance_of (decide_on_action xs target) ≡ some i
      → Replaces target i xs ys
      → Rounds target ys n zs
      → Rounds target xs (suc n) zs

-- How many nodes have another image than the target, whatever their state.
abbrev pub outdated_count : String → List Instance → ℕ
outdated_count target = tally (λ i. not (i.image_id == target))

module _ (target : String) where
  outdated_count-images :
      (xs ys : List Instance)
      → images xs ≡ images ys
      → outdated_count target xs ≡ outdated_count target ys
  outdated_count-images [] [] e = refl
  outdated_count-images [] (y ∷ ys) e = cc
  outdated_count-images (x ∷ xs) [] e = cc
  outdated_count-images (x ∷ xs) (y ∷ ys) e = ground (arith, outdated_count-images xs ys)

  Replaces-outdated_count :
      {i : Instance} {xs ys : List Instance}
      → i.image_id ≢ target
      → Replaces target i xs ys
      → outdated_count target xs ≡ suc (outdated_count target ys)
  Replaces-outdated_count {i} old (here {xs} {ys} x y e f g) = ground (
    arith,
    outdated_count-images xs ys g,
    ap (λ (j : Instance). j.image_id) e,
    eq_iff x.image_id target,
    eq_iff y.image_id target,
  )
  Replaces-outdated_count {i} old (there {xs} {ys} x y e r) =
      ground (arith, Replaces-outdated_count old r)

  image-IsFirst :
      (state : String) (nodes : List Instance) (i : Instance)
      → IsFirst (IsOutdated target state) nodes i
      → i.image_id ≢ target
  image-IsFirst state nodes i (first_at before after e h p) = p.0

  image-Fits :
      (nodes : List Instance) (d : Decision) (i : Instance)
      → Fits target nodes d
      → instance_of d ≡ some i
      → i.image_id ≢ target
  image-Fits nodes done i f e = cc
  image-Fits nodes (recycle_secondary j) i f e = ground (arith, image-IsFirst _ nodes j f)
  image-Fits nodes (step_down_and_recycle_primary j) i f e =
      ground (arith, image-IsFirst _ nodes j f.1)

  -- Each round brings one node up to date.
  outdated_count-Rounds :
      {xs zs : List Instance} {n : ℕ}
      → Rounds target xs n zs
      → n + outdated_count target zs ≡ outdated_count target xs
  outdated_count-Rounds {xs} stop = omega arith
  outdated_count-Rounds {xs} {zs} (round {ys = ys} {n = n} i e r more) = omega (
    arith,
    outdated_count-Rounds more,
    Replaces-outdated_count (image-Fits xs _ i (decide_on_action-Fits xs target) e) r,
  )

  outdated_count-member :
      (before after : List Instance) (i : Instance)
      → outdated_count target (before ++ (i ∷ after)) ≡ 0
      → i.image_id ≡ target
  outdated_count-member [] after i h = ground (arith, eq_iff i.image_id target)
  outdated_count-member (x ∷ before) after i h =
      ground (arith, outdated_count-member before after i)

  IsFirst-outdated_count :
      (state : String) (nodes : List Instance) (i : Instance)
      → IsFirst (IsOutdated target state) nodes i
      → outdated_count target nodes ≢ 0
  IsFirst-outdated_count state nodes i (first_at before after e h p) zero_count =
      p.0 (outdated_count-member before after i (rw e at zero_count))

  Fits-up_to_date :
      (nodes : List Instance) (d : Decision)
      → Fits target nodes d
      → outdated_count target nodes ≡ 0
      → d ≡ done
  Fits-up_to_date nodes done f h = refl
  Fits-up_to_date nodes (recycle_secondary i) f h = absurd (IsFirst-outdated_count _ nodes i f h)
  Fits-up_to_date nodes (step_down_and_recycle_primary i) f h =
      absurd (IsFirst-outdated_count _ nodes i f.1 h)

  All-up_to_date :
      (nodes : List Instance)
      → outdated_count target nodes ≡ 0
      → All (λ i. i.image_id ≡ target) nodes
  All-up_to_date [] h = tt
  All-up_to_date (x ∷ nodes) h = ground (arith, eq_iff x.image_id target, All-up_to_date nodes)

-- Each round replaces the node that was chosen by one with the target image, and the others keep
-- their images. Then there are no more rounds than there were nodes with another image. After that
-- many every node has the target image, and the next decision is `done`.
pub Rounds-end :
    {target : String} {xs zs : List Instance} {n : ℕ}
    → Rounds target xs n zs
    → outdated_count target xs ≤ n
    → (n ≡ outdated_count target xs)
      × All (λ i. i.image_id ≡ target) zs
      × (decide_on_action zs target ≡ done)
Rounds-end {target} {xs} {zs} {n} r h =
    let left : outdated_count target zs ≡ 0 = omega (arith, outdated_count-Rounds target r) in
    (
      omega (arith, outdated_count-Rounds target r),
      All-up_to_date target zs left,
      Fits-up_to_date target zs _ (decide_on_action-Fits zs target) left,
    )
