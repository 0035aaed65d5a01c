-- ===== src/ScaleAsg/Handler/Protocol.antt =====
-- In which order one invocation may call AWS, as an automaton over its calls.
use mathlib.Core.List.{map-append}
use aws_autorecycle.Base.{
  String, ◌≡◌, refl, inl, inr, Bool, true, false, ◌&&◌, Option, none, some, List, [], ◌∷◌, ◌++◌,
  ◌==◌, ap, map, select, Bool-cases, if◌then◌else◌,
}
use aws_autorecycle.Base.Dict.{Dict, lookup, insert, values}
use aws_autorecycle.Exceptions.{ok, err}
use aws_autorecycle.ScaleAsg.Services.{
  Asg, Activity, Call, described_groups, described_activities, executed_policy,
}
use aws_autorecycle.ScaleAsg.Autoscaling.{concat, matches, latest}
use aws_autorecycle.ScaleAsg.NextAction.{get_overall_progress, get_overall_statuscode}

-- What an invocation has read and done. While it lists: the names of the groups whose activity it has
-- still to read, and what it has read.
pub data State : Type 0 where
  start : State
  listing : List String → Dict Activity → State
  moved broken : State

-- All has been read.
abbrev pub reading : Dict Activity → State
reading d = listing [] d

-- The names of the component's groups, page by page.
abbrev names_on : String → List Asg → List String
names_on component [] = []
names_on component (asg ∷ page) =
    if matches component asg.name
    then asg.name ∷ names_on component page
    else names_on component page

abbrev pub matching : String → List (List Asg) → List String
matching component [] = []
matching component (page ∷ pages) = names_on component page ++ matching component pages

abbrev pub all_ready : Dict Activity → Bool
all_ready d = get_overall_progress (values d) && get_overall_statuscode (values d)

abbrev pub known : String → Dict Activity → Bool
known name d = elim (lookup name d) [ none ↦ false | some a ↦ true ]

-- What is allowed: the groups once, then the activities of each of the component's groups on all
-- pages, in their order, each to succeed, then at most one policy, when all that was read is complete
-- and successful, on a group that was read.
abbrev pub next_state : String → State → Call → Option State
next_state component start (described_groups (ok pages)) =
    some (listing (matching component pages) [])
next_state component start (described_groups (err e)) = some broken
next_state component (listing (n ∷ todo) d) (described_activities name (ok activities)) =
    if name == n then some (listing todo (insert name (latest activities) d)) else none
next_state component (listing (n ∷ todo) d) (described_activities name (err e)) =
    if name == n then some broken else none
next_state component (listing [] d) (executed_policy name policy) =
    if all_ready d && known name d then some moved else none
next_state component _ _ = none

select-append :
    (test : Asg → Bool) (xs ys : List Asg)
    → select test (xs ++ ys) ≡ select test xs ++ select test ys
select-append test [] ys = refl
select-append test (x ∷ xs) ys = elim (Bool-cases (test x)) [
  | inl e ↦ rw e (ap (λ zs. x ∷ zs) (select-append test xs ys))
  | inr e ↦ rw e (select-append test xs ys)
]

-- What the code keeps of the groups has these names.
names_on-select :
    (component : String) (page : List Asg)
    → map (λ asg. asg.name) (select (λ asg. matches component asg.name) page)
      ≡ names_on component page
names_on-select component [] = refl
names_on-select component (asg ∷ page) = elim (Bool-cases (matches component asg.name)) [
  | inl e ↦ rw e (ap (λ names. asg.name ∷ names) (names_on-select component page))
  | inr e ↦ rw e (names_on-select component page)
]

pub matching-select :
    (component : String) (pages : List (List Asg))
    → map (λ asg. asg.name) (select (λ asg. matches component asg.name) (concat pages))
      ≡ matching component pages
unfolding concat
matching-select component [] = refl
matching-select component (page ∷ pages) =
    rw
      (
        select-append (λ asg. matches component asg.name) page (concat pages),
        map-append (λ asg. asg.name) (select (λ asg. matches component asg.name) page)
            (select (λ asg. matches component asg.name) (concat pages)),
        names_on-select component page,
        matching-select component pages,
      )
      refl
