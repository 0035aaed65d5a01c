-- ===== src/Invoke/Handler/Payload.antt =====
-- What the input of an execution holds.
use aws_autorecycle.Base.{
  String, ◌≡◌, refl, ap, ◌∙◌, false, Option, none, some, List, [], ◌∷◌, All, has, ◌==◌, arith,
  if◌then◌else◌,
}
use aws_autorecycle.Json.{Json, str, Fields, end, lookup, insert}
use aws_autorecycle.Json.Laws.{lookup-insert}
use aws_autorecycle.Invoke.Handler.{payload_to_asg_tag_map, copy_tags, construct_payload}

-- A value that was found, or another.
abbrev or_else : Option Json → Option Json → Option Json
or_else none old = old
or_else (some v) old = some v

module _ (asg_tags : Fields) where
  -- A round of the loop over the map.
  copy_tag : String → String → Fields → Fields
  copy_tag key tag payload = elim (lookup tag asg_tags) [
    | none ↦ payload
    | some v ↦ insert key v payload
  ]

  lookup-copy_tag :
      (j key tag : String) (payload : Fields)
      → lookup j (copy_tag key tag payload)
        ≡ (if key == j then or_else (lookup tag asg_tags) (lookup j payload) else lookup j payload)
  unfolding copy_tag
  lookup-copy_tag j key tag payload = go (lookup tag asg_tags)
    where
      go :
          (found : Option Json)
          → lookup j
              (elim found as (λ o. Fields) [ none ↦ payload | some v ↦ insert key v payload ])
            ≡ (if key == j then or_else found (lookup j payload) else lookup j payload)
      go none = ground arith
      go (some v) = ground (arith, lookup-insert j key v payload)

  copy_tags-cons :
      (key tag : String) (pairs : List (String × String)) (payload : Fields)
      → copy_tags ((key, tag) ∷ pairs) asg_tags payload
        ≡ copy_tags pairs asg_tags (copy_tag key tag payload)
  unfolding copy_tags copy_tag
  copy_tags-cons key tag pairs payload = refl

  copy_tags-nil : (payload : Fields) → copy_tags [] asg_tags payload ≡ payload
  unfolding copy_tags
  copy_tags-nil payload = refl

  copy_tags-other :
      (j : String) (pairs : List (String × String)) (payload : Fields)
      → has (λ (key, tag). key == j) pairs ≡ false
      → lookup j (copy_tags pairs asg_tags payload) ≡ lookup j payload
  copy_tags-other j [] payload h = ap (lookup j) (copy_tags-nil payload)
  copy_tags-other j ((key, tag) ∷ pairs) payload h =
      ap (lookup j) (copy_tags-cons key tag pairs payload)
      ∙ copy_tags-other j pairs (copy_tag key tag payload) (ground arith)
      ∙ ground (arith, lookup-copy_tag j key tag payload)

or_else-none : (o : Option Json) → or_else o none ≡ o
or_else-none none = refl
or_else-none (some v) = refl

ruleset copying = (copy_tags-cons, copy_tags-nil, lookup-copy_tag, lookup-insert, or_else-none)

abbrev fixed_keys : List String
fixed_keys =
    "account_id" ∷ "success_channel" ∷ "component" ∷ "auto_scaling_group_name" ∷ "emoji" ∷ []

-- The name of the account, the channel, the component, the group and an emoji are given, each of the
-- other keys of the map has what its tag has, if there is such a tag, and there is no other key.
pub record IsPayload (account channel group : String) (component : Json) (asg_tags payload : Fields)
    : Type 0 where
  pub account_id : lookup "account_id" payload ≡ some (str account)
  pub success_channel : lookup "success_channel" payload ≡ some (str channel)
  pub of_component : lookup "component" payload ≡ some component
  pub auto_scaling_group_name : lookup "auto_scaling_group_name" payload ≡ some (str group)
  pub emoji : lookup "emoji" payload ≡ some (str ":robot_face:")
  pub copied : All (λ (key, tag). lookup key payload ≡ lookup tag asg_tags) payload_to_asg_tag_map
  pub only :
      (j : String)
      → has (λ key. key == j) fixed_keys ≡ false
      → has (λ (key, tag). key == j) payload_to_asg_tag_map ≡ false
      → lookup j payload ≡ none

insert-other :
    (j key : String) (v : Json) (d : Fields)
    → (key == j) ≡ false
    → lookup j d ≡ none
    → lookup j (insert key v d) ≡ none
insert-other j key v d h e = ground (arith, lookup-insert j key v d)

module _ (account channel group : String) (component : Json) (asg_tags : Fields) where
  abbrev payload : Fields
  payload = construct_payload account channel component group asg_tags

  -- The input of an execution has five values that do not depend on the tags, then for each key of
  -- the map the value of its tag, if there is one; no other key is in it.
  pub construct_payload-IsPayload : IsPayload account channel group component asg_tags payload
  unfolding construct_payload lookup
  construct_payload-IsPayload = record {
    account_id = simp copying;
    success_channel = simp copying;
    of_component = simp copying;
    auto_scaling_group_name = simp copying;
    emoji = simp copying;
    copied = (
      simp copying,
      (simp copying, (simp copying, (simp copying, (simp copying, (simp copying, tt))))),
    );
    only = λ j fixed mapped.
        copy_tags-other asg_tags j payload_to_asg_tag_map _ mapped
        ∙ insert-other j _ _ _ (ground arith) (
            insert-other j _ _ _ (ground arith) (
              insert-other j _ _ _ (ground arith) (
                insert-other j _ _ _ (ground arith) (insert-other j _ _ end (ground arith) refl))));
  }
