-- ===== src/Invoke/Tags/Values.antt =====
-- What the tags of a group say, for each key.
use mathlib.Core.Option
use aws_autorecycle.Base.{
  String, ◌≡◌, refl, ap, ◌∙◌, Bool, true, false, Option, none, some, List, [], ◌∷◌, has, ◌==◌,
  arith, eq_iff, if◌then◌else◌,
}
use aws_autorecycle.Json.{Json, str, Fields, end, lookup, insert}
use aws_autorecycle.Json.Laws.{lookup-insert}
use aws_autorecycle.Invoke.Services.{Tag}
use aws_autorecycle.Invoke.Tags.{
  string_tags, boolean_tags, get_tag_values, add_tag, add_tags, read_boolean, collect_tags,
}

-- The value of the first tag with the key.
abbrev pub first_value : String → List Tag → Option String
first_value name [] = none
first_value name (tag ∷ tags) = if tag.key == name then some tag.content else first_value name tags

abbrev head : List String → Option String
head [] = none
head (value ∷ values) = some value

head-get_tag_values :
    (response : List Tag) (name : String)
    → head (get_tag_values response name) ≡ first_value name response
unfolding get_tag_values
head-get_tag_values [] name = refl
head-get_tag_values (tag ∷ response) name = ground (arith, head-get_tag_values response name)

-- A value that was read, or what the dictionary had before.
abbrev read_or : (String → Json) → Option String → Option Json → Option Json
read_or read none old = old
read_or read (some value) old = some (read value)

module _ (read : String → Json) (response : List Tag) where
  same_value :
      (j name : String) → (name == j) ≡ true → first_value name response ≡ first_value j response
  same_value j name h = ap (λ n. first_value n response) ((eq_iff name j).0 h)

  lookup-add_tag :
      (j name : String) (tags : Fields)
      → lookup j (add_tag read name response tags) ≡ (
          if name == j
          then read_or read (first_value j response) (lookup j tags)
          else lookup j tags)
  unfolding add_tag
  lookup-add_tag j name tags = go (get_tag_values response name) (head-get_tag_values response name)
    where
      go :
          (values : List String)
          → head values ≡ first_value name response
          → lookup j (elim values as (λ v. Fields) [
            | [] ↦ tags
            | value ∷ more ↦ insert name (read value) tags
          ])
            ≡ (if name == j
                then read_or read (first_value j response) (lookup j tags)
                else lookup j tags)
      go [] h = ground (arith, same_value j name)
      go (value ∷ more) h =
          ground (arith, same_value j name, lookup-insert j name (read value) tags)

  lookup-add_tags :
      (j : String) (names : List String) (tags : Fields)
      → lookup j (add_tags read names response tags) ≡ (
          if has (λ name. name == j) names
          then read_or read (first_value j response) (lookup j tags)
          else lookup j tags)
  unfolding add_tags
  lookup-add_tags j [] tags = refl
  lookup-add_tags j (name ∷ names) tags =
      lookup-add_tags j names (add_tag read name response tags)
      ∙ ground (arith, lookup-add_tag j name tags)

both_kinds :
    (is_boolean is_string : Bool) (value : Option String)
    → (if is_boolean
        then read_or read_boolean value (if is_string then read_or str value none else none)
        else if is_string
        then read_or str value none
        else none)
      ≡ (if is_boolean
          then Option.map read_boolean value
          else if is_string
          then Option.map str value
          else none)
both_kinds true true none = refl
both_kinds true false none = refl
both_kinds true s (some v) = refl
both_kinds false true none = refl
both_kinds false true (some v) = refl
both_kinds false false v = refl

-- For every key and whatever the tags of the group are: a key of a boolean tag has whether the value
-- of the first such tag is "true" in any case, a key of a text tag that value itself, and a key
-- without a tag, or of neither kind, is not there.
pub lookup-collect_tags :
    (j : String) (response : List Tag)
    → lookup j (collect_tags response) ≡ (
        if has (λ name. name == j) boolean_tags
        then Option.map read_boolean (first_value j response)
        else if has (λ name. name == j) string_tags
        then Option.map str (first_value j response)
        else none)
unfolding collect_tags lookup
lookup-collect_tags j response =
    rw
      (
        lookup-add_tags read_boolean response j boolean_tags _,
        lookup-add_tags str response j string_tags end,
      )
      (both_kinds (has (λ name. name == j) boolean_tags) (has (λ name. name == j) string_tags)
        (first_value j response))
