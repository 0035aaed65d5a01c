-- ===== src/Base/Text.antt =====
-- The text operations of the source: `str.join`, `str(n)` and `re.sub("_[abc]$", "", s)`.
pub mod Split
use Prim.Native.Nat.{ℕ, zero, suc, ◌+◌, ◌/◌, ◌%◌}
use Prim.Native.Char.{Char, code}
use Prim.Native.String.{String, ◌++◌ as ◌<>◌}
use mathlib.Core.Bool.{Bool, true, false, ◌&&◌, ◌||◌}
use mathlib.Core.List.{List, [], ◌∷◌}
use mathlib.Core.Option.{Option, none, some}
use aws_autorecycle.Base.Tests.{ltb, eqb, if◌then◌else◌}

-- `separator.join(parts)`
unfoldable pub join : String → List String → String
join separator [] = ""
join separator (p ∷ []) = p
join separator (p ∷ q ∷ rest) = p <> (separator <> join separator (q ∷ rest))

digit : ℕ → String
digit zero = "0"
digit (suc zero) = "1"
digit (suc (suc zero)) = "2"
digit (suc (suc (suc zero))) = "3"
digit (suc (suc (suc (suc zero)))) = "4"
digit (suc (suc (suc (suc (suc zero))))) = "5"
digit (suc (suc (suc (suc (suc (suc zero)))))) = "6"
digit (suc (suc (suc (suc (suc (suc (suc zero))))))) = "7"
digit (suc (suc (suc (suc (suc (suc (suc (suc zero)))))))) = "8"
digit _ = "9"

-- The number falls below the fuel at each division.
show_digits : ℕ → ℕ → String
show_digits zero n = ""
show_digits (suc fuel) n =
    let front = show_digits fuel (n / 10) in if ltb n 10 then digit n else front <> digit (n % 10)

-- `str(n)` of a number
unfoldable pub show_ℕ : ℕ → String
unfolding show_digits digit
show_ℕ n = show_digits (n + 1) n

is_abc : Char → Bool
is_abc c = eqb (code c) b'a' || eqb (code c) b'b' || eqb (code c) b'c'

-- `$` matches at the end, and before a line break that ends the text.
at_end : String → Bool
at_end String.[] = true
at_end (String.◌∷◌ c String.[]) = eqb (code c) 10
at_end (String.◌∷◌ c (String.◌∷◌ d rest)) = false

-- `_[abc]$` at the head of the text: the text behind the match.
match_az : String → Option String
match_az (String.◌∷◌ c (String.◌∷◌ d rest)) =
    if eqb (code c) b'_' && is_abc d && at_end rest then some rest else none
match_az _ = none

-- `re.subn("_[abc]$", "", s)`: `none` if there was no substitution. There is room for one only.
unfoldable pub subn_az : String → Option String
unfolding match_az at_end is_abc
subn_az String.[] = none
subn_az (String.◌∷◌ c s) = elim (match_az (String.◌∷◌ c s)) [
  | some rest ↦ some rest
  | none ↦ elim (subn_az s) [ some rest ↦ some (String.◌∷◌ c rest) | none ↦ none ]
]

-- `re.sub("_[abc]$", "", s)`
unfoldable pub sub_az : String → String
unfolding subn_az
sub_az s = elim (subn_az s) [ some rest ↦ rest | none ↦ s ]

-- The text behind a prefix, if it begins with it.
unfoldable pub strip_prefix : String → String → Option String
strip_prefix String.[] s = some s
strip_prefix (String.◌∷◌ c p) String.[] = none
strip_prefix (String.◌∷◌ c p) (String.◌∷◌ d s) =
    if eqb (code c) (code d) then strip_prefix p s else none

-- `_mongo(?:_[abc])?$` at the head of the text: the text behind the match.
after_mongo : String → Option String
unfolding match_az at_end strip_prefix is_abc
after_mongo s = elim (strip_prefix "_mongo" s) [
  | none ↦ none
  | some rest ↦ elim (match_az rest) [
    | some after ↦ some after
    | none ↦ if at_end rest then some rest else none
  ]
]

-- `re.sub("_mongo(?:_[abc])?$", "", s)`. There is room for one match only.
unfoldable pub sub_mongo : String → String
unfolding after_mongo
sub_mongo String.[] = String.[]
sub_mongo (String.◌∷◌ c s) = elim (after_mongo (String.◌∷◌ c s)) as (λ o. String) [
  | some rest ↦ rest
  | none ↦ String.◌∷◌ c (sub_mongo s)
]

-- `s.split(separator)[0]`, for a separator that is not empty
unfoldable pub before : String → String → String
before separator String.[] = String.[]
before separator (String.◌∷◌ c s) =
    elim (strip_prefix separator (String.◌∷◌ c s)) as (λ o. String) [
      | some rest ↦ String.[]
      | none ↦ String.◌∷◌ c (before separator s)
    ]
