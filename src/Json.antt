-- ===== src/Json.antt =====
-- JSON values as Python reads them: the events of the Lambda functions. Numbers are integers.
pub mod Laws
use aws_autorecycle.Base.{
  ℤ, pos, add_one, eqb_ℕ, show_ℤ, String, Bool, true, false, not, Option, none, some, ◌==◌,
  if◌then◌else◌,
}
use aws_autorecycle.Exceptions.{Result, ok, err, required, type_error, ◌>>=◌}

mutual
  pub data Json : Type 0 where
    null : Json
    bool : Bool → Json
    num : ℤ → Json
    str : String → Json
    arr : Items → Json
    obj : Fields → Json

  pub data Items : Type 0 where
    nil : Items
    cons : Json → Items → Items

  -- A dictionary, in the order of insertion.
  pub data Fields : Type 0 where
    end : Fields
    field : String → Json → Fields → Fields

-- `d.get(key)`, with `none` for a key that is not in `d`
unfoldable pub lookup : String → Fields → Option Json
lookup key end = none
lookup key (field k v d) = if k == key then some v else lookup key d

-- `d[key] = value`
unfoldable pub insert : String → Json → Fields → Fields
insert key value end = field key value end
insert key value (field k v d) =
    if k == key then field key value d else field k v (insert key value d)

-- `key in d`
abbrev pub contains : String → Fields → Bool
contains key d = elim (lookup key d) [ none ↦ false | some v ↦ true ]

-- `d[key]`
abbrev pub get_item : Fields → String → Result Json
get_item d key = required key (lookup key d)

-- A value that the code uses as a text.
abbrev pub as_text : Json → Result String
as_text (str s) = ok s
as_text _ = err type_error

-- A value that the code writes a key of.
abbrev pub as_fields : Json → Result Fields
as_fields (obj d) = ok d
as_fields _ = err type_error

-- `d[outer][inner] = value`
abbrev pub set_inner : Fields → String → String → Json → Result Fields
set_inner d outer inner value = do
  v ← get_item d outer
  inside ← as_fields v
  ok (insert outer (obj (insert inner value inside)) d)

-- `v + 1`
abbrev pub plus_one : Json → Result Json
plus_one (num n) = ok (num (add_one n))
plus_one (bool true) = ok (num (pos 2))
plus_one (bool false) = ok (num (pos 1))
plus_one _ = err type_error

-- `bool(v)`
abbrev pub truthy : Json → Bool
truthy null = false
truthy (bool b) = b
truthy (num n) = not (eqb_ℕ n 0)
truthy (str s) = not (s == "")
truthy (arr nil) = false
truthy (arr (cons v vs)) = true
truthy (obj end) = false
truthy (obj (field k v d)) = true

-- `bool(d.get(key))`
abbrev pub truthy_at : String → Fields → Bool
truthy_at key d = elim (lookup key d) [ none ↦ false | some v ↦ truthy v ]

-- `f"{v}"`. `show` stands for Python's text of a list or a dictionary.
unfoldable pub format : (Json → String) → Json → String
unfolding show_ℤ
format show null = "None"
format show (bool true) = "True"
format show (bool false) = "False"
format show (num n) = show_ℤ n
format show (str s) = s
format show v = show v
