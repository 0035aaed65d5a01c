-- ===== src/Consul/Leader.antt =====
-- How the Consul functions read the address of the leader: `strip`, `strip('"')` and `split(":")[0]`.
use Prim.Native.Char.{Char, code}
use Prim.Native.String.{String as Text}
use aws_autorecycle.Base.{String, Bool, ◌&&◌, ◌||◌, leb, eqb, if◌then◌else◌}

-- White space, for the characters of ASCII.
abbrev is_space : Char → Bool
is_space c = (leb 9 (code c) && leb (code c) 13) || (leb 28 (code c) && leb (code c) 32)

abbrev is_quote : Char → Bool
is_quote c = eqb (code c) b'"'

strip_left : (Char → Bool) → String → String
strip_left drop Text.[] = Text.[]
strip_left drop (Text.◌∷◌ c text) = if drop c then strip_left drop text else Text.◌∷◌ c text

-- A text of dropped characters is stripped wholly.
strip_right : (Char → Bool) → String → String
strip_right drop Text.[] = Text.[]
strip_right drop (Text.◌∷◌ c text) =
    let rest = strip_right drop text in
    elim rest as (λ r. String) [
      | Text.[] ↦ if drop c then Text.[] else Text.◌∷◌ c Text.[]
      | Text.◌∷◌ d more ↦ Text.◌∷◌ c (Text.◌∷◌ d more)
    ]

unfoldable pub strip : (Char → Bool) → String → String
unfolding strip_left strip_right
strip drop text = strip_right drop (strip_left drop text)

-- `.strip().strip('"')`
unfoldable pub leader_text : String → String
leader_text body = strip is_quote (strip is_space body)

-- `.split(":")[0]`
unfoldable pub before_colon : String → String
before_colon Text.[] = Text.[]
before_colon (Text.◌∷◌ c text) =
    if eqb (code c) b':' then Text.[] else Text.◌∷◌ c (before_colon text)
