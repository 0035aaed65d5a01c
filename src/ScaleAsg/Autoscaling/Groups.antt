-- ===== src/ScaleAsg/Autoscaling/Groups.antt =====
-- Which groups are a component's, by their names.
use Prim.Native.Char.{code}
use Prim.Native.String.{String as Text}
use aws_autorecycle.Base.{String, ◌<>◌, ◌≡◌, ◌≢◌, refl, ◌≤◌, ◌⊎◌, none, true, subn_az, arith}
use aws_autorecycle.Base.Text.Split.{strip_prefix-append}
use aws_autorecycle.ScaleAsg.Autoscaling.{is_suffix_char, suffix_tail, suffix, asg_part, matches}

-- Lower case letters and digits only.
abbrev pub IsPlain : String → Type 0
IsPlain Text.[] = Unit
IsPlain (Text.◌∷◌ c s) =
    (((b'a' ≤ code c) × (code c ≤ b'z')) ⊎ ((b'0' ≤ code c) × (code c ≤ b'9'))) × IsPlain s

suffix_tail-IsPlain : (s : String) → IsPlain s → suffix_tail s ≡ true
unfolding suffix_tail is_suffix_char
suffix_tail-IsPlain Text.[] h = refl
suffix_tail-IsPlain (Text.◌∷◌ c Text.[]) h = ground arith
suffix_tail-IsPlain (Text.◌∷◌ c (Text.◌∷◌ d s)) h =
    ground (arith, suffix_tail-IsPlain (Text.◌∷◌ d s) h.1)

suffix-IsPlain : (s : String) → IsPlain s → s ≢ "" → suffix s ≡ true
unfolding suffix is_suffix_char
suffix-IsPlain Text.[] h ne = absurd (ne refl)
suffix-IsPlain (Text.◌∷◌ c s) h ne = ground (arith, suffix_tail-IsPlain s h.1)

asg_part-suffix : (s : String) → IsPlain s → s ≢ "" → asg_part ("-asg-" <> s) ≡ true
unfolding asg_part
asg_part-suffix s h ne = rw (asg_part, strip_prefix-append "-asg-" s) (suffix-IsPlain s h ne)

-- A component that names no zone has the groups that are named after it.
pub matches-group_name :
    (component s : String)
    → subn_az component ≡ none
    → IsPlain s
    → s ≢ ""
    → matches component (component <> ("-asg-" <> s)) ≡ true
unfolding matches
matches-group_name component s bare h ne =
    rw (matches, bare, strip_prefix-append component ("-asg-" <> s)) (asg_part-suffix s h ne)
