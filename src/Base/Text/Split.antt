-- ===== src/Base/Text/Split.antt =====
-- A text that begins with another, and a text in front of a separator.
use Prim.Native.Char.{Char}
use Prim.Native.Nat.{◌≤◌}
use Prim.Native.String.{String, count, ◌++◌ as ◌<>◌}
use text.Mathlib.TextLemmas.{
  nil-append, cons-append, append_assoc, length-nil, length-cons, length-append,
}
use mathlib.Core.Path.{subst, ◌≡◌, refl, ap, ◌∙◌}
use mathlib.Core.Option.{none, some}
use native.Mathlib.Omega.{arith}
use aws_autorecycle.Base.Text.{strip_prefix, before}

pub strip_prefix-append : (p s : String) → strip_prefix p (p <> s) ≡ some s
unfolding strip_prefix
strip_prefix-append String.[] s = ap some (nil-append s)
strip_prefix-append (String.◌∷◌ c p) s =
    rw (cons-append c p s) (ground (arith, strip_prefix-append p s))

-- The text is not shorter than the prefix.
abbrev Covers : String → String → Type 0
Covers String.[] s = Unit
Covers (String.◌∷◌ c p) String.[] = ⊥
Covers (String.◌∷◌ c p) (String.◌∷◌ d s) = Covers p s

Covers-of_count : (p s : String) → count p ≤ count s → Covers p s
Covers-of_count String.[] s h = tt
Covers-of_count (String.◌∷◌ c p) String.[] h = omega (arith, length-cons c p, length-nil)
Covers-of_count (String.◌∷◌ c p) (String.◌∷◌ d s) h =
    Covers-of_count p s (omega (arith, length-cons c p, length-cons d s))

-- Whether a text that long begins with the prefix does not depend on what follows it.
strip_prefix-none_append :
    (p s t : String) → Covers p s → strip_prefix p s ≡ none → strip_prefix p (s <> t) ≡ none
unfolding strip_prefix
strip_prefix-none_append String.[] s t h e = ground arith
strip_prefix-none_append (String.◌∷◌ c p) String.[] t h e = absurd h
strip_prefix-none_append (String.◌∷◌ c p) (String.◌∷◌ d s) t h e =
    rw (cons-append d s t) (ground (arith, strip_prefix-none_append p s t h))

-- The text does not hold the separator.
abbrev pub Lacks : String → String → Type 0
Lacks separator String.[] = Unit
Lacks separator (String.◌∷◌ c s) =
    (strip_prefix separator (String.◌∷◌ c s) ≡ none) × Lacks separator s

module _ (separator : String) where
  before_at :
      (s rest : String) → strip_prefix separator s ≡ some rest → before separator s ≡ String.[]
  unfolding before
  before_at String.[] rest h = refl
  before_at (String.◌∷◌ c s) rest h = rw (before, h) refl

  before_past :
      (c : Char) (s : String)
      → strip_prefix separator (String.◌∷◌ c s) ≡ none
      → before separator (String.◌∷◌ c s) ≡ String.◌∷◌ c (before separator s)
  unfolding before
  before_past c s h = rw (before, h) refl

-- A text up to the first occurrence of a separator: none begins before it.
module _ (front last : String) (short : count last ≤ 1) where
  covered : (c : Char) (s : String) → Covers (front <> last) (String.◌∷◌ c (s <> front))
  covered c s = Covers-of_count (front <> last) (String.◌∷◌ c (s <> front)) (
      omega
        (arith, short, length-append front last, length-cons c (s <> front), length-append s front))

  pub before-append :
      (s rest : String)
      → Lacks (front <> last) (s <> front)
      → before (front <> last) (s <> (front <> (last <> rest))) ≡ s
  before-append String.[] rest h =
      rw (nil-append, ← append_assoc)
        (before_at (front <> last) _ rest (strip_prefix-append (front <> last) rest))
  before-append (String.◌∷◌ c s) rest h =
      let h' = subst (Lacks (front <> last)) (cons-append c s front) h in
      let longer =
        strip_prefix-none_append (front <> last) (String.◌∷◌ c (s <> front)) (last <> rest)
          (covered c s) h'.0 in
      let spelled : String.◌∷◌ c (s <> front) <> (last <> rest)
          ≡ String.◌∷◌ c (s <> (front <> (last <> rest))) =
        cons-append c (s <> front) (last <> rest)
        ∙ ap (λ t. String.◌∷◌ c t) (append_assoc s front (last <> rest)) in
      rw (cons-append c s (front <> (last <> rest))) (
        before_past (front <> last) c _
          (subst (λ t. strip_prefix (front <> last) t ≡ none) spelled longer)
        ∙ ap (λ t. String.◌∷◌ c t) (before-append s rest h'.1))
