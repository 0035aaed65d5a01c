-- ===== src/Monitor/Checks/Times.antt =====
-- Times that lie close together, and the latest of them, without the code's loops.
use mathlib.Core.Path.{subst}
use aws_autorecycle.Base.{
  sym, ℕ, ◌+◌, ◌*◌, ◌≤◌, ◌≡◌, refl, ◌↔◌, ◌⊎◌, inl, inr, true, none, some, List, [], ◌∷◌, leb, All,
  arith, Bool-cases, Option-cases, ap, ◌∙◌,
}
use aws_autorecycle.Monitor.Checks.{near_all, compare_start_times, insert_sorted, sorted, last}

-- No two of the times are further apart.
abbrev pub Near : ℕ → List ℕ → Type 0
Near d times = All (λ t. All (λ u. t ≤ u + d) times) times

near_all→All :
    (d a : ℕ) (times : List ℕ)
    → near_all d a times ≡ true
    → All (λ u. a ≤ u + d) times × All (λ u. u ≤ a + d) times
unfolding near_all
near_all→All d a [] h = (tt, tt)
near_all→All d a (b ∷ times) h =
    let (below, above) = near_all→All d a times (ground arith) in
    ((ground arith, below), (ground arith, above))

All→near_all :
    (d a : ℕ) (times : List ℕ)
    → All (λ u. a ≤ u + d) times
    → All (λ u. u ≤ a + d) times
    → near_all d a times ≡ true
unfolding near_all
All→near_all d a [] below above = refl
All→near_all d a (b ∷ times) below above =
    ground (arith, below.0, above.0, All→near_all d a times below.1 above.1)

-- A first element of each row.
All-heads :
    (d t : ℕ) (times us : List ℕ)
    → All (λ s. s ≤ t + d) us
    → All (λ s. All (λ u. s ≤ u + d) times) us
    → All (λ s. All (λ u. s ≤ u + d) (t ∷ times)) us
All-heads d t times [] h hs = tt
All-heads d t times (s ∷ us) h hs = ((h.0, hs.0), All-heads d t times us h.1 hs.1)

All-tails :
    (d t : ℕ) (times us : List ℕ)
    → All (λ s. All (λ u. s ≤ u + d) (t ∷ times)) us
    → All (λ s. s ≤ t + d) us × All (λ s. All (λ u. s ≤ u + d) times) us
All-tails d t times [] h = (tt, tt)
All-tails d t times (s ∷ us) h =
    let (heads, tails) = All-tails d t times us h.1 in ((h.0.0, heads), (h.0.1, tails))

compare→Near :
    (delta : ℕ) (times : List ℕ) → compare_start_times times delta ≡ true → Near (delta * 60) times
unfolding compare_start_times
compare→Near delta [] h = tt
compare→Near delta (t ∷ times) h =
    let (below, above) = near_all→All (delta * 60) t times (ground arith) in
    (
      (omega arith, below),
      All-heads (delta * 60) t times times above (compare→Near delta times (ground arith)),
    )

Near→compare :
    (delta : ℕ) (times : List ℕ) → Near (delta * 60) times → compare_start_times times delta ≡ true
unfolding compare_start_times
Near→compare delta [] h = refl
Near→compare delta (t ∷ times) h =
    let (above, near) = All-tails (delta * 60) t times times h.1 in
    rw (All→near_all (delta * 60) t times h.0.1 above) (Near→compare delta times near)

-- One of the times has the property.
abbrev pub Some : (ℕ → Type 0) → List ℕ → Type 0
Some P [] = ⊥
Some P (t ∷ times) = P t ⊎ Some P times

-- `t` is one of the times, and none is after it.
pub record IsLatest (t : ℕ) (times : List ℕ) : Type 0 where
  pub member : Some (λ u. u ≡ t) times
  pub bound : All (λ u. u ≤ t) times

abbrev IsSorted : List ℕ → Type 0
IsSorted [] = Unit
IsSorted (t ∷ times) = All (λ u. t ≤ u) times × IsSorted times

All-le : (t u : ℕ) (times : List ℕ) → t ≤ u → All (λ v. u ≤ v) times → All (λ v. t ≤ v) times
All-le t u [] h all = tt
All-le t u (v ∷ times) h all = (omega arith, All-le t u times h all.1)

module _ (P : ℕ → Type 0) where
  insert_sorted-All : (t : ℕ) (times : List ℕ) → P t → All P times → All P (insert_sorted t times)
  unfolding insert_sorted
  insert_sorted-All t [] h all = (h, tt)
  insert_sorted-All t (u ∷ times) h all = elim (Bool-cases (leb t u)) [
    | inl e ↦ rw (e, insert_sorted) (h, all)
    | inr e ↦ rw (e, insert_sorted) (all.0, insert_sorted-All t times h all.1)
  ]

  All-insert_sorted : (t : ℕ) (times : List ℕ) → All P (insert_sorted t times) → P t × All P times
  unfolding insert_sorted
  All-insert_sorted t [] = λ all. all
  All-insert_sorted t (u ∷ times) = elim (Bool-cases (leb t u)) [
    | inl e ↦ rw (e, insert_sorted) (λ all. all)
    | inr e ↦
        rw (e, insert_sorted)
          (λ all. let (h, rest) = All-insert_sorted t times all.1 in (h, (all.0, rest)))
  ]

  Some-insert_sorted :
      (t : ℕ) (times : List ℕ) → Some P (insert_sorted t times) → P t ⊎ Some P times
  unfolding insert_sorted
  Some-insert_sorted t [] = λ h. h
  Some-insert_sorted t (u ∷ times) = elim (Bool-cases (leb t u)) [
    | inl e ↦ rw (e, insert_sorted) (λ h. h)
    | inr e ↦
        rw (e, insert_sorted)
          (λ h. elim h [
            | inl x ↦ inr (inl x)
            | inr rest ↦ elim (Some-insert_sorted t times rest) [
              | inl x ↦ inl x
              | inr y ↦ inr (inr y)
            ]
          ])
  ]

  All-sorted : (times : List ℕ) → All P (sorted times) → All P times
  unfolding sorted
  All-sorted [] all = all
  All-sorted (t ∷ times) all =
      let (h, rest) = All-insert_sorted t (sorted times) all in (h, All-sorted times rest)

  Some-sorted : (times : List ℕ) → Some P (sorted times) → Some P times
  unfolding sorted
  Some-sorted [] h = h
  Some-sorted (t ∷ times) h = elim (Some-insert_sorted t (sorted times) h) [
    | inl x ↦ inl x
    | inr rest ↦ inr (Some-sorted times rest)
  ]

insert_sorted-IsSorted :
    (t : ℕ) (times : List ℕ) → IsSorted times → IsSorted (insert_sorted t times)
unfolding insert_sorted
insert_sorted-IsSorted t [] h = (tt, tt)
insert_sorted-IsSorted t (u ∷ times) h = elim (Bool-cases (leb t u)) [
  | inl e ↦ rw (e, insert_sorted) ((ground arith, All-le t u times (ground arith) h.0), h)
  | inr e ↦
      rw (e, insert_sorted)
        (
          insert_sorted-All (λ v. u ≤ v) t times (ground arith) h.0,
          insert_sorted-IsSorted t times h.1,
        )
]

sorted-IsSorted : (times : List ℕ) → IsSorted (sorted times)
unfolding sorted
sorted-IsSorted [] = tt
sorted-IsSorted (t ∷ times) = insert_sorted-IsSorted t (sorted times) (sorted-IsSorted times)

last-IsLatest : (t : ℕ) (times : List ℕ) → IsSorted times → last times ≡ some t → IsLatest t times
unfolding last
last-IsLatest t [] h e = ground arith
last-IsLatest t (u ∷ []) h e = record { member = inl (ground arith); bound = (ground arith, tt) }
last-IsLatest t (u ∷ v ∷ times) h e =
    let rest = last-IsLatest t (v ∷ times) h.1 e in
    record { member = inr rest.member; bound = (omega (arith, h.0.0, rest.bound.0), rest.bound) }

Some-le : (t u : ℕ) (times : List ℕ) → Some (λ v. v ≡ t) times → All (λ v. v ≤ u) times → t ≤ u
Some-le t u [] h all = absurd h
Some-le t u (v ∷ times) h all = elim h [
  | inl e ↦ omega arith
  | inr rest ↦ Some-le t u times rest all.1
]

last-none : (times : List ℕ) → last times ≡ none → times ≡ []
unfolding last
last-none [] e = refl
last-none (t ∷ []) e = ground arith
last-none (t ∷ u ∷ times) e = ground (arith, last-none (u ∷ times))

Some-none : (t : ℕ) (times : List ℕ) → Some (λ v. v ≡ t) times → All (λ v. ⊥) times → ⊥
Some-none t [] h all = h
Some-none t (v ∷ times) h all = all.0

latest→IsLatest : (t : ℕ) (times : List ℕ) → last (sorted times) ≡ some t → IsLatest t times
latest→IsLatest t times e =
    let r = last-IsLatest t (sorted times) (sorted-IsSorted times) e in
    record {
      member = Some-sorted (λ u. u ≡ t) times r.member;
      bound = All-sorted (λ u. u ≤ t) times r.bound;
    }

-- The last of the sorted times is the latest.
pub sorted-IsLatest_iff :
    (t : ℕ) (times : List ℕ) → (last (sorted times) ≡ some t) ↔ IsLatest t times
sorted-IsLatest_iff t times = (
  latest→IsLatest t times,
  λ h. elim (Option-cases (last (sorted times))) [
    | inl e ↦
        let none_sorted = subst (All (λ u. ⊥)) (sym (last-none (sorted times) e)) tt in
        absurd (Some-none t times h.member (All-sorted (λ u. ⊥) times none_sorted))
    | inr (u, e) ↦
        let h' = latest→IsLatest u times e in
        let below = Some-le t u times h.member h'.bound in
        let above = Some-le u t times h'.member h.bound in e ∙ ap some (omega arith)
  ],
)

pub compare_start_times_iff :
    (delta : ℕ) (times : List ℕ)
    → (compare_start_times times delta ≡ true) ↔ Near (delta * 60) times
compare_start_times_iff delta times = (compare→Near delta times, Near→compare delta times)
