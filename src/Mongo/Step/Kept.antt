-- ===== src/Mongo/Step/Kept.antt =====
-- What `finish` writes into the event, and what it leaves alone.
use aws_autorecycle.Base.{String, ◌≡◌, refl, ◌∙◌, false, some, ◌==◌, arith, Bool-cases, inl, inr}
use aws_autorecycle.Exceptions.{Result, ok, err, ◌>>=◌}
use aws_autorecycle.Json.{
  Json, obj, Fields, lookup, insert, contains, get_item, plus_one, as_fields,
}
use aws_autorecycle.Json.Laws.{lookup-insert}
use aws_autorecycle.Mongo.Models.{Decision, done, recycle_secondary, step_down_and_recycle_primary}
use aws_autorecycle.Mongo.Step.{
  decision_json, with_counter, bump, increment_counter, report_done, finish,
}

-- A result has what another dictionary has at a key.
abbrev Same : String → Fields → Result Fields → Type 0
Same j event (ok o) = lookup j o ≡ lookup j event
Same j event (err e) = Unit

module _ (j : String) where
  pub insert-other :
      (k : String) (v : Json) (d : Fields) → (k == j) ≡ false → lookup j (insert k v d) ≡ lookup j d
  insert-other k v d h = ground (arith, lookup-insert j k v d)

  module _ (event : Fields) where
    written-Same :
        (k : String) (r : Result Json)
        → (k == j) ≡ false
        → Same j event (r >>= λ v. ok (insert k v event))
    written-Same k (ok v) h = insert-other k v event h
    written-Same k (err e) h = tt

    counted-Same :
        (n : Result Json)
        → ("counter" == j) ≡ false
        → Same j event (n >>= λ n. plus_one n >>= λ n'. ok (insert "counter" n' event))
    counted-Same (ok n) h = written-Same "counter" (plus_one n) h
    counted-Same (err e) h = tt

    inside-Same :
        (inner : String) (value : Json) (r : Result Fields)
        → ("message_content" == j) ≡ false
        → Same j event
            (r >>= λ inside. ok (insert "message_content" (obj (insert inner value inside)) event))
    inside-Same inner value (ok inside) h =
        insert-other "message_content" (obj (insert inner value inside)) event h
    inside-Same inner value (err e) h = tt

    reported-Same :
        (inner : String) (value : Json) (r : Result Json)
        → ("message_content" == j) ≡ false
        → Same j event (
            r >>= λ v. as_fields v >>= λ inside.
            ok (insert "message_content" (obj (insert inner value inside)) event))
    reported-Same inner value (ok v) h = inside-Same inner value (as_fields v) h
    reported-Same inner value (err e) h = tt

    report_done-Same :
        (show : Json → String) (d : Decision)
        → ("message_content" == j) ≡ false
        → Same j event (report_done show d event)
    unfolding report_done
    report_done-Same show done h = reported-Same "text" _ (get_item event "message_content") h
    report_done-Same show (recycle_secondary i) h = refl
    report_done-Same show (step_down_and_recycle_primary i) h = refl

  Same-trans :
      (event event' : Fields) (r : Result Fields)
      → lookup j event' ≡ lookup j event
      → Same j event' r
      → Same j event r
  Same-trans event event' (ok o) e h = h ∙ e
  Same-trans event event' (err c) e h = tt

  with_counter-other :
      (event : Fields) → ("counter" == j) ≡ false → lookup j (with_counter event) ≡ lookup j event
  unfolding with_counter
  with_counter-other event h = elim (Bool-cases (contains "counter" event)) [
    | inl e ↦ rw e refl
    | inr e ↦ rw e (insert-other "counter" _ event h)
  ]

  increment_counter-Same :
      (event : Fields) → ("counter" == j) ≡ false → Same j event (increment_counter event)
  unfolding increment_counter
  increment_counter-Same event h =
      Same-trans event (with_counter event) (bump (with_counter event)) (with_counter-other event h)
        (counted-Same (with_counter event) (get_item (with_counter event) "counter") h)

  then-Same :
      (event : Fields) (r : Result Fields)
      → ("counter" == j) ≡ false
      → Same j event r
      → Same j event (r >>= increment_counter)
  then-Same event (ok o) h e =
      Same-trans event o (increment_counter o) e (increment_counter-Same o h)
  then-Same event (err c) h e = tt

  decided-Same :
      (show : Json → String) (d : Decision) (event : Fields)
      → ("counter" == j) ≡ false
      → ("message_content" == j) ≡ false
      → Same j (insert "decision" (decision_json d) event) (finish show d event)
  unfolding finish
  decided-Same show d event c m =
      let decided = insert "decision" (decision_json d) event in
      then-Same decided (report_done show d decided) c (report_done-Same decided show d m)

-- What the event that `finish` returns says, of the decision and of what it received.
pub record Kept (d : Decision) (event o : Fields) : Type 0 where
  pub decision : lookup "decision" o ≡ some (decision_json d)
  pub component : lookup "component" o ≡ lookup "component" event
  pub status : lookup "status" o ≡ lookup "status" event

pub finish-Kept :
    (show : Json → String) (d : Decision) (event o : Fields)
    → finish show d event ≡ ok o
    → Kept d event o
finish-Kept show d event o h =
    let same = λ (j : String) (c : ("counter" == j) ≡ false) (m : ("message_content" == j) ≡ false).
      rw h at (decided-Same j show d event c m) in
    record {
      decision = same "decision" refl refl ∙ simp lookup-insert refl;
      component = same "component" refl refl ∙ insert-other "component" "decision" _ event refl;
      status = same "status" refl refl ∙ insert-other "status" "decision" _ event refl;
    }
