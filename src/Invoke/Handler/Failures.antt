-- ===== src/Invoke/Handler/Failures.antt =====
-- When an event starts nothing, and which failures of a start are forgiven.
use mathlib.Core.Path.{subst}
use aws_autorecycle.Base.{
  String, ◌≡◌, refl, ap, sym, ◌∙◌, ◌⊎◌, inl, inr, none, some, List, [], ◌∷◌, Option-cases,
}
use aws_autorecycle.Exceptions.{Exception, Result, ok, err, key_error, NoneType, Result-cases}
use aws_autorecycle.Json.{Json, Fields}
use aws_autorecycle.Invoke.Services.{Services, Environment, Call, searched_groups}
use aws_autorecycle.Invoke.Component.{get_component_name}
use aws_autorecycle.Invoke.Tags.{group_query, get_asg}
use aws_autorecycle.Invoke.Handler.{recycle, lambda_handler}

-- Why nothing is called, with the result.
pub data Quiet (env : Environment) (event : Fields) : Result NoneType → Type 0 where
  no_component : get_component_name event ≡ ok none → Quiet env event (ok tt)
  not_read : {e : Exception} → get_component_name event ≡ err e → Quiet env event (err e)
  no_account :
      {component : String}
      → get_component_name event ≡ ok (some component)
      → env.account_id ≡ none
      → Quiet env event (err (key_error "ACCOUNT_ID"))
  no_channel :
      {component account : String}
      → get_component_name event ≡ ok (some component)
      → env.account_id ≡ some account
      → env.slack_channel ≡ none
      → Quiet env event (err (key_error "SLACK_CHANNEL"))

abbrev tail : List Call → List Call
tail [] = []
tail (c ∷ calls) = calls

module _ (S : Services) (show : Json → String) (env : Environment) (event : Fields)
    (w : S.World) where
  searches :
      (component account channel : String) (found : Result (List String))
      → get_component_name event ≡ ok (some component)
      → env.account_id ≡ some account
      → env.slack_channel ≡ some channel
      → (S.search_groups (group_query component) w).0 ≡ found
      → (lambda_handler S show env event w).calls
        ≡ searched_groups (group_query component) ∷ tail (lambda_handler S show env event w).calls
  unfolding lambda_handler recycle get_asg
  searches component account channel (err e) h a c f = rw (h, a, c, f) refl
  searches component account channel (ok []) h a c f = rw (h, a, c, f) refl
  searches component account channel (ok (group ∷ groups)) h a c f = rw (h, a, c, f) refl

  -- A run that calls nothing, by its result.
  quiet :
      (r : Result NoneType)
      → (lambda_handler S show env event w ≡ record { result = r; calls = []; world = w })
      → Quiet env event r
      → ((lambda_handler S show env event w).calls ≡ [])
        × ((lambda_handler S show env event w).world ≡ w)
        × Quiet env event (lambda_handler S show env event w).result
  quiet r e q = (
    ap (λ o. o.calls) e,
    ap (λ o. o.world) e,
    subst (Quiet env event) (sym (ap (λ o. o.result) e)) q,
  )

  -- Either the search for the group of the event's component is the first call, or nothing is called
  -- and the world stays as it is: then the event gives no component, where the lambda returns, or
  -- reading it, the account or the channel raises the exception that the lambda ends with.
  pub lambda_handler-Quiet :
      ((component : String) × (rest : List Call) × (get_component_name event ≡ ok (some component))
        × ((lambda_handler S show env event w).calls
            ≡ searched_groups (group_query component) ∷ rest))
      ⊎ (((lambda_handler S show env event w).calls ≡ [])
          × ((lambda_handler S show env event w).world ≡ w)
          × Quiet env event (lambda_handler S show env event w).result)
  unfolding lambda_handler recycle get_asg
  lambda_handler-Quiet = elim (Result-cases (get_component_name event)) [
    | inr (e, h) ↦ inr (quiet (err e) (rw h refl) (not_read h))
    | inl (o, h) ↦ elim (Option-cases o) [
      | inl n ↦ inr (quiet (ok tt) (rw (h, n) refl) (no_component (h ∙ rw n refl)))
      | inr (c, n) ↦
          let named : get_component_name event ≡ ok (some c) = h ∙ rw n refl in
          elim (Option-cases env.account_id) [
            | inl a ↦
                inr (quiet (err (key_error "ACCOUNT_ID")) (rw (named, a) refl) (no_account named a))
            | inr (account, a) ↦ elim (Option-cases env.slack_channel) [
              | inl s ↦ inr (
                  quiet (err (key_error "SLACK_CHANNEL")) (rw (named, a, s) refl)
                    (no_channel named a s))
              | inr (channel, s) ↦ inl (
                c,
                tail (lambda_handler S show env event w).calls,
                named,
                searches c account channel _ named a s refl,
              )
            ]
          ]
    ]
  ]
