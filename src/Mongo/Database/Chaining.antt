-- ===== src/Mongo/Database/Chaining.antt =====
-- What setting the chaining does to the configuration of a replica set.
use aws_autorecycle.Base.{
  ◌+◌, String, ◌≡◌, ◌≢◌, refl, Bool-cases, inl, inr, Bool, true, false, List, [], ◌∷◌, arith,
}
use aws_autorecycle.Exceptions.{Exception, Result, ok, err, Result-cases}
use aws_autorecycle.Mongo.Services.{
  Services, Call, ReplicaSetConfig, connected, got_config, reconfigured,
}
use aws_autorecycle.Mongo.Database.{same, apply_chaining, set_chaining}

-- The configuration that differs in the chaining and in the version, which is the next one.
abbrev pub with_chaining : Bool → ReplicaSetConfig → ReplicaSetConfig
with_chaining wanted config = record config {
  chaining_allowed = wanted;
  version = config.version + 1;
}

same-eq : (a b : Bool) → same a b ≡ true → a ≡ b
unfolding same
same-eq true b h = ground (arith, h)
same-eq false true h = ground arith
same-eq false false h = refl

same-ne : (a b : Bool) → same a b ≡ false → a ≢ b
unfolding same
same-ne true b h = λ e. ground (arith, e, h)
same-ne false true h = λ e. ground (arith, e)
same-ne false false h = λ e. ground (arith, h)

-- What a run did with the configuration that it read: its result and its calls.
pub data Chained (host : String) (wanted : Bool) (config : ReplicaSetConfig)
    : Result ReplicaSetConfig → List Call → Type 0 where
  kept : config.chaining_allowed ≡ wanted → Chained host wanted config (ok config) []
  changed :
      config.chaining_allowed ≢ wanted
      → Chained host wanted config
          (ok (with_chaining wanted config))
          (reconfigured host (with_chaining wanted config) (ok tt) ∷ [])
  refused :
      {e : Exception}
      → config.chaining_allowed ≢ wanted
      → Chained host wanted config
          (err e)
          (reconfigured host (with_chaining wanted config) (err e) ∷ [])

module _ (S : Services) (host : String) (wanted : Bool) where
  apply_chaining-Chained :
      (config : ReplicaSetConfig) (w : S.World)
      → Chained host wanted config
          (apply_chaining S host wanted config w).result
          (apply_chaining S host wanted config w).calls
  unfolding apply_chaining
  apply_chaining-Chained config w = elim (Bool-cases (same config.chaining_allowed wanted)) [
    | inl e ↦ rw (e, apply_chaining) (kept (same-eq config.chaining_allowed wanted e))
    | inr e ↦ elim (Result-cases (S.reconfigure host (with_chaining wanted config) w).0) [
      | inl (_, h) ↦ rw (e, h, apply_chaining) (changed (same-ne config.chaining_allowed wanted e))
      | inr (c, h) ↦ rw (e, h, apply_chaining) (refused (same-ne config.chaining_allowed wanted e))
    ]
  ]

  -- If the host answers with a configuration, this is left alone where its chaining is as wanted, and
  -- otherwise the host is asked once to take the one that differs from it in the chaining and has the
  -- next version; the result is the configuration in force, or the exception of that request.
  pub set_chaining-Chained :
      (config : ReplicaSetConfig) (w : S.World)
      → (S.connect host w).0 ≡ ok tt
      → (S.get_config host (S.connect host w).1).0 ≡ ok config
      → (calls : List Call) × ((set_chaining S host wanted w).calls
          ≡ connected host ∷ got_config host (ok config) ∷ calls)
        × Chained host wanted config (set_chaining S host wanted w).result calls
  unfolding set_chaining
  set_chaining-Chained config w c g =
      let w' = (S.get_config host (S.connect host w).1).1 in
      (
        (apply_chaining S host wanted config w').calls,
        rw (c, g) refl,
        rw (c, g) (apply_chaining-Chained config w'),
      )
