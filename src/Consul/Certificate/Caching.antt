-- ===== src/Consul/Certificate/Caching.antt =====
-- The certificate is fetched once in the life of a process.
use aws_autorecycle.Base.{
  String, ◌≡◌, refl, Bool-cases, inl, inr, Option, none, some, List, [], arith,
}
use aws_autorecycle.Exceptions.{Result, ok, err, NoneType}
use aws_autorecycle.Effect.{Outcome, continue}
use aws_autorecycle.Consul.Services.{Services, Process, Call}
use aws_autorecycle.Consul.Certificate.{cached, cert_path, retrieve_cert, is_given}

module _ (S : Services) where
  -- What the process keeps is what the property returned.
  Kept : Option String → Outcome (Process S.World) Call (Option String) → Type 0
  Kept path o = o.result ≡ ok path → o.world.cert_path ≡ path

  then-cached :
      (path : Option String) (r : Result NoneType) (calls : List Call) (p : Process S.World)
      → Kept path (continue r calls p (λ _. cached S))
  unfolding Kept
  then-cached path (ok a) calls p h = ground arith
  then-cached path (err e) calls p h = ground arith

  cert_path-Kept :
      (arn : String) (path kept : Option String) (w : S.World)
      → Kept path (cert_path S (some arn) (record { world = w; cert_path = kept }))
  unfolding cert_path Kept
  cert_path-Kept arn path (some kept) w = λ h. ground arith
  cert_path-Kept arn path none w =
      let p : Process S.World = record { world = w; cert_path = none } in
      let o = retrieve_cert S arn p in
      elim (Bool-cases (is_given (some arn))) [
        | inl e ↦ rw e (then-cached path o.result o.calls o.world)
        | inr e ↦ rw e (λ h. ground arith)
      ]

  again :
      (arn path : String) (p : Process S.World)
      → p.cert_path ≡ some path
      → cert_path S (some arn) p ≡ record { result = ok (some path); calls = []; world = p }
  unfolding cert_path
  again arn path p h = rw h refl

  -- If a use of the certificate with a configured name returns a file, the next use returns the same
  -- file, calls nothing and changes nothing.
  pub cert_path-cached :
      (arn path : String) (p : Process S.World)
      → (cert_path S (some arn) p).result ≡ ok (some path)
      → cert_path S (some arn) (cert_path S (some arn) p).world
        ≡ record { result = ok (some path); calls = []; world = (cert_path S (some arn) p).world }
  unfolding Kept
  cert_path-cached arn path p h =
      again arn path (cert_path S (some arn) p).world
        (cert_path-Kept arn (some path) p.cert_path p.world h)
