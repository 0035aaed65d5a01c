-- ===== src/Consul/Trust.antt =====
-- How a process comes to trust a Consul cluster: the order in which the functions of
-- src/get_consul_nodes/main.py and src/check_consul_health/main.py fetch the certificate, load it and
-- ask Consul.
pub mod Handlers
use aws_autorecycle.Base.{
  String, ◌≡◌, ◌≢◌, refl, sym, ◌∙◌, ap, inl, inr, Bool, true, false, ◌&&◌, Option, none, some, List,
  [], ◌∷◌, ◌==◌, eq_iff, arith, if◌then◌else◌, Option-cases, Bool-cases,
}
use aws_autorecycle.Exceptions.{Result, ok, err, NoneType, Result-cases}
use aws_autorecycle.Effect.Follows.{accept, then_accept}
use aws_autorecycle.Consul.Services.{
  Services, Process, SslContext, Call, got_parameter, wrote_file, loaded, read_leader, read_members,
  read_peers, terminated, described_instances,
}
use aws_autorecycle.Consul.Certificate.{is_given, cert_path, retrieve_cert, get_ssl_context}

-- Nothing fetched; the content of the parameter fetched; the file that holds it written; that file
-- loaded into the context; a failure.
pub data Stage : Type 0 where
  unfetched broken : Stage
  fetched kept trusted : String → Stage

-- Where a process stands at the start of a run.
abbrev pub stage_of : Option String → Stage
stage_of none = unfetched
stage_of (some path) = kept path

abbrev or_broken : (String → Stage) → Result String → Stage
or_broken stage (ok text) = stage text
or_broken stage (err e) = broken

abbrev after_load : String → Result NoneType → Stage
after_load path (ok _) = trusted path
after_load path (err e) = broken

abbrev is_file : String → SslContext → Bool
is_file path none = false
is_file path (some file) = file == path

abbrev request : (arn host : String) → String → String → SslContext → Option Stage
request arn host path h context =
    if h == host && is_file path context then some (trusted path) else none

module _ (arn host : String) where
  -- The stage after a call, or `none` if the call is not allowed.
  unfoldable pub next_stage : Stage → Call → Option Stage
  next_stage unfetched (got_parameter name r) =
      if name == arn then some (or_broken fetched r) else none
  next_stage (fetched text) (wrote_file content r) =
      if content == text then some (or_broken kept r) else none
  next_stage (kept path) (loaded file r) = if file == path then some (after_load path r) else none
  next_stage (trusted path) (read_leader h context) = request arn host path h context
  next_stage (trusted path) (read_members h context) = request arn host path h context
  next_stage (trusted path) (read_peers h context) = request arn host path h context
  next_stage (trusted path) (described_instances ips) = some (trusted path)
  next_stage _ _ = none

-- The documented name of a temporary file is not empty.
abbrev IsNamed : Result String → Type 0
IsNamed (ok path) = path ≢ ""
IsNamed (err e) = Unit

abbrev pub NamesFiles : Services → Type 0
NamesFiles S = (text : String) (w : S.World) → IsNamed (S.write_file text w).0

-- A context that was made has loaded the file.
abbrev pub Ready : Result SslContext → Stage → Type 0
Ready (ok context) q = (path : String) × (q ≡ trusted path) × (context ≡ some path)
Ready (err e) q = Unit

same_text : (s : String) → (s == s) ≡ true
same_text s = (eq_iff s s).1 refl

given : (text : String) → text ≢ "" → is_given (some text) ≡ true
given text h = ground (arith, eq_iff text "")

module _ (arn host : String) where
  abbrev takes : Stage → List Call → Option Stage
  takes stage calls = accept (next_stage arn host) stage calls

  takes_next :
      (stage after : Stage) (c : Call) (calls : List Call) (o : Option Stage)
      → next_stage arn host stage c ≡ some after
      → takes after calls ≡ o
      → takes stage (c ∷ calls) ≡ o
  takes_next stage after c calls o e h = ap (λ s. then_accept (next_stage arn host) s calls) e ∙ h

  step_load :
      (path : String) (r : Result NoneType)
      → next_stage arn host (kept path) (loaded path r) ≡ some (after_load path r)
  unfolding next_stage
  step_load path r = rw (same_text path) refl

  takes_load :
      (path : String) (r : Result NoneType)
      → takes (kept path) (loaded path r ∷ []) ≡ some (after_load path r)
  takes_load path r =
      takes_next (kept path) (after_load path r) (loaded path r) [] _ (step_load path r) refl

  step_write :
      (text : String) (r : Result String)
      → next_stage arn host (fetched text) (wrote_file text r) ≡ some (or_broken kept r)
  unfolding next_stage
  step_write text r = rw (same_text text) refl

  takes_write :
      (text : String) (r : Result String) (calls : List Call) (q : Stage)
      → takes (or_broken kept r) calls ≡ some q
      → takes (fetched text) (wrote_file text r ∷ calls) ≡ some q
  takes_write text r calls q h =
      takes_next (fetched text) (or_broken kept r) (wrote_file text r) calls _ (step_write text r) h

  step_fetch :
      (r : Result String)
      → next_stage arn host unfetched (got_parameter arn r) ≡ some (or_broken fetched r)
  unfolding next_stage
  step_fetch r = rw (same_text arn) refl

  takes_fetch :
      (r : Result String) (calls : List Call) (q : Stage)
      → takes (or_broken fetched r) calls ≡ some q
      → takes unfetched (got_parameter arn r ∷ calls) ≡ some q
  takes_fetch r calls q h =
      takes_next unfetched (or_broken fetched r) (got_parameter arn r) calls _ (step_fetch r) h

module _ (S : Services) (arn host : String) where
  -- The run makes only calls that are allowed, and then is ready.
  abbrev pub Prepares : Stage → Process S.World → Type 0
  Prepares start p =
      (q : Stage) × (accept (next_stage arn host) start (get_ssl_context S (some arn) p).calls
        ≡ some q)
      × Ready (get_ssl_context S (some arn) p).result q

  Prepares-kept :
      (path : String) (w : S.World)
      → path ≢ ""
      → Prepares (kept path) (record { world = w; cert_path = some path })
  unfolding get_ssl_context cert_path
  Prepares-kept path w n = elim (Result-cases (S.load_verify_locations path w).0) [
    | inl (a, l) ↦
        rw (given path n, l) (trusted path, takes_load arn host path (ok a), (path, refl, refl))
    | inr (e, l) ↦ rw (given path n, l) (broken, takes_load arn host path (err e), tt)
  ]

  module _ (names : NamesFiles S) (configured : arn ≢ "") where
    Prepares-unfetched : (w : S.World) → Prepares unfetched (record { world = w; cert_path = none })
    unfolding get_ssl_context cert_path retrieve_cert
    Prepares-unfetched w = elim (Result-cases (S.get_parameter arn w).0) [
      | inr (e, g) ↦
          rw (given arn configured, g) (broken, takes_fetch arn host (err e) [] broken refl, tt)
      | inl (text, g) ↦
          let w1 = (S.get_parameter arn w).1 in
          elim (Result-cases (S.write_file text w1).0) [
            | inr (e, f) ↦
                rw (given arn configured, g, f)
                  (
                    broken,
                    takes_fetch arn host (ok text) (wrote_file text (err e) ∷ []) broken
                        (takes_write arn host text (err e) [] broken refl),
                    tt,
                  )
            | inl (path, f) ↦
                let w2 = (S.write_file text w1).1 in
                let n : path ≢ "" = rw f at (names text w1) in
                let taken =
                  λ (q : Stage) (r : Result NoneType)
                      (h : takes arn host (kept path) (loaded path r ∷ []) ≡ some q).
                    takes_fetch arn host (ok text) (wrote_file text (ok path) ∷ loaded path r ∷ [])
                      q (takes_write arn host text (ok path) (loaded path r ∷ []) q h) in
                elim (Result-cases (S.load_verify_locations path w2).0) [
                  | inl (a, l) ↦
                      rw (given arn configured, g, f, given path n, l)
                        (
                          trusted path,
                          taken (trusted path) (ok a) (takes_load arn host path (ok a)),
                          (path, refl, refl),
                        )
                  | inr (e, l) ↦
                      rw (given arn configured, g, f, given path n, l)
                        (broken, taken broken (err e) (takes_load arn host path (err e)), tt)
                ]
          ]
    ]
