-- ===== src/Consul/Certificate.antt =====
-- The class `CaCertificate`, `get_ssl_context` and `get_consul_host` of src/get_consul_nodes/main.py,
-- which src/check_consul_health/main.py repeats.
pub mod Caching
use aws_autorecycle.Base.{String, ◌<>◌, Bool, Option, none, some, [], ◌==◌, if◌then◌else◌}
use aws_autorecycle.Exceptions.{NoneType, ok, type_error}
use aws_autorecycle.Effect.{pure, raise, ◌>>=◌, ◌>>◌}
use aws_autorecycle.Json.{Json, Fields, lookup, format}
use aws_autorecycle.Consul.Services.{
  Services, Run, SslContext, get_parameter, write_file, load_verify_locations,
}

-- `if text:`, for a text that may be missing or empty
abbrev pub is_given : Option String → Bool
is_given none = Bool.false
is_given (some name) = if name == "" then Bool.false else Bool.true

-- `f"{text}"` of a variable of the environment
abbrev shown : Option String → String
shown none = "None"
shown (some text) = text

-- `event.get("cluster", environment)`
cluster_of : (Json → String) → Option String → Fields → String
unfolding format
cluster_of show environment event = elim (lookup "cluster" event) [
  | none ↦ shown environment
  | some c ↦ format show c
]

unfoldable pub get_consul_host : (Json → String) → Option String → Fields → String
unfolding cluster_of
get_consul_host show environment event =
    "https://consul-"
    <> (cluster_of show environment event <> ("." <> (shown environment <> ".mdtp:8501")))

module _ (S : Services) where
  abbrev pub cached : Run S (Option String)
  cached p = pure p.cert_path p

  -- `self._cert_path = ...`
  abbrev keep : Option String → Run S NoneType
  keep path p = record { result = ok tt; calls = []; world = record p { cert_path = path } }

  unfoldable pub retrieve_cert : String → Run S NoneType
  retrieve_cert arn = do
    content ← get_parameter S arn
    path ← write_file S content
    keep (some path)

  -- The property `cert_path`.
  unfoldable pub cert_path : Option String → Run S (Option String)
  cert_path none = cached
  cert_path (some arn) = do
    path ← cached
    elim path [
      | none ↦ if is_given (some arn) then (do retrieve_cert arn; cached) else pure none
      | some p ↦ pure (some p)
    ]

  -- `ctx.load_verify_locations(path)` on a new context
  abbrev load_locations : Option String → Run S SslContext
  load_locations none = raise type_error
  load_locations (some path) = do load_verify_locations S path; pure (some path)

  unfoldable pub get_ssl_context : Option String → Run S SslContext
  get_ssl_context arn = do
    path ← cert_path arn
    if is_given path then (do file ← cert_path arn; load_locations file) else pure none
