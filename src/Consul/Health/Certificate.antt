-- ===== src/Consul/Health/Certificate.antt =====
-- Lines 14 to 73 of src/check_consul_health/main.py, which are those of src/get_consul_nodes/main.py
-- to the letter.
use aws_autorecycle.Base.{String, Option}
use aws_autorecycle.Exceptions.{NoneType}
use aws_autorecycle.Json.{Json, Fields}
use aws_autorecycle.Consul.Services.{Services, Run, SslContext}
use aws_autorecycle.Consul.Certificate

abbrev pub get_consul_host : (Json → String) → Option String → Fields → String
get_consul_host show environment event = Certificate.get_consul_host show environment event

module _ (S : Services) where
  abbrev pub retrieve_cert : String → Run S NoneType
  retrieve_cert arn = Certificate.retrieve_cert S arn

  abbrev pub cert_path : Option String → Run S (Option String)
  cert_path arn = Certificate.cert_path S arn

  abbrev pub get_ssl_context : Option String → Run S SslContext
  get_ssl_context arn = Certificate.get_ssl_context S arn
