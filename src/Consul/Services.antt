-- ===== src/Consul/Services.antt =====
-- What the Consul functions call: boto3's ssm and ec2 clients, the file system, and Consul's HTTP
-- interface. A request has the outcome of `urlopen`, of the reading and, where the code parses JSON,
-- of the parsing.
use aws_autorecycle.Base.{String, Option, List}
use aws_autorecycle.Exceptions.{Result, NoneType}
use aws_autorecycle.Effect
use aws_autorecycle.Effect.{ask}

pub record Member : Type 0 where
  pub addr : String

-- An instance with the addresses of its network interfaces.
pub record Ec2Instance : Type 0 where
  pub instance_id : String
  pub addresses : List (Option String)

-- What `ssl.create_default_context` makes: the file that it loaded, if it loaded one. Without one it
-- trusts the certificates of the system.
abbrev pub SslContext : Type 0
SslContext = Option String

pub data Call : Type 0 where
  -- the name of the parameter, and the text of the file
  got_parameter wrote_file : String → Result String → Call
  loaded : String → Result NoneType → Call
  -- a request to the host
  read_leader read_members read_peers : String → SslContext → Call
  terminated : String → Call
  described_instances : List String → Call

pub record Services : Type 1 where
  pub World : Type 0
  pub get_parameter : String → World → Result String × World
  -- writes a temporary file and returns its name
  pub write_file : String → World → Result String × World
  -- reads the certificates of a file into a context
  pub load_verify_locations : String → World → Result NoneType × World
  pub leader : String → SslContext → World → Result String × World
  pub members : String → SslContext → World → Result (List Member) × World
  pub peers : String → SslContext → World → Result (List String) × World
  pub describe_instances : List String → World → Result (List Ec2Instance) × World
  pub terminate_instance : String → World → Result NoneType × World

-- The state of the process is `_cert_path` of the object `ca_certificate`.
pub record Process (W : Type 0) : Type 0 where
  pub world : W
  pub cert_path : Option String

module _ (S : Services) where
  abbrev pub Run : Type 0 → Type 0
  Run A = Effect.Run (Process S.World) Call A

  abbrev pub outside :
      {A : Type 0} → (S.World → Result A × S.World) → Process S.World → Result A × Process S.World
  outside f p = let (r, w) = f p.world in (r, record p { world = w })

  abbrev pub get_parameter : String → Run String
  get_parameter name = ask (got_parameter name) (outside (S.get_parameter name))

  abbrev pub write_file : String → Run String
  write_file text = ask (wrote_file text) (outside (S.write_file text))

  abbrev pub load_verify_locations : String → Run NoneType
  load_verify_locations path = ask (loaded path) (outside (S.load_verify_locations path))

  abbrev pub leader : String → SslContext → Run String
  leader host context = ask (λ _. read_leader host context) (outside (S.leader host context))

  abbrev pub members : String → SslContext → Run (List Member)
  members host context = ask (λ _. read_members host context) (outside (S.members host context))

  abbrev pub peers : String → SslContext → Run (List String)
  peers host context = ask (λ _. read_peers host context) (outside (S.peers host context))

  abbrev pub describe_instances : List String → Run (List Ec2Instance)
  describe_instances ips = ask (λ _. described_instances ips) (outside (S.describe_instances ips))

  abbrev pub terminate_instance : String → Run NoneType
  terminate_instance ident = ask (λ _. terminated ident) (outside (S.terminate_instance ident))
