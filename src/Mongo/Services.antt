-- ===== src/Mongo/Services.antt =====
-- The services that src/mongo_recycler calls: what it reads of their answers, and their calls.
-- boto3, pymongo, tenacity and the clock are outside the repository: `Services` holds them as
-- functions of an unknown state of the world, and each may raise.
use aws_autorecycle.Base.{ℕ, String, Bool, List, Option}
use aws_autorecycle.Exceptions.{Result, NoneType}
use aws_autorecycle.Effect
use aws_autorecycle.Effect.{ask}

pub record NetworkInterface : Type 0 where
  pub private_ip_address : String
  pub delete_on_termination : Bool

pub record Ec2Instance : Type 0 where
  pub instance_id : String
  pub image_id : String
  pub state_name : String
  pub network_interfaces : List NetworkInterface

pub record Reservation : Type 0 where
  pub instances : List Ec2Instance

pub record LaunchTemplate : Type 0 where
  pub launch_template_id : String
  pub latest_version_number : ℕ

pub record LaunchTemplateVersion : Type 0 where
  pub image_id : Option String

-- An entry of `members` in the answer to replSetGetStatus.
pub record Member : Type 0 where
  pub name : String
  pub state_str : String
  pub sync_source_host : Option String

pub record ReplicaSetStatus : Type 0 where
  pub ok_code : ℕ
  pub my_state : Option ℕ
  pub set_name : String
  pub members : List Member

-- The answer to replSetGetConfig. `rest` is all that the code passes on unread.
pub record ReplicaSetConfig : Type 0 where
  pub chaining_allowed : Bool
  pub version : ℕ
  pub rest : String

-- What a run calls, in the order of the calls, with the answers that matter to what follows.
pub data Call : Type 0 where
  described_launch_templates : String → Call
  described_launch_template_versions : String → String → Call
  described_instances : List String → Call
  described_instance : String → Call
  listed_instances : String → Call
  terminated : String → Call
  put_item : String → ℕ → Call
  slept : ℕ → Call
  connected : String → Call
  got_status : String → Result ReplicaSetStatus → Call
  got_config : String → Result ReplicaSetConfig → Call
  reconfigured : String → ReplicaSetConfig → Result NoneType → Call
  stepped_down : String → ℕ → Result NoneType → Call

pub record Services : Type 1 where
  pub World : Type 0
  -- boto3: ec2 and dynamodb
  pub describe_launch_templates : String → World → Result (List LaunchTemplate) × World
  pub describe_launch_template_versions :
      String → String → World → Result (List LaunchTemplateVersion) × World
  pub describe_instances : List String → World → Result (List Reservation) × World
  pub describe_instance : String → World → Result (List Reservation) × World
  -- the identifiers of the objects in `resource.instances.filter(InstanceIds=[id]).all()`
  pub list_instances : String → World → Result (List String) × World
  pub terminate : String → World → Result NoneType × World
  pub put : String → ℕ → World → Result NoneType × World
  pub time : World → Result ℕ × World
  pub sleep : ℕ → World → World
  -- `Mongo._connect`: `pymongo.MongoClient` and a ping, under the retries of tenacity
  pub connect : String → World → Result NoneType × World
  pub get_status : String → World → Result ReplicaSetStatus × World
  pub get_config : String → World → Result ReplicaSetConfig × World
  pub reconfigure : String → ReplicaSetConfig → World → Result NoneType × World
  pub replace_primary : String → ℕ → World → Result NoneType × World

module _ (S : Services) where
  abbrev pub Run : Type 0 → Type 0
  Run A = Effect.Run S.World Call A

  abbrev pub describe_launch_templates : String → Run (List LaunchTemplate)
  describe_launch_templates pattern =
      ask (λ _. described_launch_templates pattern) (S.describe_launch_templates pattern)

  abbrev pub describe_launch_template_versions : String → String → Run (List LaunchTemplateVersion)
  describe_launch_template_versions ident version =
      ask (λ _. described_launch_template_versions ident version)
        (S.describe_launch_template_versions ident version)

  abbrev pub describe_instances : List String → Run (List Reservation)
  describe_instances names = ask (λ _. described_instances names) (S.describe_instances names)

  abbrev pub describe_instance : String → Run (List Reservation)
  describe_instance ident = ask (λ _. described_instance ident) (S.describe_instance ident)

  abbrev pub list_instances : String → Run (List String)
  list_instances ident = ask (λ _. listed_instances ident) (S.list_instances ident)

  abbrev pub terminate : String → Run NoneType
  terminate ident = ask (λ _. terminated ident) (S.terminate ident)

  abbrev pub put : String → ℕ → Run NoneType
  put name expiry = ask (λ _. put_item name expiry) (S.put name expiry)

  abbrev pub time : Run ℕ
  time w = let (r, w') = S.time w in record { result = r; calls = List.[]; world = w' }

  abbrev pub sleep : ℕ → Run NoneType
  sleep seconds = ask (λ _. slept seconds) (λ w. (Result.ok tt, S.sleep seconds w))

  abbrev pub connect : String → Run NoneType
  connect host = ask (λ _. connected host) (S.connect host)

  abbrev pub get_status : String → Run ReplicaSetStatus
  get_status host = ask (got_status host) (S.get_status host)

  abbrev pub get_config : String → Run ReplicaSetConfig
  get_config host = ask (got_config host) (S.get_config host)

  abbrev pub reconfigure : String → ReplicaSetConfig → Run NoneType
  reconfigure host config = ask (reconfigured host config) (S.reconfigure host config)

  abbrev pub replace_primary : String → ℕ → Run NoneType
  replace_primary host seconds = ask (stepped_down host seconds) (S.replace_primary host seconds)
