-- ===== src/Invoke/Services.antt =====
-- What src/autorecycle_invoke_stepfunctions calls: boto3's autoscaling and stepfunctions clients, the
-- clock as `strftime` writes it, and the variables of the environment.
use aws_autorecycle.Base.{String, Option, List, []}
use aws_autorecycle.Exceptions.{Result, ok, NoneType}
use aws_autorecycle.Effect
use aws_autorecycle.Effect.{ask}
use aws_autorecycle.Json.{Fields}

pub record Tag : Type 0 where
  pub key : String
  pub content : String

pub data Call : Type 0 where
  searched_groups : String → Call
  described_tags : String → List String → Call
  -- the state machine, the name of the execution and its input
  started_execution : String → String → Fields → Call

pub record Services : Type 1 where
  pub World : Type 0
  -- the names of the groups that a JMESPath query finds, up to the page of the first
  pub search_groups : String → World → Result (List String) × World
  -- the tags of a group with one of the keys
  pub describe_tags : String → List String → World → Result (List Tag) × World
  pub start_execution : String → String → Fields → World → Result NoneType × World
  -- `strftime("%Y%m%d%H%M%S", localtime())`
  pub timestamp : World → String × World

-- ACCOUNT_ID, SLACK_CHANNEL and ENVIRONMENT
pub record Environment : Type 0 where
  pub account_id : Option String
  pub slack_channel : Option String
  pub environment : Option String

module _ (S : Services) where
  abbrev pub Run : Type 0 → Type 0
  Run A = Effect.Run S.World Call A

  abbrev pub search_groups : String → Run (List String)
  search_groups query = ask (λ _. searched_groups query) (S.search_groups query)

  abbrev pub describe_tags : String → List String → Run (List Tag)
  describe_tags group keys = ask (λ _. described_tags group keys) (S.describe_tags group keys)

  abbrev pub start_execution : String → String → Fields → Run NoneType
  start_execution arn name input =
      ask (λ _. started_execution arn name input) (S.start_execution arn name input)

  abbrev pub timestamp : Run String
  timestamp w = let (t, w') = S.timestamp w in record { result = ok t; calls = []; world = w' }
