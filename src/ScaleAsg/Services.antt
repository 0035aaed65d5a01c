-- ===== src/ScaleAsg/Services.antt =====
-- The services that src/autorecycle_scale_asg calls: boto3's autoscaling client and the clock.
use aws_autorecycle.Base.{ℕ, String, List, [], Option}
use aws_autorecycle.Exceptions.{Result, ok, NoneType}
use aws_autorecycle.Effect
use aws_autorecycle.Effect.{ask}

-- An instance of a group, with the version of its launch template if it has one.
pub record AsgInstance : Type 0 where
  pub instance_id : String
  pub launch_template : Option String

pub record Asg : Type 0 where
  pub name : String
  pub instances : List AsgInstance
  pub launch_template : Option String

-- A scaling activity. Times are in seconds, in UTC.
pub record Activity : Type 0 where
  pub progress : Option ℕ
  pub status_code : Option String
  pub end_time : Option ℕ

pub data Call : Type 0 where
  described_groups : Result (List (List Asg)) → Call
  described_activities : String → Result (List Activity) → Call
  executed_policy : String → String → Call

pub record Services : Type 1 where
  pub World : Type 0
  -- all pages of the paginator
  pub describe_groups : World → Result (List (List Asg)) × World
  pub describe_activities : String → ℕ → World → Result (List Activity) × World
  pub execute_policy : String → String → World → Result NoneType × World
  pub now : World → ℕ × World

module _ (S : Services) where
  abbrev pub Run : Type 0 → Type 0
  Run A = Effect.Run S.World Call A

  abbrev pub describe_groups : Run (List (List Asg))
  describe_groups = ask described_groups S.describe_groups

  abbrev pub describe_activities : String → ℕ → Run (List Activity)
  describe_activities name count =
      ask (described_activities name) (S.describe_activities name count)

  abbrev pub execute_policy : String → String → Run NoneType
  execute_policy name policy = ask (λ _. executed_policy name policy) (S.execute_policy name policy)

  abbrev pub now : Run ℕ
  now w = let (t, w') = S.now w in record { result = ok t; calls = []; world = w' }
