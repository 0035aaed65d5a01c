-- ===== src/Monitor/Services.antt =====
-- What src/monitor_autorecycle/main.py calls: boto3's autoscaling client.
use aws_autorecycle.Base.{ℕ, String, List}
use aws_autorecycle.Exceptions.{Result}
use aws_autorecycle.Effect
use aws_autorecycle.Effect.{ask}

pub record Instance : Type 0 where
  pub instance_id : String
  pub health_status : String
  pub lifecycle_state : String

pub record Asg : Type 0 where
  pub name : String
  pub max_size : ℕ
  pub instances : List Instance

-- A scaling activity, with its time in seconds.
pub record Activity : Type 0 where
  pub description : String
  pub start_time : ℕ

pub data Call : Type 0 where
  described_groups : Call
  described_activities : String → Call

pub record Services : Type 1 where
  pub World : Type 0
  -- all pages of the paginator
  pub describe_groups : World → Result (List (List Asg)) × World
  pub describe_activities : String → ℕ → World → Result (List Activity) × World

module _ (S : Services) where
  abbrev pub Run : Type 0 → Type 0
  Run A = Effect.Run S.World Call A

  abbrev pub describe_groups : Run (List (List Asg))
  describe_groups = ask (λ _. described_groups) S.describe_groups

  abbrev pub describe_activities : String → ℕ → Run (List Activity)
  describe_activities name count =
      ask (λ _. described_activities name) (S.describe_activities name count)
