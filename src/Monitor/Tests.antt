-- ===== src/Monitor/Tests.antt =====
-- The monitor at concrete inputs: a group of two instances that were launched a minute apart.
use aws_autorecycle.Base.{ℕ, String, ◌≡◌, refl, ◌↔◌, true, false, some, List, [], ◌∷◌, pos, arith}
use aws_autorecycle.Exceptions.{ok}
use aws_autorecycle.Json.{num, str, obj, Fields, end, field, lookup}
use aws_autorecycle.Monitor.Services.{Services, Instance, Asg, Activity}
use aws_autorecycle.Monitor.Checks.{
  check, check_instances, is_within, compare_start_times, gather_times, last_instance_activity_time,
}
use aws_autorecycle.Monitor.Checks.Times.{Near}
use aws_autorecycle.Monitor.Checks.Recycled.{Serving, check_instances_iff}
use aws_autorecycle.Monitor.Handler.{lambda_handler, too_long}
use aws_autorecycle.Monitor.Handler.Report.{
  Says, IsEvent, Verdict, lambda_handler-Verdict, lambda_handler-overdue,
}

abbrev serving : String → Instance
serving id = record { instance_id = id; health_status = "Healthy"; lifecycle_state = "InService" }

abbrev group : Asg
group = record { name = "web-asg-1"; max_size = 2; instances = serving "i-1" ∷ serving "i-2" ∷ [] }

abbrev launches : List Activity
launches =
    record { description = "Launching a new EC2 instance: i-2"; start_time = 160 }
    ∷ record { description = "Launching a new EC2 instance: i-1"; start_time = 100 }
    ∷ []

abbrev site : Services
site = record {
  World = Unit;
  describe_groups = λ w. (ok ((group ∷ []) ∷ []), w);
  describe_activities = λ name count w. (ok launches, w);
}

abbrev event_after : ℕ → Fields
event_after n = field "component" (str "web") (
    field "counter" (num (pos n))
      (field "channels" (str "event-recycling") (field "message_content" (obj end) end)))

event_after-IsEvent : (n : ℕ) → IsEvent "web" n end (event_after n)
unfolding lookup
event_after-IsEvent n = record { of_component = refl; counter = refl; content = refl }

launches_test : check_instances group launches ≡ true
unfolding check_instances gather_times last_instance_activity_time is_within compare_start_times
launches_test = refl

check_instances_iff_example :
    (check_instances group launches ≡ true)
    ↔ ((times : List ℕ) × Serving launches group.instances times × Near 120 times)
check_instances_iff_example = check_instances_iff group launches

lambda_handler-Verdict_example :
    Verdict (check site "web" tt).result 3 end (lambda_handler site (event_after 3) tt).result
    × ((lambda_handler site (event_after 3) tt).calls ≡ (check site "web" tt).calls)
lambda_handler-Verdict_example =
    lambda_handler-Verdict "web" 3 end (event_after 3) site tt (event_after-IsEvent 3) (omega arith)

channels_known : lookup "channels" (event_after 20) ≡ some (str "event-recycling")
unfolding lookup
channels_known = refl

lambda_handler-overdue_example :
    (o : Fields) × (lambda_handler site (event_after 20) tt
      ≡ record { result = ok o; calls = []; world = tt })
    × (lookup "status" o ≡ some (str "fail"))
    × Says false (some too_long) 20 end o
lambda_handler-overdue_example =
    lambda_handler-overdue "web" 20 end (event_after 20) site tt (str "event-recycling")
      (event_after-IsEvent 20) (omega arith) channels_known
