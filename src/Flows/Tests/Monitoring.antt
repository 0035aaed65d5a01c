-- ===== src/Flows/Tests/Monitoring.antt =====
-- The monitoring of a recycling that src/autorecycle asked for, in a site without groups.
use aws_autorecycle.Base.{refl, none, true, []}
use aws_autorecycle.Exceptions.{ok}
use aws_autorecycle.Json.{str, Fields, lookup, format}
use aws_autorecycle.Autorecycle.{output}
use aws_autorecycle.Monitor.Services.{Services}
use aws_autorecycle.Flows.Monitoring.{monitoring}
use aws_autorecycle.Flows.Monitoring.Ending.{Ends}
use aws_autorecycle.Flows.Monitoring.Bound.{Starts, monitoring-bound}

abbrev site : Services
site = record {
  World = Unit;
  describe_groups = λ w. (ok [], w);
  describe_activities = λ name count w. (ok [], w);
}

abbrev asked : Fields
asked = output (λ v. "{}") none (str "web") true (str "events")

asked-Starts : Starts asked
unfolding output lookup format
asked-Starts = record {
  component = "web";
  message = _;
  channels = str "events";
  of_component = refl;
  content = refl;
  has_channels = refl;
  no_counter = refl;
}

monitoring-bound_example : Ends (monitoring site 21 asked tt).result
monitoring-bound_example = monitoring-bound asked asked-Starts site tt
