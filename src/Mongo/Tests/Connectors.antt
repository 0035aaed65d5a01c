-- ===== src/Mongo/Tests/Connectors.antt =====
-- The connectors of src/mongo_recycler at concrete inputs.
use aws_autorecycle.Base.{String, ◌≡◌, refl, true, false, List, [], ◌∷◌}
use aws_autorecycle.Exceptions.{ok, collect}
use aws_autorecycle.Mongo.Services.{Call, Reservation, connected, got_config}
use aws_autorecycle.Mongo.Poll.{poll, poll_from, fails_with, pause, failure}
use aws_autorecycle.Mongo.Aws.{
  describe_mongodb_instances, recycle_instance, terminate_and_wait, one_resource, is_terminated,
  get_instance_state, instance_state, assert_terminated,
}
use aws_autorecycle.Mongo.Aws.Listing.{all_running, Listed, describe_mongodb_instances-Listed}
use aws_autorecycle.Mongo.Aws.Recycled.{Seen, recycle_instance-Seen}
use aws_autorecycle.Mongo.Database.{set_chaining}
use aws_autorecycle.Mongo.Database.Chaining.{Chained, set_chaining-Chained}
use aws_autorecycle.Mongo.Tests.{site, before, chosen, node}

set_chaining-Chained_example :
    (calls : List Call) × ((set_chaining site "rs0" false before).calls
      ≡ connected "rs0"
        ∷ got_config "rs0" (ok (record { chaining_allowed = true; version = 3; rest = "" }))
        ∷ calls)
    × Chained "rs0" false
        (record { chaining_allowed = true; version = 3; rest = "" })
        (set_chaining site "rs0" false before).result
        calls
set_chaining-Chained_example =
    set_chaining-Chained site "rs0" false
      (record { chaining_allowed = true; version = 3; rest = "" }) before refl refl

abbrev reservations : List Reservation
reservations = record { instances = node before ∷ [] } ∷ record { instances = [] } ∷ []

describe_mongodb_instances-Listed_example :
    Listed (all_running reservations) (collect (describe_mongodb_instances reservations))
describe_mongodb_instances-Listed_example = describe_mongodb_instances-Listed reservations

recycle_runs : (recycle_instance site chosen before).result ≡ ok tt
unfolding recycle_instance terminate_and_wait one_resource is_terminated get_instance_state
    instance_state assert_terminated poll poll_from fails_with pause failure
recycle_runs = refl

recycle_instance-Seen_example :
    (ident : String) × ((site.list_instances "i-1" before).0 ≡ ok (ident ∷ []))
    × ((site.terminate ident (site.list_instances "i-1" before).1).0 ≡ ok tt)
    × Seen site ident (site.terminate ident (site.list_instances "i-1" before).1).1
recycle_instance-Seen_example = recycle_instance-Seen site chosen before recycle_runs
