-- ===== src/Flows/InOut/Rounds.antt =====
-- How often the scaling lambda is invoked in one execution.
use aws_autorecycle.Base.{ℕ, ◌≤◌, pos, ◌≢◌, ◌≡◌, ◌⊎◌, Bool, true, Option, some}
use aws_autorecycle.Exceptions.{Result, ok}
use aws_autorecycle.ScaleAsg.Event.{Event, set}
use aws_autorecycle.ScaleAsg.Services.{Services}

-- An event after so many rounds, which says whether the recycling succeeded.
pub record Counts (n : ℕ) (succeeded : Bool) (event : Event) : Type 0 where
  pub counter : event.counter ≡ set (pos n)
  pub recycle_success : event.recycle_success ≡ set succeeded

-- The answer to a notice has another counter, or says something else of the success.
abbrev pub Altered : Event → Event → Type 0
Altered event answer =
    (answer.counter ≢ event.counter) ⊎ (answer.recycle_success ≢ event.recycle_success)

-- The machine left the loop with this result.
abbrev pub Ends : Result (Option Event) → Type 0
Ends r =
    (o : Event) × (n : ℕ) × (succeeded : Bool) × (r ≡ ok (some o))
    × Counts n succeeded o
    × (1 ≤ n)
    × (n ≤ 21)
    × ((succeeded ≡ true) ⊎ (n ≡ 21))
