-- ===== src/Exceptions.antt =====
-- Python's exceptions, the program's own and those of its libraries, and the result of a function
-- that may raise one.
use aws_autorecycle.Base.{String, ◌≡◌, refl, ◌⊎◌, inl, inr, List, [], ◌∷◌, Option, none, some}

pub data Exception : Type 0 where
  -- Python's own
  key_error assertion_error : String → Exception
  index_error type_error attribute_error stop_iteration : Exception
  -- `raise Exception(message)`
  exception : String → Exception
  -- src/monitor_autorecycle/main.py
  scaled_down_asg : Exception
  -- botocore, pymongo, and any other exception of a library
  client_error library_error : String → Exception
  auto_reconnect : Exception
  -- src/mongo_recycler/connectors
  no_eni_found : String → Exception
  no_instances_found too_many_instances_found too_many_reservations_found : Exception
  instance_state_not_found mongo_request_failed : Exception
  -- src/mongo_recycler/process
  no_launch_templates_found launch_template_ami_mismatch : String → Exception
  mongo_replica_set_mismatch : Exception
  node_not_healthy primary_error secondary_not_healthy : String → Exception

pub data Result {ℓ} (A : Type ℓ) : Type ℓ where
  ok : A → Result A
  err : Exception → Result A

-- What a function returns that returns no value.
abbrev pub NoneType : Type 0
NoneType = Unit

infixl 5 ◌>>=◌ ◌>>◌
abbrev pub ◌>>=◌ {ℓ κ} : {A : Type ℓ} {B : Type κ} → Result A → (A → Result B) → Result B
ok a >>= f = f a
err e >>= f = err e

abbrev pub ◌>>◌ {ℓ κ} : {A : Type ℓ} {B : Type κ} → Result A → Result B → Result B
m >> k = m >>= λ _. k

-- `xs[0]`
abbrev pub first {ℓ} : {A : Type ℓ} → List A → Result A
first [] = err index_error
first (x ∷ xs) = ok x

-- `d[key]`, where a record holds an optional key of `d`
abbrev pub required {ℓ} : {A : Type ℓ} → String → Option A → Result A
required key none = err (key_error key)
required key (some a) = ok a

-- Runs a generator to its end: the first exception that it raises ends the run.
abbrev pub collect {ℓ} : {A : Type ℓ} → List (Result A) → Result (List A)
collect [] = ok []
collect (r ∷ rs) = do x ← r; xs ← collect rs; ok (x ∷ xs)

pub Result-cases {ℓ} :
    {A : Type ℓ} (r : Result A) → ((a : A) × (r ≡ ok a)) ⊎ ((e : Exception) × (r ≡ err e))
Result-cases (ok a) = inl (a, refl)
Result-cases (err e) = inr (e, refl)
