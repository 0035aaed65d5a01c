-- ===== src/Lib.antt =====
-- aws-autorecycle: Lambda functions that recycle the instances of components in AWS.
--
-- Parts. Step functions (terraform/) call Lambda functions with a JSON event and pass on the event
-- that each returns. src/mongo_recycler recycles one node of a MongoDB replica set per invocation.
-- src/autorecycle_scale_asg scales one group of a component per invocation, and
-- src/monitor_autorecycle tells whether the instances of a group were replaced.
-- src/autorecycle_invoke_stepfunctions starts the recycling when a group was changed, and
-- src/autorecycle puts a request to recycle a component into a queue.
-- The Consul functions list the nodes of a cluster, check its health and terminate a node.
--
-- Base      Names of the libraries, Boolean tests, lists, text operations, integers.
-- Exceptions, Effect
--           Python's exceptions as values, and runs: a result, the calls made in their order, and
--           the state of the outside world. Effect.Follows has the rules for runs whose calls an
--           automaton accepts, Effect.Each for runs whose calls all have a property,
--           Effect.Returns for runs whose results have one, if they return.
-- Json      The events: dictionaries in insertion order, with Python's subscripts and `in`.
-- Mongo     src/mongo_recycler, one module for each of its files:
--   Models        models/instances.py, models/decision.py
--   Services      what the code calls (boto3, pymongo, tenacity, the clock): a record of functions
--                 over an unknown state of the world, each of which may raise
--   Poll          utils/poll.py
--   Aws           connectors/aws.py, class AWS (component and region are arguments)
--   Database      connectors/mongo.py, class Mongo; Connecting has `_connect` over pymongo's client and
--                 tenacity's `retry`, which fills `connect` of Services
--   Decision      process/decision.py
--   PreStepChecks process/pre_step_checks.py, process/instances.py
--   Health        process/replica_set_health.py, class ReplicaSetHealth
--   Execute, Step process/execute.py, process/step.py
--   Protocol      the order of calls that one invocation may make, independent of the code
--
-- ScaleAsg  src/autorecycle_scale_asg: one invocation makes one move in the recycling of the groups of
--           a component, and the event's counter limits how often.
--   Event         lambda_types.py, create_output_params of autorecycle.py
--   Schema        the types that lambda_types.py declares, as a check of a JSON event
--   Services      what the code calls (boto3's autoscaling client, the clock)
--   Autoscaling   autoscaling.py
--   NextAction    the rest of autorecycle.py
--   Handler       handler.py, with pydantic's validation and dump, ENVIRONMENT and repr as arguments
--
-- Monitor   src/monitor_autorecycle/main.py: whether a component's group was replaced.
--   Services      what the code calls (boto3's autoscaling client)
--   Checks        check, check_instances and what they call
--   Handler       _monitor_autorecycle and lambda_handler
--
-- Consul    the steps of the recycling of a Consul cluster:
--   Services      what the code calls (ssm, ec2, ssl, the file system, Consul's HTTP interface), and the
--                 state that a process keeps: the file of the certificate
--   Certificate   CaCertificate, get_consul_host and get_ssl_context of src/get_consul_nodes/main.py,
--                 which src/check_consul_health/main.py repeats (Health.Certificate)
--   Trust         the order in which a process fetches and loads its certificate and asks Consul
--   Leader        how the address of the leader is read
--   Nodes         src/get_consul_nodes/main.py
--   Health        src/check_consul_health/main.py
--   Terminate     src/terminate_consul_instance/main.py
--
-- Invoke    src/autorecycle_invoke_stepfunctions: from a change to a group to an execution of the step
--           function.
--   Services      what the code calls (boto3's autoscaling and stepfunctions, the clock, variables of
--                 the environment)
--   Component     get_component_details.py
--   Tags          aws.py
--   Handler       handler.py, sf_start_execution.py, get_account_details.py, get_environment.py
--
-- Autorecycle
--           src/autorecycle/autorecycle_lambda.py, with sqs as a parameter
--
-- Flows     the lambdas together:
--   Group         a group's change is recycled at that group
--   Strategy      the first choice of terraform/state_machine.tf, on the input of the execution
--   Consul        terraform/consul_recycle_state_machine.tf, over a record of its tasks; Lambdas has the
--                 tasks that the Consul lambdas make
--   Input         the input of an execution as the event of the scaling lambda
--   InOut         the loop of terraform/state_machine.tf for the strategy "in-out"
--   Mongo         its states for the strategy "mongo", over src/mongo_recycler
--   Monitoring    its loop over the monitor
--
-- Bounds. `in_out` and `monitoring` have the number of rounds as fuel, and 21 are enough.
-- `mongo_strategy` has the number of invocations as fuel: the state machine sets no bound, and what an
-- execution has done when it runs out is part of its theorem. No other fuel is used but in `show_ℕ`,
-- where the number of divisions is below the number. The loop of `poll` recurs on the attempts left,
-- `max_iters - i`, and `retry` on those that "MaxAttempts" leaves.
--
-- Not modelled. Logging and `print` (pure output), the names of regions and clients, the text of
-- `json.dumps`, and of terraform all but the states named above: the retries on errors of the Lambda
-- service, time limits, and the strategy "instance-refresh", whose lambdas are outside the
-- repository, are left out, as is the catch of "Recycle single instance ASG", since an invocation below
-- the counter 60 raises nothing. The lambda for notices in Slack is outside the repository. So is the code
-- of boto3, pymongo, tenacity, pydantic and ssl. An event's `component` is a text:
-- another value is a TypeError where the code would fail later. Numbers in events are integers.
-- Component names that are put into a regular expression hold no character that is special in one.
-- Lambda's local time is UTC.
pub mod Autorecycle
pub mod Base
pub mod Consul
pub mod Effect
pub mod Exceptions
pub mod Flows
pub mod Invoke
pub mod Json
pub mod Mongo
pub mod Monitor
pub mod ScaleAsg
