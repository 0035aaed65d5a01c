-- ===== src/Flows/Consul/Lambdas.antt =====
-- The tasks of the state machine by the Consul lambdas. A lambda keeps the state of its process, the
-- file of the certificate, from one invocation to the next.
pub mod Assured
use aws_autorecycle.Base.{ℕ, String, Option}
use aws_autorecycle.Exceptions.{Exception, Result, NoneType}
use aws_autorecycle.Json.{Json}
use aws_autorecycle.Consul.Services.{Services, Process}
use aws_autorecycle.Consul.Nodes
use aws_autorecycle.Consul.Health
use aws_autorecycle.Consul.Terminate
use aws_autorecycle.Flows.Consul.{Tasks, Notice}

pub record Site (W : Type 0) : Type 0 where
  pub outside : W
  pub nodes_cert : Option String
  pub health_cert : Option String

-- What the machine uses beside the lambdas.
pub record Integrations (W : Type 0) : Type 0 where
  pub notify : Notice → W → Result NoneType × W
  pub leave : String → W → Result NoneType × W
  pub pause : ℕ → W → W

module _ (S : Services) (show : Json → String) (show_error : Exception → String)
    (environment : Option String) (arn : Option String) (I : Integrations S.World) where
  abbrev beside :
      {A : Type 0} → (S.World → Result A × S.World) → Site S.World → Result A × Site S.World
  beside f s = let (r, w) = f s.outside in (r, record s { outside = w })

  abbrev in_process : S.World → Option String → Process S.World
  in_process w cert = record { world = w; cert_path = cert }

  abbrev pub lambdas : Tasks
  lambdas = record {
    World = Site S.World;
    notify = λ notice. beside (I.notify notice);
    check_health = λ event s.
        let o =
          Health.lambda_handler S show show_error environment arn event
            (in_process s.outside s.health_cert) in
        (o.result, record s { outside = o.world.world; health_cert = o.world.cert_path });
    get_nodes = λ event s.
        let o =
          Nodes.lambda_handler S show show_error environment arn event
            (in_process s.outside s.nodes_cert) in
        (o.result, record s { outside = o.world.world; nodes_cert = o.world.cert_path });
    leave = λ ident. beside (I.leave ident);
    terminate = λ event s.
        let o =
          Terminate.lambda_handler S show show_error event (in_process s.outside Option.none) in
        (o.result, record s { outside = o.world.world });
    pause = λ seconds s. record s { outside = I.pause seconds s.outside };
  }
