-- ===== src/Consul/Tests/Nodes.antt =====
-- The list of the nodes of the cluster of three.
use aws_autorecycle.Base.{◌≡◌, refl, none, List, [], ◌∷◌}
use aws_autorecycle.Exceptions.{ok}
use aws_autorecycle.Consul.Services.{Ec2Instance}
use aws_autorecycle.Consul.Leader.{leader_text, before_colon}
use aws_autorecycle.Consul.Nodes.{Node, list_nodes}
use aws_autorecycle.Consul.Nodes.Owned.{Lists, list_nodes-Lists}
use aws_autorecycle.Consul.Tests.{site, cluster, machine, started}

abbrev machines : List Ec2Instance
machines = machine "i-3" "10.0.0.3" ∷ machine "i-1" "10.0.0.1" ∷ machine "i-9" "10.0.0.9" ∷ []

list_nodes-Lists_example :
    (nodes : List Node) × ((list_nodes site "https://consul" none started).result ≡ ok nodes)
    × Lists (before_colon (leader_text "\"10.0.0.1:8300\"\n")) machines nodes
list_nodes-Lists_example =
    list_nodes-Lists site "https://consul" none started "\"10.0.0.1:8300\"\n" cluster machines refl
      refl refl
