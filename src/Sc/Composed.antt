-- ===== src/Sc/Composed.antt =====
-- The cluster client as the Backend of sc. Each command reads the clock once; `turns` bounds the redirections
-- that one command follows.
use ipfs_nosql_frame.Prelude.{ℕ, suc, List, Bytes}
use ipfs_nosql_frame.Rediscluster.Node.Command.{string}
use ipfs_nosql_frame.Rediscluster.Cluster.State.{Calls, Answer}
use ipfs_nosql_frame.Rediscluster.Cluster.Select.{get_node_by_key, or_fail, address_of}
use ipfs_nosql_frame.Rediscluster.Cluster.Select
use ipfs_nosql_frame.Rediscluster.Cluster.Route.{System}
use ipfs_nosql_frame.Rediscluster.Cluster.Commands
use ipfs_nosql_frame.Sc.Backend.{Backend}

module _ {Float : Type 0} (N : Calls Float) (format_float : Float → Bytes) (runes : Bytes → List ℕ)
    (clock : ℕ → ℕ) (turns : ℕ) where
  abbrev tick : ℕ → Answer × System N → Answer × (ℕ × System N)
  tick i (answer, s) = (answer, (suc i, s))

  -- The number counts the commands, of which each has its instant of the clock.
  abbrev pub cluster_backend : Backend Float
  cluster_backend = record {
    World = ℕ × System N;
    do_command = λ cmd args w.
        tick w.0 (Commands.do_command N format_float runes (clock w.0) turns cmd args w.1);
    get_node_addr_by_key =
        λ key w. Select.get_node_addr_by_key format_float runes (string key) w.1.0;
  }
