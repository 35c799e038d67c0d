-- ===== src/Cluster.antt =====
-- Cluster/clusteredBigCache.go and Cluster/config.go: the state of a node and of its remote nodes.
-- The remote nodes and the requests that the program has made lie in two lists, and a pointer to one is its
-- place there: the map of the peers, the queues and the handlers share them. A channel is the list of what
-- it holds, the oldest first. One step of a goroutine, as the handling of one message, is one call; the
-- order of the calls is free.
pub mod Peers
pub mod Handlers
pub mod Service
use clustered_big_cache.Prelude.{
  ℕ, ◌*◌, Bool, true, false, List, [], Option, none, some, get_or, set, if◌then◌else◌,
}
use clustered_big_cache.Prelude.Int.{ℤ, pos, pos_part, ltb_ℤ}
use clustered_big_cache.Prelude.Outcome.{Outcome, ok, err, panic, blocked}
use clustered_big_cache.Config.{Config, default_config}
use clustered_big_cache.Shard.{Deps}
use clustered_big_cache.BigCache.{BigCache, new_big_cache}
use clustered_big_cache.Message.{NodeMessage, ProposedPeer}
use clustered_big_cache.SliceList.{SliceList, new_slice_list}
use clustered_big_cache.Wire.{Receiver, RemoteNodeState, disconnected}
pub use clustered_big_cache.Wire.{chan_size}

-- The constants. `iota` counts on through the three groups.
abbrev pub replication_mode_full_replicate : ℕ
replication_mode_full_replicate = 0

abbrev pub cluster_state_starting : ℕ
cluster_state_starting = 2

abbrev pub cluster_state_started : ℕ
cluster_state_started = 3

abbrev pub cluster_state_ended : ℕ
cluster_state_ended = 4

abbrev pub cluster_mode_active : ℕ
cluster_mode_active = 5

abbrev pub cluster_mode_passive : ℕ
cluster_mode_passive = 6

-- The size of `joinQueue`
abbrev pub join_queue_size : ℕ
join_queue_size = 512

pub record ClusteredBigCacheConfig : Type 0 where
  pub id : List ℕ
  pub join : Bool
  pub join_ip : List ℕ
  pub local_addresses : List (List ℕ)
  pub local_port : ℤ
  pub bind_all : Bool
  pub connect_retries : ℤ
  pub terminate_on_listener_exit : Bool
  pub replication_mode : ℕ
  pub replication_factor : ℤ
  pub write_ack : Bool
  pub debug_mode : Bool
  pub debug_port : ℤ
  pub reconnect_on_disconnect : Bool
  pub ping_failure_thresh_hold : ℤ
  pub ping_interval : ℤ
  pub ping_timeout : ℤ
  pub shard_size : ℤ

-- `DefaultClusterConfig`. The fields that it does not name are zero.
abbrev pub default_cluster_config : ClusteredBigCacheConfig
default_cluster_config = record {
  id = [];
  join = false;
  join_ip = [];
  local_addresses = [];
  local_port = pos 9911;
  bind_all = true;
  connect_retries = pos 5;
  terminate_on_listener_exit = false;
  replication_mode = replication_mode_full_replicate;
  replication_factor = pos 1;
  write_ack = true;
  debug_mode = false;
  debug_port = pos 0;
  reconnect_on_disconnect = false;
  ping_failure_thresh_hold = pos 0;
  ping_interval = pos 0;
  ping_timeout = pos 0;
  shard_size = pos 0;
}

-- Cluster/remoteNode.go
pub record RemoteNodeConfig : Type 0 where
  pub id : List ℕ
  pub ip_address : List ℕ
  pub ping_failure_thresh_hold : ℤ
  pub ping_interval : ℤ
  pub ping_timeout : ℤ
  pub connect_retries : ℤ
  pub service_port : List ℕ
  pub sync : Bool
  pub reconnect_on_disconnect : Bool

-- `nodeMetrics`; `dropedMsg` is in the receiver.
pub record NodeMetrics : Type 0 where
  pub ping_sent : ℕ
  pub ping_received : ℕ
  pub pong_sent : ℕ
  pub pong_received : ℕ

-- `remoteNode`. The receiver has the state, the inbound queue and `dropedMsg`. `closed`: the interrupts of
-- the run group have closed `done` and the two queues. `ping_timeout`: the timer of the pong runs.
-- `pending_get`: the requests by their pending keys, `none` for the nil pointer.
pub record RemoteNode : Type 0 where
  pub config : RemoteNodeConfig
  pub metrics : NodeMetrics
  pub receiver : Receiver
  pub outbound : List NodeMessage
  pub closed : Bool
  pub ping_timeout : Bool
  pub ping_failure : ℕ
  pub pending_get : Option (List (List ℕ × ℕ))
  pub mode : ℕ

-- `getRequestData`. `replyChan` has no buffer: `waiting` says that `Get` waits on it, and `answer` what was
-- sent. `done`: the channel is closed.
pub record GetRequest : Type 0 where
  pub key : List ℕ
  pub rand_str : List ℕ
  pub waiting : Bool
  pub answer : Option (List ℕ)
  pub done : Bool

-- `replicationMsg` and `getRequestDataWrapper`
pub record ReplicationMsg : Type 0 where
  pub target : ℕ
  pub message : NodeMessage

pub record GetRequestDataWrapper : Type 0 where
  pub target : ℕ
  pub request : ℕ

abbrev pub nil_remote : RemoteNode
nil_remote = record {
  config = record {
    id = [];
    ip_address = [];
    ping_failure_thresh_hold = pos 0;
    ping_interval = pos 0;
    ping_timeout = pos 0;
    connect_retries = pos 0;
    service_port = [];
    sync = false;
    reconnect_on_disconnect = false;
  };
  metrics = record { ping_sent = 0; ping_received = 0; pong_sent = 0; pong_received = 0 };
  receiver = record { state = disconnected; inbound = []; dropped_msg = 0 };
  outbound = [];
  closed = false;
  ping_timeout = false;
  ping_failure = 0;
  pending_get = some [];
  mode = 0;
}

abbrev pub nil_request : GetRequest
nil_request = record { key = []; rand_str = []; waiting = false; answer = none; done = false }

module _ (D : Deps) where
  -- `ClusteredBigCache`, with the two heaps. `closed`: `ShutDown` has closed the three queues. The listener
  -- and `nodeIndex`, which is never read, are left out.
  pub record Node : Type 0 where
    pub config : ClusteredBigCacheConfig
    pub cache : Option (BigCache D)
    pub remote_nodes : SliceList ℕ
    pub join_queue : List ProposedPeer
    pub pending_conn : List (List ℕ × List ℕ)
    pub get_request_chan : List GetRequestDataWrapper
    pub replication_chan : List ReplicationMsg
    pub closed : Bool
    pub state : ℕ
    pub mode : ℕ
    pub remotes : List RemoteNode
    pub requests : List GetRequest

  -- `*r`, and a write through the pointer.
  abbrev pub remote : Node → ℕ → RemoteNode
  remote n r = get_or n.remotes r nil_remote

  abbrev pub put_remote : Node → ℕ → RemoteNode → Node
  put_remote n r v = record n { remotes = set n.remotes r v }

  abbrev pub request : Node → ℕ → GetRequest
  request n q = get_or n.requests q nil_request

  abbrev pub put_request : Node → ℕ → GetRequest → Node
  put_request n q v = record n { requests = set n.requests q v }

  abbrev pub fresh_node : ClusteredBigCacheConfig → Option (BigCache D) → (mode : ℕ) → Node
  fresh_node config cache mode = record {
    config = config;
    cache = cache;
    remote_nodes = new_slice_list;
    join_queue = [];
    pending_conn = [];
    get_request_chan = [];
    replication_chan = [];
    closed = false;
    state = cluster_state_starting;
    mode = mode;
    remotes = [];
    requests = [];
  }

  -- `New`. An error of `NewBigCache` panics.
  unfoldable pub new : ClusteredBigCacheConfig → (now : ℕ) → Outcome Node
  new config now =
      let shards = if ltb_ℤ config.shard_size (pos 16) then 16 else pos_part config.shard_size in
      elim (new_big_cache D (record default_config { shards = shards }) now) [
        | ok cache ↦ ok (fresh_node config (some cache) cluster_mode_active)
        | err e ↦ panic
        | panic ↦ panic
        | blocked ↦ blocked
      ]

  -- `NewPassiveClient`
  unfoldable pub new_passive_client :
      (id server_endpoint : List ℕ)
      (local_port ping_interval ping_timeout ping_failure_threshold : ℤ)
      → Node
  new_passive_client id server_endpoint local_port ping_interval ping_timeout
        ping_failure_threshold =
      fresh_node
        (record default_cluster_config {
          id = id;
          join = true;
          join_ip = server_endpoint;
          reconnect_on_disconnect = true;
          local_port = local_port;
          ping_interval = ping_interval;
          ping_timeout = ping_timeout;
          ping_failure_thresh_hold = ping_failure_threshold;
        })
        none cluster_mode_passive

  -- `checkConfig`
  unfoldable pub check_config : Node → Outcome Node
  check_config n =
      if ltb_ℤ n.config.local_port (pos 1)
      then panic
      else ok (record n {
        config = record n.config {
          connect_retries =
              if ltb_ℤ n.config.connect_retries (pos 1) then pos 5 else n.config.connect_retries;
          replication_mode = replication_mode_full_replicate;
        };
      })

  -- `setReplicationFactor`
  unfoldable pub set_replication_factor : Node → ℤ → Node
  set_replication_factor n rf = record n {
    config = record n.config { replication_factor = if ltb_ℤ rf (pos 1) then pos 1 else rf };
  }
