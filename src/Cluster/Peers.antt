-- ===== src/Cluster/Peers.antt =====
-- Cluster/remoteNode.go and Cluster/clusteredBigCache.go: a remote node from its connection to its end.
-- `done` and the queues of a remote node are closed together, by the interrupts of the run group: a send
-- after that has no effect, whichever case its `select` takes, as `recover` stops the panic. A send on a
-- full queue waits, `blocked`.
pub mod Pinging
pub mod Joining
pub mod Pending
use clustered_big_cache.Prelude.{
  ℕ, suc, ◌+◌, Bool, true, false, not, ◌&&◌, ◌||◌, List, [], ◌∷◌, ◌++◌, Option, none, some, length,
  ltb, ◌==◌, if◌then◌else◌,
}
use clustered_big_cache.Prelude.Int.{ℤ, pos, leb_ℤ, ltb_ℤ}
use clustered_big_cache.Prelude.Outcome.{Outcome, ok, panic, blocked, ◌>>=◌}
use clustered_big_cache.Shard.{Deps}
use clustered_big_cache.Message.{NodeMessage, ping, ProposedPeer}
use clustered_big_cache.SliceList
use clustered_big_cache.SliceList.{contains, load, store, delete}
use clustered_big_cache.Wire.{
  RemoteNodeState, connecting, connected, disconnected, handshake, is_consuming,
}
use clustered_big_cache.Cluster.{
  ClusteredBigCacheConfig, RemoteNodeConfig, RemoteNode, NodeMetrics, Node, nil_remote, remote,
  put_remote, chan_size, join_queue_size, cluster_state_started,
}

-- `checkConfig` of Cluster/remoteNode.go. The warning is left out.
unfoldable pub check_remote_config : RemoteNodeConfig → RemoteNodeConfig
check_remote_config config = record config {
  ping_interval = if ltb_ℤ config.ping_interval (pos 1) then pos 5 else config.ping_interval;
  ping_timeout = if ltb_ℤ config.ping_timeout (pos 1) then pos 3 else config.ping_timeout;
  ping_failure_thresh_hold =
      if leb_ℤ (pos 0) config.ping_failure_thresh_hold
        && leb_ℤ config.ping_failure_thresh_hold (pos 0)
      then pos 5
      else config.ping_failure_thresh_hold;
}

-- `newRemoteNode`, the value.
abbrev pub fresh_remote : RemoteNodeConfig → RemoteNode
fresh_remote config = record nil_remote { config = check_remote_config config }

-- `setState`
abbrev pub set_state : RemoteNode → RemoteNodeState → RemoteNode
set_state v state = record v { receiver = record v.receiver { state = state } }

abbrev pub is_disconnected : RemoteNodeState → Bool
is_disconnected disconnected = true
is_disconnected connecting = false
is_disconnected connected = false
is_disconnected handshake = false

-- `sendMessage`
unfoldable pub send_message : RemoteNode → NodeMessage → Outcome RemoteNode
send_message v msg =
    if is_disconnected v.receiver.state || v.closed
    then ok v
    else if ltb (length v.outbound) chan_size
    then ok (record v { outbound = v.outbound ++ (msg ∷ []) })
    else blocked

-- The goroutine of the ping timer as it starts, and at each tick.
unfoldable pub first_ping : RemoteNode → Outcome RemoteNode
first_ping v = send_message v ping

unfoldable pub on_tick : RemoteNode → Outcome RemoteNode
on_tick v =
    let m = v.metrics in
    send_message
      (record v { metrics = record m { ping_sent = m.ping_sent + 1 }; ping_timeout = true }) ping

-- The goroutine of the pong timer as the timer fires: whether it ends, with `fault`.
unfoldable pub on_ping_timeout : RemoteNode → Bool × RemoteNode
on_ping_timeout v =
    let v' = record v { ping_timeout = false; ping_failure = v.ping_failure + 1 } in
    (leb_ℤ v'.config.ping_failure_thresh_hold (pos v'.ping_failure), v')

-- The interrupts of the run group, which are called once the first of its goroutines has ended.
abbrev pub interrupt : RemoteNode → RemoteNode
interrupt v = record (set_state v disconnected) { closed = true }

-- The loop of `join`: whether `connect` succeeded, round by round. The result is whether the remote node
-- is connected. Where nothing more is known of the network the loop goes on, `blocked`.
unfoldable pub join_loop : (attempts : List Bool) → (connect_retries : ℤ) (tries : ℕ) → Outcome Bool
join_loop [] connect_retries tries = blocked
join_loop (true ∷ attempts) connect_retries tries = ok true
join_loop (false ∷ attempts) connect_retries tries =
    let more = join_loop attempts connect_retries tries in
    let next = join_loop attempts connect_retries (tries + 1) in
    if ltb_ℤ (pos 0) connect_retries
    then (if leb_ℤ connect_retries (pos (tries + 1)) then ok false else next)
    else more

module _ (D : Deps) where
  -- `newRemoteNode`: the pointer, and the program with the new object.
  unfoldable pub new_remote_node : Node D → RemoteNodeConfig → ℕ × Node D
  new_remote_node n config =
      (length n.remotes, record n { remotes = n.remotes ++ (fresh_remote config ∷ []) })

  -- A change of the object at a pointer.
  abbrev pub on_remote : Node D → ℕ → (RemoteNode → Outcome RemoteNode) → Outcome (Node D)
  on_remote n r op = op (remote D n r) >>= λ v. ok (put_remote D n r v)

  -- `joinQueue <- peer`
  unfoldable pub propose : Node D → ProposedPeer → Outcome (Node D)
  propose n peer =
      if n.closed
      then panic
      else if ltb (length n.join_queue) join_queue_size
      then ok (record n { join_queue = n.join_queue ++ (peer ∷ []) })
      else blocked

  -- `eventRemoteNodeDisconneced`
  unfoldable pub event_remote_node_disconnected : Node D → ℕ → Node D
  event_remote_node_disconnected n r = record n {
    remote_nodes = SliceList.remove n.remote_nodes (remote D n r).config.id;
  }

  -- `eventVerifyRemoteNode`
  unfoldable pub event_verify_remote_node : Node D → ℕ → Bool × Node D
  event_verify_remote_node n r =
      let id = (remote D n r).config.id in
      if contains n.remote_nodes id then (false, n) else (
        true,
        record n {
          remote_nodes = SliceList.add n.remote_nodes id (some r);
          pending_conn = delete n.pending_conn id;
        },
      )

  -- `eventUnableToConnect`
  unfoldable pub event_unable_to_connect : Node D → RemoteNodeConfig → Node D
  event_unable_to_connect n config = record n { pending_conn = delete n.pending_conn config.id }

  -- `tearDown`
  unfoldable pub tear_down : Node D → ℕ → Outcome (Node D)
  tear_down n r =
      let c = (remote D n r).config in
      let n₁ = event_remote_node_disconnected n r in
      do
        n₂ ←
            if c.reconnect_on_disconnect
            then propose n₁ (record { id = c.id; ip_address = c.ip_address })
            else ok n₁
        on_remote n₂ r (λ v. ok (record v { ping_timeout = false; pending_get = none }))

  -- The end of a remote node, once one of its goroutines has ended: what is left of its inbound queue is
  -- passed over, as the node is disconnected.
  unfoldable pub end_remote : Node D → ℕ → Outcome (Node D)
  end_remote n r = do n₁ ← on_remote n r (λ v. ok (interrupt v)); tear_down n₁ r

  -- `join`, up to `start`, which follows where the node is connected.
  unfoldable pub join : Node D → ℕ → (attempts : List Bool) → Outcome (Bool × Node D)
  join n r attempts = do
    let c = (remote D n r).config
    joined ← join_loop attempts c.connect_retries 0
    if joined
        then ok (true, put_remote D n r (set_state (remote D n r) handshake))
        else ok (
          false,
          event_unable_to_connect (put_remote D n r (set_state (remote D n r) connecting)) c,
        )

  -- The body of the loop of `listen` for a new connection, up to `start`.
  unfoldable pub accept : Node D → (remote_address : List ℕ) → ℕ × Node D
  accept n remote_address =
      let (r, n₁) = new_remote_node n (record {
        id = [];
        ip_address = remote_address;
        connect_retries = n.config.connect_retries;
        sync = false;
        reconnect_on_disconnect = false;
        ping_interval = n.config.ping_interval;
        ping_timeout = n.config.ping_timeout;
        ping_failure_thresh_hold = n.config.ping_failure_thresh_hold;
        service_port = [];
      }) in
      (r, put_remote D n₁ r (set_state (remote D n₁ r) handshake))

  -- The loop of `listen` over what `Accept` answers, an address or an error. It ends with the fifth error in
  -- a row: the flag says so.
  unfoldable pub listen :
      Node D → (accepted : List (Option (List ℕ))) → (errors : ℕ) → Bool × Node D
  listen n [] errors = (false, n)
  listen n (none ∷ accepted) errors =
      let rest = listen n accepted (errors + 1) in if ltb errors 4 then rest else (true, n)
  listen n (some address ∷ accepted) errors = listen (accept n address).1 accepted 0

  -- The end of `listen`, which panics where the configuration asks for it.
  abbrev pub listener_exit : Node D → Outcome (Node D)
  listener_exit n = if n.config.terminate_on_listener_exit then panic else ok n

  -- The body of `joinCluster`, up to `join`.
  unfoldable pub join_cluster : Node D → Option (ℕ × Node D)
  join_cluster n = elim n.config.join_ip [
    | [] ↦ none
    | b ∷ address ↦ some (
        new_remote_node n (record {
          id = [];
          ip_address = n.config.join_ip;
          connect_retries = n.config.connect_retries;
          sync = true;
          reconnect_on_disconnect = n.config.reconnect_on_disconnect;
          ping_interval = n.config.ping_interval;
          ping_timeout = n.config.ping_timeout;
          ping_failure_thresh_hold = n.config.ping_failure_thresh_hold;
          service_port = [];
        }))
  ]

  -- The configuration of a remote node that `connectToExistingNodes` makes.
  abbrev pub peer_config : Node D → ProposedPeer → RemoteNodeConfig
  peer_config n value = record {
    id = value.id;
    ip_address = value.ip_address;
    connect_retries = n.config.connect_retries;
    sync = false;
    reconnect_on_disconnect = n.config.reconnect_on_disconnect;
    ping_interval = pos 0;
    ping_timeout = pos 0;
    ping_failure_thresh_hold = pos 0;
    service_port = [];
  }

  -- The body of the loop of `connectToExistingNodes` for a value, up to the call of `join`: the new remote
  -- node, if there is one. `join` starts a goroutine of its own.
  unfoldable pub connect_to : Node D → ProposedPeer → Option (ℕ × Node D)
  connect_to n value =
      if not (n.state == cluster_state_started) then none else elim (load n.pending_conn value.id) [
        | some address ↦ none
        | none ↦ elim (load n.remote_nodes.items value.id) [
          | some r ↦ none
          | none ↦ some (new_remote_node n (peer_config n value))
        ]
      ]

  -- The last line of that loop, which comes after `join` has started its goroutine.
  unfoldable pub store_pending : Node D → ProposedPeer → Node D
  store_pending n value = record n { pending_conn = store n.pending_conn value.id value.ip_address }
