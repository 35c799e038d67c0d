-- ===== src/Cluster/Handlers.antt =====
-- Cluster/remoteNode.go: the messages that a remote node sends and handles.
-- `r` is the pointer to the remote node. `now_ns` is the clock in nanoseconds. The handlers of get, put and
-- delete call the cache of the node: on a passive node, whose cache is nil, they panic.
pub mod Verifying
pub mod Leaving
pub mod Expiry
pub mod Storing
use clustered_big_cache.Prelude.{
  ℕ, suc, ◌+◌, ◌-◌, ◌*◌, ◌/◌, ◌%◌, ◌^◌, Bool, true, false, not, ◌&&◌, ◌||◌, List, [], ◌∷◌, ◌++◌,
  Option, none, some, length, ltb, leb, ◌==◌, if◌then◌else◌,
}
use clustered_big_cache.Prelude.Int.{ℤ, pos, pos_part, sub_ℕ}
use clustered_big_cache.Prelude.Keys.{key_eq}
use clustered_big_cache.Prelude.Outcome.{Outcome, ok, panic, blocked, Reply, value, failure, ◌>>=◌}
use clustered_big_cache.Address.{split_host, join_host_port, itoa}
use clustered_big_cache.Shard.{Deps}
use clustered_big_cache.BigCache
use clustered_big_cache.BigCache.{BigCache}
use clustered_big_cache.Message.{
  Json, NodeMessage, verify, verify_ok, pong, get_req, get_rsp, sync_req, sync_rsp, NodeWireMessage,
  ProposedPeer, VerifyMessage, SyncReqMessage, GetRspMessage, deserialize_verify,
  deserialize_get_req, deserialize_get_rsp, deserialize_put, deserialize_delete,
  deserialize_sync_req, deserialize_sync_rsp, msg_verify, msg_verify_ok, msg_ping, msg_pong,
  msg_put, msg_get_req, msg_get_rsp, msg_del, msg_sync_req, msg_sync_rsp,
}
use clustered_big_cache.SliceList.{values, load, store, delete}
use clustered_big_cache.Wire.{RemoteNodeState, connecting, connected, disconnected, handshake}
use clustered_big_cache.Cluster.{
  RemoteNode, GetRequest, Node, remote, put_remote, request, put_request, set_replication_factor,
  cluster_mode_passive,
}
use clustered_big_cache.Cluster.Peers.{
  send_message, first_ping, set_state, is_disconnected, on_remote, propose,
  event_verify_remote_node,
}

-- `time.Unix(int64(expiry), 0).Sub(time.Now())`, in nanoseconds. `Sub` gives the largest or the smallest
-- duration where the difference does not fit. The expiry is taken to be below 2 ^ 62.
unfoldable pub time_until : (expiry now_ns : ℕ) → ℤ
time_until expiry now_ns =
    if leb (now_ns + 2 ^ 63) (expiry * 1000000000)
    then pos (2 ^ 63 - 1)
    else if leb (expiry * 1000000000 + 2 ^ 63) now_ns
    then sub_ℕ 0 (2 ^ 63)
    else sub_ℕ (expiry * 1000000000) now_ns

-- `handlePing` and `handlePong`
unfoldable pub handle_ping : RemoteNode → Outcome RemoteNode
handle_ping v = do
  let m = v.metrics
  v' ← send_message (record v { metrics = record m { ping_received = m.ping_received + 1 } }) pong
  let m' = v'.metrics
  ok (record v' { metrics = record m' { pong_sent = m'.pong_sent + 1 } })

unfoldable pub handle_pong : RemoteNode → RemoteNode
handle_pong v =
    let m = v.metrics in
    record v {
      metrics = record m { pong_received = m.pong_received + 1 };
      ping_timeout = false;
      ping_failure = 0;
    }

-- The loop of `handleVerifyOK`: whether the state leaves the handshake before the fifth second is over.
-- The list has the states that the loop reads; where it ends, the state does not change any more.
unfoldable pub leaves_handshake : (seen : List RemoteNodeState) → (count : ℕ) → Bool
leaves_handshake [] count = ltb count 5
leaves_handshake (handshake ∷ seen) count =
    let more = leaves_handshake seen (count + 1) in if leb 5 (count + 1) then false else more
leaves_handshake (connecting ∷ seen) count = ltb count 5
leaves_handshake (connected ∷ seen) count = ltb count 5
leaves_handshake (disconnected ∷ seen) count = ltb count 5

-- What `handleVerify` writes into the remote node first.
abbrev pub introduce : RemoteNode → VerifyMessage → RemoteNode
introduce v msg = record v {
  config = record v.config { id = msg.id; service_port = msg.service_port };
  mode = msg.mode;
}

-- The end of `handleVerify`, once the node has approved.
abbrev pub approve : RemoteNode → VerifyMessage → Outcome RemoteNode
approve v msg =
    send_message
      (set_state
        (if msg.mode == cluster_mode_passive
          then record v { config = record v.config { reconnect_on_disconnect = false } }
          else v)
        connected)
      verify_ok

-- `data, _ := cache.Get(key)`: the data of an error is nil.
abbrev pub data_of : Reply (List ℕ) → List ℕ
data_of (value bytes) = bytes
data_of (failure e) = []

-- The `select` at the end of `handleGetResponse`: the answer is taken where `Get` waits for it.
abbrev pub deliver : GetRequest → List ℕ → GetRequest
deliver g bytes =
    if g.waiting && not g.done then record g { waiting = false; answer = some bytes } else g

-- The duration that `handlePut` gives to `Set`.
abbrev pub put_duration : (expiry now_ns : ℕ) → ℤ
put_duration expiry now_ns = if expiry == 0 then pos 0 else time_until expiry now_ns

module _ (D : Deps) where
  -- The message of `sendVerify`
  abbrev pub own_verify : Node D → VerifyMessage
  own_verify n = record {
    id = n.config.id;
    version = [];
    service_port = itoa (pos_part n.config.local_port);
    mode = n.mode;
  }

  -- `sendVerify`
  unfoldable pub send_verify : Node D → ℕ → Outcome (Node D)
  send_verify n r = on_remote D n r (λ v. send_message v (verify (own_verify n)))

  -- `start`: the messages that it sends. The goroutine of the ping timer sends its first one in either order
  -- with `sendVerify`; that of the pong timer starts its timer.
  unfoldable pub start_remote : Node D → ℕ → (ping_first : Bool) → Outcome (Node D)
  start_remote n r ping_first =
      let n₁ = put_remote D n r (record (remote D n r) { ping_timeout = true }) in
      if ping_first
      then (on_remote D n₁ r first_ping >>= λ n₂. send_verify n₂ r)
      else (send_verify n₁ r >>= λ n₂. on_remote D n₂ r first_ping)

  -- `handleVerifyOK`, once its goroutine has read the states `seen`.
  unfoldable pub handle_verify_ok : Node D → ℕ → (seen : List RemoteNodeState) → Outcome (Node D)
  handle_verify_ok n r seen =
      if leaves_handshake seen 0 && (remote D n r).config.sync
      then on_remote D n r (λ v. send_message v (sync_req (record { code = 0; mode = n.mode })))
      else ok n

  -- The list that `sendSyncResponse` builds for the remote node with the given id.
  unfoldable pub node_list : Node D → (id : List ℕ) → SyncReqMessage → List ℕ → List ProposedPeer
  node_list n id msg [] = []
  node_list n id msg (p ∷ peers) =
      let v = remote D n p in
      let rest = node_list n id msg peers in
      if key_eq v.config.id id
      then rest
      else if (v.mode == cluster_mode_passive) && (msg.mode == cluster_mode_passive)
      then rest
      else record {
        id = v.config.id;
        ip_address = join_host_port (split_host v.config.ip_address) v.config.service_port;
      }
        ∷ rest

  -- `sendSyncResponse`
  unfoldable pub send_sync_response : Node D → ℕ → SyncReqMessage → Outcome (Node D)
  send_sync_response n r msg =
      let list = node_list n (remote D n r).config.id msg (values n.remote_nodes) in
      if ltb 0 (length list)
      then on_remote D n r (λ v. send_message v (
          sync_rsp
            (record { code = 0; replication_factor = n.config.replication_factor; list = list })))
      else ok n

  -- The loop of `handleSyncResponse`
  unfoldable pub propose_all : Node D → List ProposedPeer → Outcome (Node D)
  propose_all n [] = ok n
  propose_all n (peer ∷ more) = propose D n peer >>= λ n'. propose_all n' more

  -- `getData`. A store through the nil pointer panics.
  unfoldable pub get_data : Node D → (r q : ℕ) → Outcome (Node D)
  get_data n r q =
      let v = remote D n r in
      let g = request D n q in
      if is_disconnected v.receiver.state then ok n else elim v.pending_get [
        | none ↦ panic
        | some pending ↦ do
          let v' = record v { pending_get = some (store pending (g.key ++ g.rand_str) q) }
          v'' ←
              send_message v'
                (get_req (record { code = 0; key = g.key; pending_key = g.key ++ g.rand_str }))
          ok (put_remote D n r v'')
      ]

  -- `handleGetResponse`. A read through the nil pointer panics.
  unfoldable pub handle_get_response : Node D → ℕ → NodeWireMessage → Outcome (Node D)
  handle_get_response n r wire = do
    msg ← deserialize_get_rsp wire
    let v = remote D n r
    elim v.pending_get [
      | none ↦ panic
      | some pending ↦ elim (load pending msg.pending_key) [
        | none ↦ ok n
        | some q ↦
            let n' =
              put_remote D n r (record v { pending_get = some (delete pending msg.pending_key) }) in
            if ltb (length msg.bytes) 1
            then ok n'
            else ok (put_request D n' q (deliver (request D n' q) msg.bytes))
      ]
    ]

  -- `handlePut`. What `Set` answers is dropped.
  unfoldable pub handle_put : Node D → NodeWireMessage → (now_ns : ℕ) → Outcome (Node D)
  handle_put n wire now_ns = do
    msg ← deserialize_put wire
    elim n.cache [
      | none ↦ panic
      | some cache ↦ do
        (reply, cache') ←
            BigCache.set_key D cache msg.key msg.bytes (put_duration msg.expiry now_ns)
              (now_ns / 1000000000)
        ok (record n { cache = some cache' })
    ]

module _ (D : Deps) (J : Json) where
  -- `handleVerify`
  unfoldable pub handle_verify : Node D → ℕ → NodeWireMessage → Outcome (Bool × Node D)
  handle_verify n r wire =
      let msg = deserialize_verify J wire in
      let n₁ = put_remote D n r (introduce (remote D n r) msg) in
      if (msg.mode == cluster_mode_passive) && (n₁.mode == cluster_mode_passive)
      then ok (false, n₁)
      else (let (approved, n₂) = event_verify_remote_node D n₁ r in
          if approved
          then (on_remote D n₂ r (λ v. approve v msg) >>= λ n₃. ok (true, n₃))
          else ok (false, n₂))

  -- `handleSyncRequest`
  unfoldable pub handle_sync_request : Node D → ℕ → NodeWireMessage → Outcome (Node D)
  handle_sync_request n r wire = send_sync_response D n r (deserialize_sync_req J wire)

  -- `handleSyncResponse`
  unfoldable pub handle_sync_response : Node D → NodeWireMessage → Outcome (Node D)
  handle_sync_response n wire =
      let msg = deserialize_sync_rsp J wire in
      propose_all D (set_replication_factor D n msg.replication_factor) msg.list

  -- `handleGetRequest`
  unfoldable pub handle_get_request : Node D → ℕ → NodeWireMessage → Outcome (Node D)
  handle_get_request n r wire = elim n.cache [
    | none ↦ panic
    | some cache ↦ do
      let msg = deserialize_get_req J wire
      (reply, cache') ← BigCache.get D cache msg.key
      on_remote D (record n { cache = some cache' }) r
          (λ v.
            send_message v
              (get_rsp (record { code = 0; pending_key = msg.pending_key; bytes = data_of reply })))
  ]

  -- `handleDelete`
  unfoldable pub handle_delete : Node D → NodeWireMessage → (now_ns : ℕ) → Outcome (Node D)
  handle_delete n wire now_ns = elim n.cache [
    | none ↦ panic
    | some cache ↦ do
      (reply, cache') ←
          BigCache.delete D cache (deserialize_delete J wire).key (now_ns / 1000000000)
      ok (record n { cache = some cache' })
  ]

  -- The `switch` of `handleMessage`: false where the loop is left. `seen` is for `handleVerifyOK`.
  unfoldable pub dispatch :
      Node D
      → ℕ
      → NodeWireMessage
      → (now_ns : ℕ) → (seen : List RemoteNodeState) → Outcome (Bool × Node D)
  dispatch n r msg now_ns seen =
      if msg.code == msg_verify
      then handle_verify n r msg
      else ((if msg.code == msg_verify_ok
            then handle_verify_ok D n r seen
            else if msg.code == msg_ping
            then on_remote D n r handle_ping
            else if msg.code == msg_pong
            then on_remote D n r (λ v. ok (handle_pong v))
            else if msg.code == msg_sync_rsp
            then handle_sync_response n msg
            else if msg.code == msg_sync_req
            then handle_sync_request n r msg
            else if msg.code == msg_get_req
            then handle_get_request n r msg
            else if msg.code == msg_get_rsp
            then handle_get_response D n r msg
            else if msg.code == msg_put
            then handle_put D n msg now_ns
            else if msg.code == msg_del
            then handle_delete n msg now_ns
            else ok n)
          >>= λ n'. ok (true, n'))

  -- The loop of `handleMessage` over what is in the inbound queue. A message is passed over once the node is
  -- disconnected.
  unfoldable pub handle_messages :
      List NodeWireMessage
      → Node D
      → ℕ
      → (now_ns : ℕ) → (seen : List RemoteNodeState) → Outcome (Bool × Node D)
  handle_messages [] n r now_ns seen = ok (true, n)
  handle_messages (msg ∷ more) n r now_ns seen =
      if is_disconnected (remote D n r).receiver.state
      then handle_messages more n r now_ns seen
      else (dispatch n r msg now_ns seen >>= λ p.
          if p.0 then handle_messages more p.1 r now_ns seen else ok (false, p.1))
