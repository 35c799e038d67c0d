-- ===== src/Cluster/Service.antt =====
-- Cluster/clusteredBigCache.go: what a node offers, and its goroutines for replication and for lookups.
-- `Get` is three calls: up to its wait, the beginning of the wait, and what follows the wait. The random string of a request is an argument.
pub mod Replicating
pub mod Delivering
pub mod Reaching
pub mod Gathering
pub mod Lookup
use clustered_big_cache.Prelude.{
  ℕ, ◌+◌, ◌%◌, ◌^◌, Bool, true, false, not, List, [], ◌∷◌, ◌++◌, Option, none, some, length, ltb,
  ◌==◌, if◌then◌else◌,
}
use clustered_big_cache.Prelude.Int.{ℤ}
use clustered_big_cache.Prelude.Outcome.{
  Outcome, ok, err, panic, blocked, Fault, Reply, value, failure, not_started, data_not_found,
  timed_out, no_join_ip, no_listener, ◌>>=◌,
}
use clustered_big_cache.Shard.{Deps, Stats, no_expiry, expires_at_all}
use clustered_big_cache.BigCache
use clustered_big_cache.BigCache.{BigCache}
use clustered_big_cache.Message.{NodeMessage, put, delete}
use clustered_big_cache.SliceList.{values}
use clustered_big_cache.Cluster.{
  RemoteNode, GetRequest, ReplicationMsg, Node, remote, put_remote, request, put_request,
  check_config, chan_size, cluster_mode_active, cluster_mode_passive, cluster_state_started,
  cluster_state_ended,
}
use clustered_big_cache.Cluster.Peers.{
  on_remote, send_message, tear_down, new_remote_node, join_cluster,
}
use clustered_big_cache.Cluster.Handlers.{get_data}

-- What `Get` does before its wait: it answers at once, or waits for the request at the place.
pub data GetStart : Type 0 where
  answered : Reply (List ℕ) → GetStart
  waits_for : ℕ → GetStart

module _ (D : Deps) where
  -- `Start`, up to the goroutines: the pointer of the remote node that `joinCluster` makes, if there is one.
  -- `generated` is what `GenerateNodeId` answers, and `listening` whether `Listen` succeeds. With an error
  -- the state stays as it is.
  unfoldable pub start :
      Node D → (generated : List ℕ) (listening : Bool) → Outcome (Reply (Option ℕ) × Node D)
  start n generated listening = do
    n₁ ← check_config D n
    let n₂ : Node D = elim n₁.config.id [
      | [] ↦ record n₁ { config = record n₁.config { id = generated } }
      | b ∷ id ↦ n₁
    ]
    if not listening
        then ok (failure no_listener, n₂)
        else if n₂.config.join
        then elim (join_cluster D n₂) [
          | none ↦ ok (failure no_join_ip, n₂)
          | some (r, n₃) ↦ ok (value (some r), record n₃ { state = cluster_state_started })
        ]
        else ok (value none, record n₂ { state = cluster_state_started })

  -- The loop of `ShutDown`
  unfoldable pub tear_down_all : Node D → List ℕ → Outcome (Node D)
  tear_down_all n [] = ok n
  tear_down_all n (r ∷ more) = do
    let v = remote D n r
    n' ←
        tear_down D
          (put_remote D n r
            (record v { config = record v.config { reconnect_on_disconnect = false } }))
          r
    tear_down_all n' more

  -- `ShutDown`. A second close of the queues panics.
  unfoldable pub shut_down : Node D → Outcome (Node D)
  shut_down n = do
    n' ← tear_down_all (record n { state = cluster_state_ended }) (values n.remote_nodes)
    if n'.closed then panic else ok (record n' { closed = true })

  -- `replicationChan <- msg`
  unfoldable pub queue_replication : Node D → ReplicationMsg → Outcome (Node D)
  queue_replication n msg =
      if n.closed
      then panic
      else if ltb (length n.replication_chan) chan_size
      then ok (record n { replication_chan = n.replication_chan ++ (msg ∷ []) })
      else blocked

  -- The loop over the peers that `Put` and `Delete` share.
  unfoldable pub replicate_to : Node D → (peers : List ℕ) → NodeMessage → Outcome (Node D)
  replicate_to n [] msg = ok n
  replicate_to n (p ∷ peers) msg =
      let skipped = replicate_to n peers msg in
      if (remote D n p).mode == cluster_mode_passive
      then skipped
      else (queue_replication n (record { target = p; message = msg }) >>= λ n'.
          replicate_to n' peers msg)

  -- The expiry that a passive node sends.
  abbrev pub passive_expiry : ℤ → (now : ℕ) → ℕ
  passive_expiry duration now =
      if expires_at_all duration then (now + D.seconds duration) % 2 ^ 64 else no_expiry

  -- The expiry that `Put` sends on, or the error of the cache.
  unfoldable pub store_locally :
      Node D → (key bytes : List ℕ) (duration : ℤ) (now : ℕ) → Outcome (Reply ℕ × Node D)
  store_locally n key bytes duration now =
      if n.mode == cluster_mode_active
      then elim n.cache [
        | none ↦ panic
        | some cache ↦ do
          (reply, cache') ← BigCache.set_key D cache key bytes duration now
          ok (reply, record n { cache = some cache' })
      ]
      else if n.mode == cluster_mode_passive
      then ok (value (passive_expiry duration now), n)
      else ok (value no_expiry, n)

  -- `Put`
  unfoldable pub put_data :
      Node D → (key bytes : List ℕ) (duration : ℤ) (now : ℕ) → Outcome (Reply (Unit {0}) × Node D)
  put_data n key bytes duration now =
      if not (n.state == cluster_state_started)
      then ok (failure not_started, n)
      else (store_locally n key bytes duration now >>= λ p. elim p.0 [
        | failure e ↦ ok (failure e, p.1)
        | value expiry ↦
            replicate_to p.1 (values p.1.remote_nodes)
              (put (record { code = 0; key = key; expiry = expiry; bytes = bytes }))
            >>= λ n'. ok (value tt, n')
      ])

  -- `Delete`. What the cache answers is dropped.
  unfoldable pub delete_locally : Node D → (key : List ℕ) (now : ℕ) → Outcome (Node D)
  delete_locally n key now =
      if n.mode == cluster_mode_active
      then elim n.cache [
        | none ↦ panic
        | some cache ↦ do
          (reply, cache') ← BigCache.delete D cache key now
          ok (record n { cache = some cache' })
      ]
      else ok n

  unfoldable pub delete_data :
      Node D → (key : List ℕ) (now : ℕ) → Outcome (Reply (Unit {0}) × Node D)
  delete_data n key now =
      if not (n.state == cluster_state_started) then ok (failure not_started, n) else do
        n₁ ← delete_locally n key now
        n₂ ← replicate_to n₁ (values n₁.remote_nodes) (delete (record { code = 0; key = key }))
        ok (value tt, n₂)

  -- `getRequestChan <- wrapper`, in the loop of `Get`.
  unfoldable pub ask_peers : Node D → (peers : List ℕ) → (q : ℕ) → Outcome (Node D)
  ask_peers n [] q = ok n
  ask_peers n (p ∷ peers) q =
      let skipped = ask_peers n peers q in
      let more =
        ask_peers
          (record n {
            get_request_chan = n.get_request_chan ++ (record { target = p; request = q } ∷ []);
          })
          peers q in
      if (remote D n p).mode == cluster_mode_passive
      then skipped
      else if n.closed
      then panic
      else if ltb (length n.get_request_chan) chan_size
      then more
      else blocked

  -- The part of `Get` that asks the cache of the node: the data, if it has them.
  unfoldable pub get_locally : Node D → (key : List ℕ) → Outcome (Option (List ℕ) × Node D)
  get_locally n key =
      if n.mode == cluster_mode_active
      then elim n.cache [
        | none ↦ panic
        | some cache ↦ do
          (reply, cache') ← BigCache.get D cache key
          elim reply [
            | value bytes ↦ ok (some bytes, record n { cache = some cache' })
            | failure e ↦ ok (none, record n { cache = some cache' })
          ]
      ]
      else ok (none, n)

  -- The new request of `Get`, and the loop over the peers.
  unfoldable pub gather : Node D → (key rand_str : List ℕ) → Outcome (GetStart × Node D)
  gather n key rand_str = elim (values n.remote_nodes) [
    | [] ↦ ok (answered (failure data_not_found), n)
    | p ∷ peers ↦
        let q = length n.requests in
        let g : GetRequest = record {
          key = key;
          rand_str = rand_str;
          waiting = false;
          answer = none;
          done = false;
        } in
        do
          n' ← ask_peers (record n { requests = n.requests ++ (g ∷ []) }) (p ∷ peers) q
          ok (waits_for q, n')
  ]

  -- `Get`, up to its wait.
  unfoldable pub get_begin : Node D → (key rand_str : List ℕ) → Outcome (GetStart × Node D)
  get_begin n key rand_str =
      if not (n.state == cluster_state_started)
      then ok (answered (failure not_started), n)
      else (get_locally n key >>= λ p. elim p.0 [
        | some bytes ↦ ok (answered (value bytes), p.1)
        | none ↦ gather p.1 key rand_str
      ])

  -- `Get` waits from here on.
  abbrev pub get_wait : Node D → (q : ℕ) → Node D
  get_wait n q = put_request D n q (record (request D n q) { waiting = true })

  -- The end of `Get`: the answer, or the timeout. Only with an answer `done` is closed.
  unfoldable pub get_end : Node D → (q : ℕ) → Reply (List ℕ) × Node D
  get_end n q =
      let g = request D n q in
      elim g.answer [
        | some bytes ↦ (value bytes, put_request D n q (record g { done = true }))
        | none ↦ (failure timed_out, put_request D n q (record g { waiting = false }))
      ]

  -- One round of `requestSenderForGET`, and one of `replication`.
  unfoldable pub request_sender_round : Node D → Outcome (Node D)
  request_sender_round n = elim n.get_request_chan [
    | [] ↦ ok n
    | w ∷ more ↦ get_data D (record n { get_request_chan = more }) w.target w.request
  ]

  unfoldable pub replication_round : Node D → Outcome (Node D)
  replication_round n = elim n.replication_chan [
    | [] ↦ ok n
    | msg ∷ more ↦
        on_remote D (record n { replication_chan = more }) msg.target
          (λ v. send_message v msg.message)
  ]

  -- `Statistics`: the counters that it prints, `none` for the passive mode.
  unfoldable pub statistics : Node D → Outcome (Option Stats)
  statistics n =
      if n.mode == cluster_mode_active
      then elim n.cache [ none ↦ panic | some cache ↦ ok (some (BigCache.stats D cache)) ]
      else ok none
