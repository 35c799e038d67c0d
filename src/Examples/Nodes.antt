-- ===== src/Examples/Nodes.antt =====
-- Cluster/*.go, utils/utils.go and the functions of net and strconv that they use, on small inputs.
use clustered_big_cache.Prelude.{
  ℕ, zero, suc, ◌≡◌, refl, ap, ap₂, true, false, some, none, List, [], ◌∷◌, ◌++◌, arith, length,
  take, drop, ◌⊎◌,
}
use clustered_big_cache.Prelude.Int.{pos}
use clustered_big_cache.Prelude.Outcome.{ok, value, failure, timed_out, ◌>>=◌}
use clustered_big_cache.Address.{split_host, itoa}
use clustered_big_cache.BigCache
use clustered_big_cache.BigCache.{BigCache, get_shard, put_shard}
use clustered_big_cache.Shard
use clustered_big_cache.BigCache.Keeping.{get_reads}
use clustered_big_cache.Message.{
  Json, Codec, NodeWireMessage, GetReqMessage, PutMessage, msg_verify, ProposedPeer,
  serialize_get_rsp, serialize_get_req, deserialize_verify, get_rsp,
}
use clustered_big_cache.SliceList.{load, contains, values, values_of}
use clustered_big_cache.Wire.{connected, handshake}
use clustered_big_cache.Message.Text.{is_text, ReadsRequests}
use clustered_big_cache.Cluster.{
  RemoteNode, Node, nil_remote, nil_request, remote, fresh_node, default_cluster_config, request,
  cluster_mode_active, cluster_mode_passive, cluster_state_started,
}
use clustered_big_cache.Cluster.Peers.{
  peer_config, new_remote_node, join_loop, fresh_remote, event_verify_remote_node, store_pending,
  connect_to,
}
use clustered_big_cache.Cluster.Peers.Pending.{
  IsNewPeer, IsLeft, connect_to-IsNewPeer, pending_order,
}
use clustered_big_cache.Cluster.Peers.Joining.{join_loop_lem}
use clustered_big_cache.Cluster.Handlers.{
  handle_verify, get_data, handle_get_request, handle_get_response,
}
use clustered_big_cache.Cluster.Handlers.Verifying.{
  HasRoom, IsAccepted, IsRefused, handle_verify-cases,
}
use clustered_big_cache.Cluster.Handlers.Expiry.{CountsSeconds, replica_timestamp}
use clustered_big_cache.Cluster.Handlers.{put_duration, time_until}
use clustered_big_cache.Cluster.Service.{
  get_wait, get_end, store_locally, put_data, delete_locally, delete_data,
}
use clustered_big_cache.Cluster.Service.Gathering.{
  IsAsking, pending_key, request_message, response_message, get_end-early,
}
use clustered_big_cache.Cluster.Service.Lookup.{get_from_peer}
use clustered_big_cache.Cluster.Service.Delivering.{replication_rounds}
use clustered_big_cache.Cluster.Service.Replicating.{put_message, delete_message}
use clustered_big_cache.Cluster.Service.Reaching.{
  IsReady, HasReached, put_data-reaches, delete_data-reaches,
}
use clustered_big_cache.Examples.Shards.{deps, holding}
use clustered_big_cache.Examples.Caches.{
  cache, cache-IsRouted, filled, holding_get, ab_key, after_delete, cache_delete,
}

take_front : (xs ys : List ℕ) → take (length xs) (xs ++ ys) ≡ xs
take_front [] ys = refl
take_front (x ∷ xs) ys = ap (λ l. x ∷ l) (take_front xs ys)

drop_front : (xs ys : List ℕ) → drop (length xs) (xs ++ ys) ≡ ys
drop_front [] ys = refl
drop_front (x ∷ xs) ys = drop_front xs ys

-- Instances of `json`: a request is its parts, with the length of the first; the bytes of a verify message
-- are its id; the others are not read here.
abbrev read_request : List ℕ → GetReqMessage → GetReqMessage
read_request (code ∷ size ∷ bytes) m = record {
  code = code;
  key = take size bytes;
  pending_key = drop size bytes;
}
read_request [] m = m
read_request (code ∷ []) m = m

abbrev requests_codec : Codec GetReqMessage
requests_codec = record {
  marshal = λ m. m.code ∷ length m.key ∷ (m.key ++ m.pending_key);
  unmarshal = read_request;
}

requests_codec-ReadsRequests : ReadsRequests requests_codec
requests_codec-ReadsRequests m z _ _ _ =
    ap₂ (λ k l. record { code = m.code; key = k; pending_key = l }) (take_front m.key m.pending_key)
      (drop_front m.key m.pending_key)

abbrev json : Json
json = record {
  verify = record {
    marshal = λ m. m.id;
    unmarshal = λ bytes m. record m { id = bytes; mode = cluster_mode_active };
  };
  get_req = requests_codec;
  delete = record { marshal = λ m. m.key; unmarshal = λ bytes m. record m { key = bytes } };
  sync_req = record { marshal = λ m. []; unmarshal = λ bytes m. m };
  sync_rsp = record { marshal = λ m. []; unmarshal = λ bytes m. m };
}

-- A node with a member, 0, under the id `b`, a second connection, 1, and a request, 0, for the key `a`.
abbrev peer : RemoteNode
peer = record nil_remote {
  config = record nil_remote.config { id = 98 ∷ []; ping_failure_thresh_hold = pos 3 };
  receiver = record nil_remote.receiver { state = connected };
  mode = cluster_mode_active;
}

abbrev guest : RemoteNode
guest = record nil_remote { receiver = record nil_remote.receiver { state = handshake } }

abbrev node : Node deps
node = record (fresh_node deps default_cluster_config (some cache) cluster_mode_active) {
  state = cluster_state_started;
  remote_nodes = record { items = ((98 ∷ []), 0) ∷ []; size = pos 1 };
  remotes = peer ∷ guest ∷ [];
  requests = record nil_request { key = 97 ∷ []; rand_str = 120 ∷ [] } ∷ [];
}

abbrev a_verify : NodeWireMessage
a_verify = record { code = msg_verify; bytes = 99 ∷ [] }

abbrev b_verify : NodeWireMessage
b_verify = record { code = msg_verify; bytes = 98 ∷ [] }

guest-HasRoom : HasRoom guest
guest-HasRoom = record { is_open = refl; room = omega arith }

handle_verify-cases_example :
    (n' : Node deps) × (((handle_verify deps json node 1 a_verify ≡ ok (true, n'))
        × IsAccepted deps json node n' 1 (deserialize_verify json a_verify))
      ⊎ ((handle_verify deps json node 1 a_verify ≡ ok (false, n'))
          × IsRefused deps json node n' 1 (deserialize_verify json a_verify)))
handle_verify-cases_example =
    handle_verify-cases deps json node 1 a_verify (omega arith) guest-HasRoom tt

counts-seconds : CountsSeconds deps
counts-seconds d h = refl

-- Between two seconds.
replica_timestamp_example : Shard.expiry_timestamp deps (put_duration 300 200500000000) 200 ≡ 299
unfolding time_until
replica_timestamp_example =
    replica_timestamp deps counts-seconds 300 200500000000 (λ e. omega arith) (omega arith)
      (omega arith) (omega arith)

abbrev ab_put : PutMessage
ab_put = record { code = 0; key = ab_key; expiry = 0; bytes = 7 ∷ [] }

-- The node with a cache whose first shard holds a cell.
abbrev full_node : Node deps
full_node = record node { cache = some filled }

abbrev c_peer : ProposedPeer
c_peer = record { id = 99 ∷ []; ip_address = 49 ∷ [] }

connected_to :
    connect_to deps node c_peer
    ≡ some (
      2,
      record node { remotes = peer ∷ guest ∷ fresh_remote (peer_config deps node c_peer) ∷ [] },
    )
unfolding connect_to new_remote_node
connected_to = refl

connect_to-IsNewPeer_example :
    IsNewPeer deps node
      (record node { remotes = peer ∷ guest ∷ fresh_remote (peer_config deps node c_peer) ∷ [] })
      2
      c_peer
connect_to-IsNewPeer_example =
    connect_to-IsNewPeer deps node
      (record node { remotes = peer ∷ guest ∷ fresh_remote (peer_config deps node c_peer) ∷ [] }) 2
      c_peer connected_to

-- A member whose id is proposed, on a node that does not have it as a member yet.
abbrev alone : Node deps
alone = record node { remote_nodes = record { items = []; size = pos 0 } }

abbrev b_peer : ProposedPeer
b_peer = record { id = 98 ∷ []; ip_address = 49 ∷ [] }

not_there : contains alone.remote_nodes (98 ∷ []) ≡ false
unfolding contains
not_there = refl

pending_order_example :
    ((n₁ : Node deps) × IsLeft deps
        (event_verify_remote_node deps (store_pending deps alone b_peer) 0).1
        n₁
        0
        b_peer
      × (connect_to deps n₁ b_peer ≡ some (new_remote_node deps n₁ (peer_config deps n₁ b_peer))))
    × ((n₂ : Node deps) × IsLeft deps
          (store_pending deps (event_verify_remote_node deps alone 0).1 b_peer)
          n₂
          0
          b_peer
        × (connect_to deps n₂ b_peer ≡ none))
pending_order_example =
    pending_order deps alone 0 b_peer refl (omega arith) refl refl not_there tt tt

-- A ping each 5 seconds, and 3 for its pong: the third failure comes 13 seconds after the start.
abbrev pinged_peer : RemoteNode
pinged_peer = record peer {
  config = record peer.config { ping_interval = pos 5; ping_timeout = pos 3 };
}

join_loop_lem_example : join_loop (false ∷ false ∷ true ∷ []) (pos 2) 0 ≡ ok false
join_loop_lem_example = join_loop_lem 2 0 [] (pos 2) refl

no_outbound : (p : ℕ) → (remote deps node p).outbound ≡ []
no_outbound zero = refl
no_outbound (suc zero) = refl
no_outbound (suc (suc p)) = refl

one_member : values node.remote_nodes ≡ (0 ∷ [])
unfolding values values_of
one_member = refl

node-IsReady : IsReady deps node
node-IsReady = record {
  started = refl;
  is_open = refl;
  idle = refl;
  members = rw one_member (omega arith, tt);
  room = λ p. rw (no_outbound p, one_member) (omega arith);
}

-- The same node as a passive one.
abbrev client : Node deps
client = record node { mode = cluster_mode_passive; cache = none }

client-IsReady : IsReady deps client
client-IsReady = record {
  started = refl;
  is_open = refl;
  idle = refl;
  members = node-IsReady.members;
  room = node-IsReady.room;
}

client_stores :
    store_locally deps client (97 ∷ []) (7 ∷ []) (pos 3000000000) 5 ≡ ok (value 8, client)
unfolding store_locally
client_stores = refl

put_data-reaches_example :
    (n₂ : Node deps) × (n₃ : Node deps) × (put_data deps client
        (97 ∷ [])
        (7 ∷ [])
        (pos 3000000000)
        5
      ≡ ok (value tt, n₂))
    × (replication_rounds deps (length n₂.replication_chan) n₂ ≡ ok n₃)
    × HasReached deps client n₃ (put_message deps (97 ∷ []) (7 ∷ []) 8)
put_data-reaches_example =
    put_data-reaches deps client client (97 ∷ []) (7 ∷ []) (pos 3000000000) 5 8 client-IsReady
      client_stores

node_deletes : delete_locally deps node ab_key 5 ≡ ok (record node { cache = some after_delete })
unfolding delete_locally
node_deletes = rw cache_delete

delete_data-reaches_example :
    (n₂ : Node deps) × (n₃ : Node deps) × (delete_data deps node ab_key 5 ≡ ok (value tt, n₂))
    × (replication_rounds deps (length n₂.replication_chan) n₂ ≡ ok n₃)
    × HasReached deps node n₃ (delete_message deps ab_key)
delete_data-reaches_example =
    delete_data-reaches deps node (record node { cache = some after_delete }) ab_key 5 node-IsReady
      node_deletes

node-IsAsking : IsAsking deps node 0 0 []
node-IsAsking = record {
  has_remote = omega arith;
  has_request = omega arith;
  is_up = record { is_up = refl; is_open = refl; room = omega arith };
  has_pending = refl;
  not_done = refl;
  unanswered = refl;
  not_waiting = refl;
  short = omega arith;
}

cache_get :
    BigCache.get deps cache (97 ∷ [])
    ≡ ok (value (7 ∷ 8 ∷ []), put_shard deps cache 1 (Shard.hit deps holding))
cache_get =
    get_reads deps cache (97 ∷ []) holding (Shard.hit deps holding) (value (7 ∷ 8 ∷ []))
      cache-IsRouted refl holding_get

a_text : is_text (97 ∷ []) ≡ true
unfolding is_text
a_text = refl

ax_text : is_text (97 ∷ 120 ∷ []) ≡ true
unfolding is_text
ax_text = refl

get_from_peer_example :
    (a₁ : Node deps) × (b₁ : Node deps) × (a₂ : Node deps) × (get_data deps node 0 0 ≡ ok a₁)
    × (handle_get_request deps json node 1
          (serialize_get_req json (request_message (request deps node 0)))
        ≡ ok b₁)
    × ((remote deps b₁ 1).outbound
        ≡ [] ++ (get_rsp (response_message (request deps node 0) (7 ∷ 8 ∷ [])) ∷ []))
    × ((serialize_get_rsp (response_message (request deps node 0) (7 ∷ 8 ∷ [])) >>= λ wire.
          handle_get_response deps (get_wait deps a₁ 0) 0 wire)
        ≡ ok a₂)
    × ((get_end deps a₂ 0).0 ≡ value (7 ∷ 8 ∷ []))
get_from_peer_example =
    get_from_peer deps json node node 0 0 1 [] cache
      (put_shard deps cache 1 (Shard.hit deps holding)) (7 ∷ 8 ∷ []) requests_codec-ReadsRequests
      a_text ax_text node-IsAsking (omega arith)
      (record { is_up = refl; is_open = refl; room = omega arith }) refl cache_get (omega arith)

get_end-early_example :
    (n₁ : Node deps) × (n₂ : Node deps) × (pending' : List (List ℕ × ℕ)) × (get_data deps node 0 0
      ≡ ok n₁)
    × ((serialize_get_rsp (response_message (request deps node 0) (7 ∷ [])) >>= λ wire.
          handle_get_response deps n₁ 0 wire)
        ≡ ok n₂)
    × ((remote deps n₂ 0).pending_get ≡ some pending')
    × (load pending' (pending_key (request deps node 0)) ≡ none)
    × ((get_end deps (get_wait deps n₂ 0) 0).0 ≡ failure timed_out)
get_end-early_example = get_end-early deps node 0 0 [] (7 ∷ []) node-IsAsking tt (omega arith)

split_host_v4 : split_host (49 ∷ 46 ∷ 50 ∷ 58 ∷ 57 ∷ []) ≡ (49 ∷ 46 ∷ 50 ∷ [])
unfolding split_host
split_host_v4 = refl

split_host_v6 : split_host (91 ∷ 58 ∷ 58 ∷ 49 ∷ 93 ∷ 58 ∷ 57 ∷ []) ≡ (58 ∷ 58 ∷ 49 ∷ [])
unfolding split_host
split_host_v6 = refl

itoa_9911 : itoa 9911 ≡ (57 ∷ 57 ∷ 49 ∷ 49 ∷ [])
unfolding itoa
itoa_9911 = refl
