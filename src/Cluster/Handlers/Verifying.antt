-- ===== src/Cluster/Handlers/Verifying.antt =====
-- `handleVerify` of Cluster/remoteNode.go, with `eventVerifyRemoteNode` and `tearDown`.
use clustered_big_cache.Prelude.{
  ℕ, ◌<◌, ◌≡◌, ◌≢◌, ◌⊎◌, inl, inr, refl, Bool, true, false, ◌&&◌, ◌==◌, if◌then◌else◌, List, [],
  ◌∷◌, ◌++◌, some, none, length, lt→ltb, Bool-cases, get_or-set_self, get_or-set_ne, set-set,
}
use clustered_big_cache.Prelude.Outcome.{ok}
use clustered_big_cache.Prelude.Keys.{key_eq_self, ne→key_eq}
use clustered_big_cache.Shard.{Deps}
use clustered_big_cache.Message.{
  Json, verify_ok, NodeWireMessage, VerifyMessage, deserialize_verify,
}
use clustered_big_cache.SliceList
use clustered_big_cache.SliceList.{contains, load, delete, store}
use clustered_big_cache.SliceList.Unique.{IsUnique, load-store_any, load-delete_any}
use clustered_big_cache.Wire.{connected}
use clustered_big_cache.Cluster.{
  RemoteNode, Node, nil_remote, remote, put_remote, chan_size, cluster_mode_passive,
}
use clustered_big_cache.Cluster.Peers.{send_message, set_state, event_verify_remote_node}
use clustered_big_cache.Cluster.Handlers.{handle_verify, introduce, approve}

-- A remote node takes one more message.
pub record HasRoom (v : RemoteNode) : Type 0 where
  pub is_open : v.closed ≡ false
  pub room : length v.outbound < chan_size

-- What `approve` makes of the remote node, where it has room.
abbrev pub approved : RemoteNode → VerifyMessage → RemoteNode
approved v msg =
    let v' = introduce v msg in
    record (set_state v' connected) {
      config = record v'.config {
        reconnect_on_disconnect =
            if msg.mode == cluster_mode_passive then false else v.config.reconnect_on_disconnect;
      };
      outbound = v.outbound ++ (verify_ok ∷ []);
    }

approve_lem :
    (v : RemoteNode) (msg : VerifyMessage)
    → HasRoom v
    → approve (introduce v msg) msg ≡ ok (approved v msg)
unfolding send_message
approve_lem v msg h =
    let room = lt→ltb (length v.outbound) chan_size h.room in
    elim (Bool-cases (msg.mode == cluster_mode_passive)) [
      | inl e ↦ rw (e, h.is_open, room)
      | inr e ↦ rw (e, h.is_open, room)
    ]

module _ (D : Deps) (J : Json) where
  -- What `handleVerify` leaves where it refuses and where it approves.
  abbrev pub refused_node : Node D → ℕ → VerifyMessage → Node D
  refused_node n r msg = put_remote D n r (introduce (remote D n r) msg)

  abbrev pub accepted_node : Node D → ℕ → VerifyMessage → Node D
  accepted_node n r msg = record (put_remote D n r (approved (remote D n r) msg)) {
    remote_nodes = SliceList.add n.remote_nodes msg.id (some r);
    pending_conn = delete n.pending_conn msg.id;
  }

  abbrev pub both_passive : Node D → VerifyMessage → Bool
  both_passive n msg = (msg.mode == cluster_mode_passive) && (n.mode == cluster_mode_passive)

  remote_written :
      (n : Node D) (r : ℕ) (v : RemoteNode)
      → r < length n.remotes
      → remote D (put_remote D n r v) r ≡ v
  remote_written n r v h = get_or-set_self n.remotes r v nil_remote h

  event_verify_known :
      (n : Node D) (r : ℕ) (v : RemoteNode)
      → r < length n.remotes
      → contains n.remote_nodes v.config.id ≡ true
      → event_verify_remote_node D (put_remote D n r v) r ≡ (false, put_remote D n r v)
  unfolding event_verify_remote_node
  event_verify_known n r v h c = rw (remote_written n r v h, c)

  event_verify_new :
      (n : Node D) (r : ℕ) (v : RemoteNode)
      → r < length n.remotes
      → contains n.remote_nodes v.config.id ≡ false
      → event_verify_remote_node D (put_remote D n r v) r ≡ (
        true,
        record (put_remote D n r v) {
          remote_nodes = SliceList.add n.remote_nodes v.config.id (some r);
          pending_conn = delete n.pending_conn v.config.id;
        },
      )
  unfolding event_verify_remote_node
  event_verify_new n r v h c = rw (remote_written n r v h, c)

  pub handle_verify_passive :
      (n : Node D) (r : ℕ) (wire : NodeWireMessage)
      → both_passive n (deserialize_verify J wire) ≡ true
      → handle_verify D J n r wire ≡ ok (false, refused_node n r (deserialize_verify J wire))
  unfolding handle_verify
  handle_verify_passive n r wire e = rw e

  pub handle_verify_known :
      (n : Node D) (r : ℕ) (wire : NodeWireMessage)
      → r < length n.remotes
      → both_passive n (deserialize_verify J wire) ≡ false
      → contains n.remote_nodes (deserialize_verify J wire).id ≡ true
      → handle_verify D J n r wire ≡ ok (false, refused_node n r (deserialize_verify J wire))
  unfolding handle_verify event_verify_remote_node
  handle_verify_known n r wire h e c =
      rw (e, event_verify_known n r (introduce (remote D n r) (deserialize_verify J wire)) h c)

  -- Whether or not both are passive.
  pub handle_verify_member :
      (n : Node D) (r : ℕ) (wire : NodeWireMessage)
      → r < length n.remotes
      → contains n.remote_nodes (deserialize_verify J wire).id ≡ true
      → handle_verify D J n r wire ≡ ok (false, refused_node n r (deserialize_verify J wire))
  handle_verify_member n r wire h c =
      elim (Bool-cases (both_passive n (deserialize_verify J wire))) [
        | inl b ↦ handle_verify_passive n r wire b
        | inr b ↦ handle_verify_known n r wire h b c
      ]

  pub handle_verify_new :
      (n : Node D) (r : ℕ) (wire : NodeWireMessage)
      → r < length n.remotes
      → HasRoom (remote D n r)
      → both_passive n (deserialize_verify J wire) ≡ false
      → contains n.remote_nodes (deserialize_verify J wire).id ≡ false
      → handle_verify D J n r wire ≡ ok (true, accepted_node n r (deserialize_verify J wire))
  unfolding handle_verify event_verify_remote_node
  handle_verify_new n r wire h room e c =
      let msg = deserialize_verify J wire in
      let v = introduce (remote D n r) msg in
      rw (
        e,
        event_verify_new n r v h c,
        remote_written n r v h,
        approve_lem (remote D n r) msg room,
        set-set n.remotes r v (approved (remote D n r) msg),
      )

  -- The remote node is a member under the id of its message, connected, and has the answer in its queue.
  -- Nothing else has changed but that the id is not pending any more.
  pub record IsAccepted (n n' : Node D) (r : ℕ) (msg : VerifyMessage) : Type 0 where
    pub was_new : contains n.remote_nodes msg.id ≡ false
    pub not_passive : both_passive n msg ≡ false
    pub is_member : load n'.remote_nodes.items msg.id ≡ some r
    pub members_kept :
        (id : List ℕ) → msg.id ≢ id → load n'.remote_nodes.items id ≡ load n.remote_nodes.items id
    pub not_pending : load n'.pending_conn msg.id ≡ none
    pub is_connected : remote D n' r ≡ approved (remote D n r) msg
    pub remotes_kept : (p : ℕ) → r ≢ p → remote D n' p ≡ remote D n p

  pub record IsRefused (n n' : Node D) (r : ℕ) (msg : VerifyMessage) : Type 0 where
    pub reason : (both_passive n msg ≡ true) ⊎ (contains n.remote_nodes msg.id ≡ true)
    pub unchanged : n' ≡ refused_node n r msg

  accepted_node-IsAccepted :
      (n : Node D) (r : ℕ) (msg : VerifyMessage)
      → r < length n.remotes
      → IsUnique n.pending_conn
      → contains n.remote_nodes msg.id ≡ false
      → both_passive n msg ≡ false
      → IsAccepted n (accepted_node n r msg) r msg
  unfolding SliceList.add
  accepted_node-IsAccepted n r msg h u c b = record {
    was_new = c;
    not_passive = b;
    is_member = rw (load-store_any n.remote_nodes.items msg.id r msg.id, key_eq_self msg.id);
    members_kept =
        λ id other. rw (load-store_any n.remote_nodes.items msg.id r id, ne→key_eq msg.id id other);
    not_pending = rw (load-delete_any n.pending_conn msg.id msg.id u, key_eq_self msg.id);
    is_connected = get_or-set_self n.remotes r (approved (remote D n r) msg) nil_remote h;
    remotes_kept =
        λ p other. get_or-set_ne n.remotes r p (approved (remote D n r) msg) nil_remote other;
  }

  -- `handleVerify` of a remote node whose queue has room, on a node that holds each pending id once, answers
  -- in each case. It refuses where both nodes are passive or the id is that of a member, and only writes the
  -- message into the remote node then. Otherwise the remote node becomes a member under the id, is
  -- connected with the answer in its queue, and the id is not pending; the other members and remote nodes
  -- are as before.
  pub handle_verify-cases :
      (n : Node D) (r : ℕ) (wire : NodeWireMessage)
      → r < length n.remotes
      → HasRoom (remote D n r)
      → IsUnique n.pending_conn
      → (n' : Node D) × (((handle_verify D J n r wire ≡ ok (true, n'))
            × IsAccepted n n' r (deserialize_verify J wire))
          ⊎ ((handle_verify D J n r wire ≡ ok (false, n'))
              × IsRefused n n' r (deserialize_verify J wire)))
  handle_verify-cases n r wire h room u =
      let msg = deserialize_verify J wire in
      elim (Bool-cases (both_passive n msg)) [
        | inl b ↦
            (_, inr (handle_verify_passive n r wire b, record { reason = inl b; unchanged = refl }))
        | inr b ↦ elim (Bool-cases (contains n.remote_nodes msg.id)) [
          | inl c ↦ (
            _,
            inr (handle_verify_known n r wire h b c, record { reason = inr c; unchanged = refl }),
          )
          | inr c ↦ (
            _,
            inl (handle_verify_new n r wire h room b c, accepted_node-IsAccepted n r msg h u c b),
          )
        ]
      ]
