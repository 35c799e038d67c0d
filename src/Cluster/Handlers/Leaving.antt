-- ===== src/Cluster/Handlers/Leaving.antt =====
-- `tearDown` of Cluster/remoteNode.go, by which a remote node leaves the members.
use clustered_big_cache.Prelude.{
  ℕ, ◌<◌, ◌≡◌, ◌∙◌, false, List, some, none, length, get_or-set_self, set-set,
}
use clustered_big_cache.Prelude.Outcome.{ok}
use clustered_big_cache.Prelude.Keys.{key_eq_self}
use clustered_big_cache.Shard.{Deps}
use clustered_big_cache.SliceList
use clustered_big_cache.SliceList.{SliceList, contains, load, delete}
use clustered_big_cache.SliceList.Unique.{IsUnique, load-remove, contains_missing}
use clustered_big_cache.Wire.{connected}
use clustered_big_cache.Cluster.{RemoteNode, Node, nil_remote, remote, put_remote}
use clustered_big_cache.Cluster.Peers.{
  tear_down, end_remote, event_remote_node_disconnected, interrupt,
}

-- What is left of a remote node that has ended.
abbrev pub ended : RemoteNode → RemoteNode
ended v = record (interrupt v) { ping_timeout = false; pending_get = none }

module _ (D : Deps) where
  abbrev pub ended_node : Node D → ℕ → Node D
  ended_node n r = record (put_remote D n r (ended (remote D n r))) {
    remote_nodes = SliceList.remove n.remote_nodes (remote D n r).config.id;
  }

  pub end_remote_lem :
      (n : Node D) (r : ℕ)
      → r < length n.remotes
      → (remote D n r).config.reconnect_on_disconnect ≡ false
      → end_remote D n r ≡ ok (ended_node n r)
  unfolding end_remote tear_down event_remote_node_disconnected
  end_remote_lem n r h e =
      let v = interrupt (remote D n r) in
      rw (get_or-set_self n.remotes r v nil_remote h, e)
        (rw (
          get_or-set_self n.remotes r v nil_remote h,
          set-set n.remotes r v (ended (remote D n r)),
        ))

  pub contains-ended :
      (n : Node D) (r : ℕ)
      → IsUnique n.remote_nodes.items
      → contains (ended_node n r).remote_nodes (remote D n r).config.id ≡ false
  contains-ended n r u =
      let id = (remote D n r).config.id in
      contains_missing (SliceList.remove n.remote_nodes id) id
        (load-remove n.remote_nodes id id u ∙ rw (key_eq_self id))

  -- What has become of a member whose id another connection has used.
  pub record IsForgotten (n n' : Node D) (p : ℕ) (id : List ℕ) : Type 0 where
    pub was_member : load n.remote_nodes.items id ≡ some p
    pub no_member : contains n'.remote_nodes id ≡ false
    pub untouched : remote D n' p ≡ remote D n p
    pub still_connected : (remote D n' p).receiver.state ≡ connected
