-- ===== src/Cluster/Peers/Pending.antt =====
-- `connectToExistingNodes` of Cluster/clusteredBigCache.go against the verification of the peer.
use clustered_big_cache.Prelude.{
  ℕ, ◌<◌, ◌≡◌, refl, sym, ap, ◌∙◌, true, false, List, some, none, ◌==◌, Option-cases, inl, inr,
  length, none≢some, some_injective, subst, Bool-cases, get_or-append_end,
}
use clustered_big_cache.Prelude.Keys.{key_eq_self}
use clustered_big_cache.Shard.{Deps}
use clustered_big_cache.Message.{ProposedPeer}
use clustered_big_cache.SliceList.{load, contains, store, delete}
use clustered_big_cache.SliceList
use clustered_big_cache.SliceList.Unique.{
  IsUnique, load-store_any, load-delete_any, store-IsUnique, contains_missing, add-IsUnique,
  load-remove,
}
use clustered_big_cache.Cluster.{Node, nil_remote, remote, cluster_state_started}
use clustered_big_cache.Cluster.Peers.{
  connect_to, store_pending, event_verify_remote_node, new_remote_node, peer_config,
  check_remote_config, fresh_remote, end_remote,
}
use clustered_big_cache.Prelude.Outcome.{ok}
use clustered_big_cache.Cluster.Handlers.Leaving.{ended_node, end_remote_lem}

module _ (D : Deps) where
  -- The remote node is the new one, of the peer, and the node did not know the peer.
  pub record IsNewPeer (n n' : Node D) (r : ℕ) (value : ProposedPeer) : Type 0 where
    pub started : (n.state == cluster_state_started) ≡ true
    pub not_pending : load n.pending_conn value.id ≡ none
    pub not_member : contains n.remote_nodes value.id ≡ false
    pub is_last : r ≡ length n.remotes
    pub has_id : (remote D n' r).config.id ≡ value.id
    pub same_members : n'.remote_nodes ≡ n.remote_nodes

  connect_to_pending :
      (n : Node D) (value : ProposedPeer) {address : List ℕ}
      → load n.pending_conn value.id ≡ some address
      → connect_to D n value ≡ none
  unfolding connect_to
  connect_to_pending n value e = elim (Bool-cases (n.state == cluster_state_started)) [
    | inl s ↦ rw (s, e)
    | inr s ↦ rw s
  ]

  connect_to_member :
      (n : Node D) (value : ProposedPeer) {r : ℕ}
      → (n.state == cluster_state_started) ≡ true
      → load n.pending_conn value.id ≡ none
      → load n.remote_nodes.items value.id ≡ some r
      → connect_to D n value ≡ none
  unfolding connect_to
  connect_to_member n value s e m = rw (s, e, m)

  connect_to_new :
      (n : Node D) (value : ProposedPeer)
      → (n.state == cluster_state_started) ≡ true
      → load n.pending_conn value.id ≡ none
      → load n.remote_nodes.items value.id ≡ none
      → connect_to D n value ≡ some (new_remote_node D n (peer_config D n value))
  unfolding connect_to
  connect_to_new n value s e m = rw (s, e, m)

  connect_to_stopped :
      (n : Node D) (value : ProposedPeer)
      → (n.state == cluster_state_started) ≡ false
      → connect_to D n value ≡ none
  unfolding connect_to
  connect_to_stopped n value s = rw s

  new_remote_node-IsNewPeer :
      (n : Node D) (value : ProposedPeer)
      → (n.state == cluster_state_started) ≡ true
      → load n.pending_conn value.id ≡ none
      → load n.remote_nodes.items value.id ≡ none
      → IsNewPeer n
          (new_remote_node D n (peer_config D n value)).1
          (new_remote_node D n (peer_config D n value)).0
          value
  unfolding new_remote_node check_remote_config
  new_remote_node-IsNewPeer n value s e m = record {
    started = s;
    not_pending = e;
    not_member = contains_missing n.remote_nodes value.id m;
    is_last = refl;
    has_id =
        ap (λ v. v.config.id)
          (get_or-append_end n.remotes (fresh_remote (peer_config D n value)) nil_remote);
    same_members = refl;
  }

  -- `connectToExistingNodes` makes a remote node for a value of the queue only where the node has started and
  -- the id of the value is neither pending nor that of a member.
  pub connect_to-IsNewPeer :
      (n n' : Node D) (r : ℕ) (value : ProposedPeer)
      → connect_to D n value ≡ some (r, n')
      → IsNewPeer n n' r value
  connect_to-IsNewPeer n n' r value e = elim (Bool-cases (n.state == cluster_state_started)) [
    | inr s ↦ absurd (none≢some (sym (connect_to_stopped n value s) ∙ e))
    | inl s ↦ elim (Option-cases (load n.pending_conn value.id)) [
      | inr (address, p) ↦ absurd (none≢some (sym (connect_to_pending n value p) ∙ e))
      | inl p ↦ elim (Option-cases (load n.remote_nodes.items value.id)) [
        | inr (q, m) ↦ absurd (none≢some (sym (connect_to_member n value s p m) ∙ e))
        | inl m ↦
            let made = some_injective (sym (connect_to_new n value s p m) ∙ e) in
            subst (λ w. IsNewPeer n w.1 w.0 value) made (new_remote_node-IsNewPeer n value s p m)
      ]
    ]
  ]

  -- The remote node is a member under the id of its peer; then it has ended, and its peer is no member any more.
  pub record IsLeft (n n' : Node D) (r : ℕ) (value : ProposedPeer) : Type 0 where
    pub was_member : load n.remote_nodes.items value.id ≡ some r
    pub ended : end_remote D n r ≡ ok n'
    pub no_member : load n'.remote_nodes.items value.id ≡ none

  ended-IsLeft :
      (n : Node D) (r : ℕ) (value : ProposedPeer)
      → r < length n.remotes
      → (remote D n r).config.id ≡ value.id
      → (remote D n r).config.reconnect_on_disconnect ≡ false
      → IsUnique n.remote_nodes.items
      → load n.remote_nodes.items value.id ≡ some r
      → IsLeft n (ended_node D n r) r value
  ended-IsLeft n r value h e quiet u there = record {
    was_member = there;
    ended = end_remote_lem D n r h quiet;
    no_member =
        load-remove n.remote_nodes (remote D n r).config.id value.id u
        ∙ rw (e, key_eq_self value.id) refl;
  }

  verify_new :
      (n : Node D) (r : ℕ)
      → contains n.remote_nodes (remote D n r).config.id ≡ false
      → event_verify_remote_node D n r ≡ (
        true,
        record n {
          remote_nodes = SliceList.add n.remote_nodes (remote D n r).config.id (some r);
          pending_conn = delete n.pending_conn (remote D n r).config.id;
        },
      )
  unfolding event_verify_remote_node
  verify_new n r c = rw c refl

  -- The two orders in which `connectToExistingNodes` notes a new peer as pending and the peer is verified, and what
  -- follows once the remote node `r` of the peer has ended. Where the node has started, `r` has the id of the peer,
  -- is not to reconnect, and is no member, and each id is pending or a member once: in both orders `r` is a member and
  -- then is none any more. Noted first, the peer is connected to when it is proposed anew. Verified first, as `join`
  -- starts a goroutine before the id is noted, the peer is passed over, though there is no connection to it.
  pub pending_order :
      (n : Node D) (r : ℕ) (value : ProposedPeer)
      → (n.state == cluster_state_started) ≡ true
      → r < length n.remotes
      → (remote D n r).config.id ≡ value.id
      → (remote D n r).config.reconnect_on_disconnect ≡ false
      → contains n.remote_nodes value.id ≡ false
      → IsUnique n.pending_conn
      → IsUnique n.remote_nodes.items
      → ((n₁ : Node D) × IsLeft
            (event_verify_remote_node D (store_pending D n value) r).1
            n₁
            r
            value
          × (connect_to D n₁ value ≡ some (new_remote_node D n₁ (peer_config D n₁ value))))
        × ((n₂ : Node D) × IsLeft
              (store_pending D (event_verify_remote_node D n r).1 value)
              n₂
              r
              value
            × (connect_to D n₂ value ≡ none))
  unfolding store_pending SliceList.add
  pending_order n r value started h e quiet c u m =
      let noted = store_pending D n value in
      let added = SliceList.add n.remote_nodes (remote D n r).config.id (some r) in
      let fresh : contains n.remote_nodes (remote D n r).config.id ≡ false =
        subst (λ id. contains n.remote_nodes id ≡ false) (sym e) c in
      let unique : IsUnique added.items =
        add-IsUnique n.remote_nodes (remote D n r).config.id r m in
      let n₁ : Node D = record noted {
        remote_nodes = added;
        pending_conn = delete noted.pending_conn (remote D n r).config.id;
      } in
      let n₂ : Node D = record n {
        remote_nodes = added;
        pending_conn =
            store (delete n.pending_conn (remote D n r).config.id) value.id value.ip_address;
      } in
      let there : load added.items value.id ≡ some r =
        load-store_any n.remote_nodes.items (remote D n r).config.id r value.id
        ∙ rw (e, key_eq_self value.id) refl in
      let left₁ = ended-IsLeft n₁ r value h e quiet unique there in
      let left₂ = ended-IsLeft n₂ r value h e quiet unique there in
      let gone : load n₁.pending_conn value.id ≡ none =
        load-delete_any noted.pending_conn (remote D n r).config.id value.id
          (store-IsUnique n.pending_conn value.id value.ip_address u)
        ∙ rw (e, key_eq_self value.id) refl in
      let stays : load n₂.pending_conn value.id ≡ some value.ip_address =
        load-store_any (delete n.pending_conn (remote D n r).config.id) value.id value.ip_address
          value.id
        ∙ rw (key_eq_self value.id) refl in
      (
        (
          ended_node D n₁ r,
          subst (λ w. IsLeft w.1 (ended_node D n₁ r) r value) (sym (verify_new noted r fresh))
              left₁,
          connect_to_new (ended_node D n₁ r) value started gone left₁.no_member,
        ),
        (
          ended_node D n₂ r,
          subst (λ w. IsLeft (store_pending D w.1 value) (ended_node D n₂ r) r value)
              (sym (verify_new n r fresh)) left₂,
          connect_to_pending (ended_node D n₂ r) value stays,
        ),
      )
