-- ===== src/Cluster/Service/Reaching.antt =====
-- `Put` and `Delete` of Cluster/clusteredBigCache.go, as far as the queues of the other nodes.
use clustered_big_cache.Prelude.{
  ℕ, suc, ◌+◌, ◌<◌, ◌≤◌, ◌≡◌, refl, sym, ap, ◌∙◌, subst, true, false, ◌==◌, if◌then◌else◌, List, [],
  ◌∷◌, ◌++◌, Option, length, replicate, arith, Bool-cases, inl, inr, All, ==→eq,
}
use clustered_big_cache.Prelude.Int.{ℤ}
use clustered_big_cache.Prelude.Outcome.{ok, value}
use clustered_big_cache.Shard.{Deps}
use clustered_big_cache.BigCache.{BigCache}
use clustered_big_cache.Message.{NodeMessage}
use clustered_big_cache.SliceList.{values}
use clustered_big_cache.Cluster.{
  RemoteNode, ReplicationMsg, Node, remote, chan_size, cluster_state_started,
}
use clustered_big_cache.Cluster.Service.{store_locally, put_data, delete_locally, delete_data}
use clustered_big_cache.Cluster.Service.Replicating.{
  is_passive, copies, with_queue, put_message, put_data_stored, store_locally-keeps, delete_message,
  delete_locally-keeps, delete_data_done,
}
use clustered_big_cache.Cluster.Service.Delivering.{
  delivered, addressed, replication_rounds, replication_rounds-IsDelivered, CanDeliver,
}

-- How often a peer stands in a list.
abbrev pub count : ℕ → List ℕ → ℕ
count p [] = 0
count p (q ∷ peers) = let rest = count p peers in if q == p then suc rest else rest

-- The copies of a message that a peer gets.
abbrev pub own_copies : List RemoteNode → List ℕ → NodeMessage → ℕ → List NodeMessage
own_copies remotes peers msg p = if is_passive remotes p then [] else replicate (count p peers) msg

addressed-copies :
    (remotes : List RemoteNode) (peers : List ℕ) (msg : NodeMessage) (p : ℕ)
    → addressed (copies remotes peers msg) p ≡ own_copies remotes peers msg p
addressed-copies remotes [] msg p = ground arith
addressed-copies remotes (q ∷ peers) msg p =
    let same : (q == p) ≡ true → is_passive remotes q ≡ is_passive remotes p =
      λ e. ap (is_passive remotes) (==→eq q p e) in
    let rest = addressed-copies remotes peers msg p in ground (arith, same, rest)

fewer-copies :
    (remotes : List RemoteNode) (peers : List ℕ) (msg : NodeMessage)
    → length (copies remotes peers msg) ≤ length peers
fewer-copies remotes [] msg = omega arith
fewer-copies remotes (q ∷ peers) msg = ground (arith, fewer-copies remotes peers msg)

copies-targets :
    (remotes : List RemoteNode) (peers : List ℕ) (msg : NodeMessage)
    → All (λ p. p < length remotes) peers
    → All (λ m. m.target < length remotes) (copies remotes peers msg)
copies-targets remotes [] msg h = tt
copies-targets remotes (q ∷ peers) msg h = elim (Bool-cases (is_passive remotes q)) [
  | inl e ↦ rw e (copies-targets remotes peers msg h.1)
  | inr e ↦ rw e (h.0, copies-targets remotes peers msg h.1)
]

module _ (D : Deps) where
  -- A node that is up, whose replication queue is empty, whose members are remote nodes that there are, and
  -- each of which has room for a message for every member.
  pub record IsReady (n : Node D) : Type 0 where
    pub started : (n.state == cluster_state_started) ≡ true
    pub is_open : n.closed ≡ false
    pub idle : n.replication_chan ≡ []
    pub members : All (λ p. p < length n.remotes) (values n.remote_nodes)
    pub room : (p : ℕ) → length (remote D n p).outbound + length (values n.remote_nodes) ≤ chan_size

  -- What a message to all members leaves, once the queue has been worked off: each remote node that is not
  -- passive has it, as often as it is a member, if it is not down.
  abbrev pub HasReached : Node D → Node D → NodeMessage → Type 0
  HasReached n n' msg =
      (p : ℕ)
      → remote D n' p
        ≡ delivered (remote D n p) (own_copies n.remotes (values n.remote_nodes) msg p)

  deliver_copies :
      (n : Node D) (cache : Option (BigCache D)) (msg : NodeMessage)
      → IsReady n
      → let n₁ =
          with_queue D
            (record n { cache = cache })
            (copies n.remotes (values n.remote_nodes) msg) in
        (n₂ : Node D) × (replication_rounds D (length n₁.replication_chan) n₁ ≡ ok n₂)
        × HasReached n n₂ msg
  deliver_copies n cache msg r =
      let peers = values n.remote_nodes in
      let n₁ = with_queue D (record n { cache = cache }) (copies n.remotes peers msg) in
      let queue : n₁.replication_chan ≡ copies n.remotes peers msg =
        ap (λ l. l ++ copies n.remotes peers msg) r.idle in
      let can : CanDeliver D n₁ = record {
        targets =
            subst (λ l. All (λ m. m.target < length n.remotes) l) (sym queue)
              (copies-targets n.remotes peers msg r.members);
        room = λ p. omega (
          arith,
          r.room p,
          fewer-copies n.remotes peers msg,
          ap (length {A = ReplicationMsg}) queue,
        );
      } in
      let (n₂, run, d) = replication_rounds-IsDelivered D n₁.replication_chan n₁ refl can in
      (
        n₂,
        run,
        λ p.
            d.handed_on p
            ∙ ap (delivered (remote D n p))
                (ap (λ l. addressed l p) queue ∙ addressed-copies n.remotes peers msg p),
      )

  room_for_copies :
      (n : Node D)
      → IsReady n
      → length n.replication_chan + length (values n.remote_nodes) ≤ chan_size
  room_for_copies n r = omega (arith, r.room 0, ap (length {A = ReplicationMsg}) r.idle)

  -- `Put`, on a node that is up and whose queue is empty, where the local part answers an expiry: it
  -- answers no error, and once the goroutine `replication` has worked off the queue, each member that
  -- is not passive and not down has one put message, with that expiry, behind its other messages for each
  -- time that it is a member; all other remote nodes are as before.
  pub put_data-reaches :
      (n n₁ : Node D) (key bytes : List ℕ) (duration : ℤ) (now expiry : ℕ)
      → IsReady n
      → store_locally D n key bytes duration now ≡ ok (value expiry, n₁)
      → (n₂ : Node D) × (n₃ : Node D) × (put_data D n key bytes duration now ≡ ok (value tt, n₂))
        × (replication_rounds D (length n₂.replication_chan) n₂ ≡ ok n₃)
        × HasReached n n₃ (put_message D key bytes expiry)
  put_data-reaches n n₁ key bytes duration now expiry r e =
      let msg = put_message D key bytes expiry in
      let (cache, same) = store_locally-keeps D n n₁ key bytes duration now (value expiry) e in
      let (n₃, run, reached) = deliver_copies n cache msg r in
      (
        _,
        n₃,
        put_data_stored D n (record n { cache = cache }) key bytes duration now expiry r.started
            (rw (sym same) e) r.is_open (room_for_copies n r),
        run,
        reached,
      )

  -- `Delete`, likewise: it answers no error, and the messages are delete messages for the key.
  pub delete_data-reaches :
      (n n₁ : Node D) (key : List ℕ) (now : ℕ)
      → IsReady n
      → delete_locally D n key now ≡ ok n₁
      → (n₂ : Node D) × (n₃ : Node D) × (delete_data D n key now ≡ ok (value tt, n₂))
        × (replication_rounds D (length n₂.replication_chan) n₂ ≡ ok n₃)
        × HasReached n n₃ (delete_message D key)
  delete_data-reaches n n₁ key now r e =
      let msg = delete_message D key in
      let (cache, same) = delete_locally-keeps D n n₁ key now e in
      let (n₃, run, reached) = deliver_copies n cache msg r in
      (
        _,
        n₃,
        delete_data_done D n (record n { cache = cache }) key now r.started (rw (sym same) e)
            r.is_open (room_for_copies n r),
        run,
        reached,
      )
