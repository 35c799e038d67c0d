-- ===== src/Cluster/Service/Delivering.antt =====
-- The goroutine `replication` of Cluster/clusteredBigCache.go, and the way of a put to the other nodes.
use clustered_big_cache.Prelude.{
  ℕ, zero, suc, ◌+◌, ◌<◌, ◌≤◌, ◌≡◌, refl, sym, ap, ◌∙◌, subst, Bool, ◌||◌, ◌==◌, if◌then◌else◌,
  List, [], ◌∷◌, ◌++◌, length, get_or, set, lt→ltb, arith, Bool-cases, inl, inr, append-nil,
  append_assoc, length-append, length-set, get_or-set_self, get_or-set_ne, ==→eq, ==→ne, All,
}
use clustered_big_cache.Prelude.Outcome.{Outcome, ok, ◌>>=◌}
use clustered_big_cache.Shard.{Deps}
use clustered_big_cache.Message.{NodeMessage}
use clustered_big_cache.Cluster.{
  RemoteNode, ReplicationMsg, Node, remote, put_remote, nil_remote, chan_size,
}
use clustered_big_cache.Cluster.Peers.{is_disconnected, send_message}
use clustered_big_cache.Cluster.Service.{replication_round}

-- What becomes of a remote node to which messages are sent: nothing, once it is down.
abbrev pub is_down : RemoteNode → Bool
is_down v = is_disconnected v.receiver.state || v.closed

abbrev pub delivered : RemoteNode → List NodeMessage → RemoteNode
delivered v msgs = record v { outbound = if is_down v then v.outbound else v.outbound ++ msgs }

-- The messages for one remote node, in order.
abbrev pub addressed : List ReplicationMsg → ℕ → List NodeMessage
addressed [] p = []
addressed (m ∷ msgs) p =
    let rest = addressed msgs p in if m.target == p then m.message ∷ rest else rest

send_lem :
    (v : RemoteNode) (msg : NodeMessage)
    → length v.outbound < chan_size
    → send_message v msg ≡ ok (delivered v (msg ∷ []))
unfolding send_message
send_lem v msg h = elim (Bool-cases (is_down v)) [
  | inl e ↦ rw e
  | inr e ↦ rw (e, lt→ltb (length v.outbound) chan_size h)
]

delivered_none : (v : RemoteNode) → delivered v [] ≡ v
delivered_none v = elim (Bool-cases (is_down v)) [
  | inl e ↦ rw e
  | inr e ↦ rw (e, append-nil v.outbound)
]

delivered_more :
    (v : RemoteNode) (msg : NodeMessage) (msgs : List NodeMessage)
    → delivered (delivered v (msg ∷ [])) msgs ≡ delivered v (msg ∷ msgs)
delivered_more v msg msgs = elim (Bool-cases (is_down v)) [
  | inl e ↦ rw e
  | inr e ↦ rw (e, append_assoc v.outbound (msg ∷ []) msgs)
]

longer-delivered :
    (v : RemoteNode) (msg : NodeMessage)
    → length (delivered v (msg ∷ [])).outbound ≤ length v.outbound + 1
longer-delivered v msg = ground (arith, length-append v.outbound (msg ∷ []))

module _ (D : Deps) where
  -- The goroutine, round by round.
  unfoldable pub replication_rounds : (rounds : ℕ) → Node D → Outcome (Node D)
  replication_rounds zero n = ok n
  replication_rounds (suc rounds) n = replication_round D n >>= λ n'. replication_rounds rounds n'

  -- The queue goes to remote nodes that there are, and each has room for all of it.
  pub record CanDeliver (n : Node D) : Type 0 where
    pub targets : All (λ m. m.target < length n.remotes) n.replication_chan
    pub room : (p : ℕ) → length (remote D n p).outbound + length n.replication_chan ≤ chan_size

  pub record IsDelivered (n n' : Node D) : Type 0 where
    pub emptied : n'.replication_chan ≡ []
    pub handed_on :
        (p : ℕ) → remote D n' p ≡ delivered (remote D n p) (addressed n.replication_chan p)

  abbrev after_round : Node D → ReplicationMsg → List ReplicationMsg → Node D
  after_round n m msgs =
      put_remote D (record n { replication_chan = msgs }) m.target
        (delivered (remote D n m.target) (m.message ∷ []))

  round_lem :
      (n : Node D) (m : ReplicationMsg) (msgs : List ReplicationMsg)
      → n.replication_chan ≡ m ∷ msgs
      → length (remote D n m.target).outbound < chan_size
      → replication_round D n ≡ ok (after_round n m msgs)
  unfolding replication_round
  round_lem n m msgs e h = rw (e, send_lem (remote D n m.target) m.message h)

  next_round :
      (rounds : ℕ) (n n₁ : Node D)
      → replication_round D n ≡ ok n₁
      → replication_rounds (suc rounds) n ≡ replication_rounds rounds n₁
  unfolding replication_rounds
  next_round rounds n n₁ e = rw e

  same-after_round :
      (n : Node D) (m : ReplicationMsg) (msgs : List ReplicationMsg) (p : ℕ)
      → m.target < length n.remotes
      → remote D (after_round n m msgs) p
        ≡ (if m.target == p then delivered (remote D n p) (m.message ∷ []) else remote D n p)
  same-after_round n m msgs p h =
      let v = delivered (remote D n m.target) (m.message ∷ []) in
      elim (Bool-cases (m.target == p)) [
        | inl e ↦ rw e (
            subst
              (λ q.
                get_or (set n.remotes m.target v) q nil_remote
                ≡ delivered (remote D n q) (m.message ∷ []))
              (==→eq m.target p e) (get_or-set_self n.remotes m.target v nil_remote h))
        | inr e ↦ rw e (get_or-set_ne n.remotes m.target p v nil_remote (==→ne m.target p e))
      ]

  longer-after_round :
      (n : Node D) (m : ReplicationMsg) (msgs : List ReplicationMsg) (p : ℕ)
      → m.target < length n.remotes
      → length (remote D (after_round n m msgs) p).outbound ≤ length (remote D n p).outbound + 1
  longer-after_round n m msgs p h =
      let same = ap (λ v. length v.outbound) (same-after_round n m msgs p h) in
      let more = longer-delivered (remote D n p) m.message in
      elim (Bool-cases (m.target == p)) [
        | inl e ↦ omega (
          arith,
          more,
          same
              ∙ ap
                  (λ b.
                    length
                      (if b
                        then delivered (remote D n p) (m.message ∷ [])
                        else remote D n p).outbound)
                  e,
        )
        | inr e ↦ omega (
          arith,
          same
              ∙ ap
                  (λ b.
                    length
                      (if b
                        then delivered (remote D n p) (m.message ∷ [])
                        else remote D n p).outbound)
                  e,
        )
      ]

  CanDeliver-after_round :
      (n : Node D) (m : ReplicationMsg) (msgs : List ReplicationMsg)
      → n.replication_chan ≡ m ∷ msgs
      → CanDeliver n
      → CanDeliver (after_round n m msgs)
  CanDeliver-after_round n m msgs e c =
      let v = delivered (remote D n m.target) (m.message ∷ []) in
      let all = subst (λ l. All (λ x. x.target < length n.remotes) l) e c.targets in
      record {
        targets =
            subst (λ k. All (λ x. x.target < k) msgs) (sym (length-set n.remotes m.target v)) all.1;
        room = λ p. omega (
          arith,
          c.room p,
          ap (length {A = ReplicationMsg}) e,
          longer-after_round n m msgs p all.0,
        );
      }

  IsDelivered-after_round :
      (n n' : Node D) (m : ReplicationMsg) (msgs : List ReplicationMsg)
      → n.replication_chan ≡ m ∷ msgs
      → m.target < length n.remotes
      → IsDelivered (after_round n m msgs) n'
      → IsDelivered n n'
  IsDelivered-after_round n n' m msgs e h d = record {
    emptied = d.emptied;
    handed_on = λ p.
        d.handed_on p
        ∙ (ap (λ v. delivered v (addressed msgs p)) (same-after_round n m msgs p h)
            ∙ (first_addressed p ∙ ap (λ l. delivered (remote D n p) (addressed l p)) (sym e)));
  }
    where
      first_addressed :
          (p : ℕ)
          → delivered
              (if m.target == p then delivered (remote D n p) (m.message ∷ []) else remote D n p)
              (addressed msgs p)
            ≡ delivered (remote D n p) (addressed (m ∷ msgs) p)
      first_addressed p = elim (Bool-cases (m.target == p)) [
        | inl t ↦ rw t (delivered_more (remote D n p) m.message (addressed msgs p))
        | inr t ↦ rw t
      ]

  -- After as many rounds as the queue is long, where it can be delivered, it is empty, and each remote node has
  -- the messages for it behind its own, in order, or, where it is down, is as before.
  pub replication_rounds-IsDelivered :
      (msgs : List ReplicationMsg) (n : Node D)
      → n.replication_chan ≡ msgs
      → CanDeliver n
      → (n' : Node D) × (replication_rounds (length msgs) n ≡ ok n') × IsDelivered n n'
  unfolding replication_rounds
  replication_rounds-IsDelivered [] n e c =
      (n, refl, record { emptied = e; handed_on = λ p. rw e (sym (delivered_none (remote D n p))) })
  replication_rounds-IsDelivered (m ∷ msgs) n e c =
      let all = subst (λ l. All (λ x. x.target < length n.remotes) l) e c.targets in
      let room : length (remote D n m.target).outbound < chan_size =
        omega (arith, c.room m.target, ap (length {A = ReplicationMsg}) e) in
      let (n', run, d) =
        replication_rounds-IsDelivered msgs (after_round n m msgs) refl
          (CanDeliver-after_round n m msgs e c) in
      (
        n',
        next_round (length msgs) n (after_round n m msgs) (round_lem n m msgs e room) ∙ run,
        IsDelivered-after_round n n' m msgs e all.0 d,
      )
