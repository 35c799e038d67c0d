-- ===== src/Cluster/Service/Replicating.antt =====
-- `Put` and `Delete` of Cluster/clusteredBigCache.go, and the goroutine `replication`.
use clustered_big_cache.Prelude.{
  ℕ, ◌+◌, ◌<◌, ◌≤◌, ◌≡◌, sym, ap, ◌∙◌, Bool, true, false, ◌==◌, if◌then◌else◌, List, [], ◌∷◌, ◌++◌,
  Option, Option-cases, some, none, length, get_or, lt→ltb, arith, Bool-cases, inl, inr, append-nil,
  append_assoc, length-append,
}
use clustered_big_cache.Prelude.Outcome.{
  ok, panic, panic≢ok, Reply, value, failure, Fault, ◌>>=◌, bind-ok, ok-injective,
}
use clustered_big_cache.Shard.{Deps, no_expiry}
use clustered_big_cache.Message.{NodeMessage, put, delete}
use clustered_big_cache.BigCache
use clustered_big_cache.BigCache.{BigCache}
use clustered_big_cache.Prelude.Int.{ℤ}
use clustered_big_cache.SliceList.{values}
use clustered_big_cache.Cluster.{
  RemoteNode, ReplicationMsg, Node, nil_remote, chan_size, cluster_mode_passive,
  cluster_mode_active, cluster_state_started,
}
use clustered_big_cache.Cluster.Service.{
  passive_expiry, queue_replication, replicate_to, store_locally, put_data, delete_locally,
  delete_data,
}

abbrev pub is_passive : List RemoteNode → ℕ → Bool
is_passive remotes p = (get_or remotes p nil_remote).mode == cluster_mode_passive

-- One message for each of the peers that is not passive, in order.
abbrev pub copies : List RemoteNode → List ℕ → NodeMessage → List ReplicationMsg
copies remotes [] msg = []
copies remotes (p ∷ peers) msg =
    let rest = copies remotes peers msg in
    if is_passive remotes p then rest else record { target = p; message = msg } ∷ rest

module _ (D : Deps) where
  abbrev pub with_queue : Node D → List ReplicationMsg → Node D
  with_queue n msgs = record n { replication_chan = n.replication_chan ++ msgs }

  queue_open :
      (n : Node D) (msg : ReplicationMsg)
      → n.closed ≡ false
      → length n.replication_chan < chan_size
      → queue_replication D n msg ≡ ok (with_queue n (msg ∷ []))
  unfolding queue_replication
  queue_open n msg o h = rw (o, lt→ltb (length n.replication_chan) chan_size h)

  step_passive :
      (n : Node D) (p : ℕ) (peers : List ℕ) (msg : NodeMessage)
      → (is_passive n.remotes p) ≡ true
      → replicate_to D n (p ∷ peers) msg ≡ replicate_to D n peers msg
  unfolding replicate_to
  step_passive n p peers msg e = rw e

  step_active :
      (n : Node D) (p : ℕ) (peers : List ℕ) (msg : NodeMessage)
      → (is_passive n.remotes p) ≡ false
      → n.closed ≡ false
      → length n.replication_chan < chan_size
      → replicate_to D n (p ∷ peers) msg
        ≡ replicate_to D (with_queue n (record { target = p; message = msg } ∷ [])) peers msg
  unfolding replicate_to
  step_active n p peers msg e o h = rw (e, queue_open n (record { target = p; message = msg }) o h)

  -- Where the queue has room for all peers, each peer that is not passive gets the message once, in order,
  -- and nothing else changes.
  pub replicate_to-copies :
      (n : Node D) (peers : List ℕ) (msg : NodeMessage)
      → n.closed ≡ false
      → length n.replication_chan + length peers ≤ chan_size
      → replicate_to D n peers msg ≡ ok (with_queue n (copies n.remotes peers msg))
  unfolding replicate_to
  replicate_to-copies n [] msg o h =
      ap (λ l. ok (record n { replication_chan = l })) (sym (append-nil n.replication_chan))
  replicate_to-copies n (p ∷ peers) msg o h = elim (Bool-cases (is_passive n.remotes p)) [
    | inl e ↦
        step_passive n p peers msg e ∙ (replicate_to-copies n peers msg o (omega arith) ∙ rw e)
    | inr e ↦
        let one : ReplicationMsg = record { target = p; message = msg } in
        let n₁ = with_queue n (one ∷ []) in
        step_active n p peers msg e o (omega arith)
        ∙ (replicate_to-copies n₁ peers msg o
              (omega (arith, length-append n.replication_chan (one ∷ [])))
            ∙ rw (e, append_assoc n.replication_chan (one ∷ []) (copies n.remotes peers msg)))
  ]

  store_active :
      (n : Node D) (c : BigCache D) (key bytes : List ℕ) (duration : ℤ) (now : ℕ)
      → (n.mode == cluster_mode_active) ≡ true
      → n.cache ≡ some c
      → store_locally D n key bytes duration now ≡ (
          BigCache.set_key D c key bytes duration now >>= λ p.
          ok (p.0, record n { cache = some p.1 }))
  unfolding store_locally
  store_active n c key bytes duration now a there = rw (a, there)

  store_no_cache :
      (n : Node D) (key bytes : List ℕ) (duration : ℤ) (now : ℕ)
      → (n.mode == cluster_mode_active) ≡ true
      → n.cache ≡ none
      → store_locally D n key bytes duration now ≡ panic
  unfolding store_locally
  store_no_cache n key bytes duration now a there = rw (a, there)

  store_elsewhere :
      (n : Node D) (key bytes : List ℕ) (duration : ℤ) (now : ℕ)
      → (n.mode == cluster_mode_active) ≡ false
      → store_locally D n key bytes duration now
        ≡ ok (
          value
              (if n.mode == cluster_mode_passive then passive_expiry D duration now else no_expiry),
          n,
        )
  unfolding store_locally
  store_elsewhere n key bytes duration now a = elim (Bool-cases (n.mode == cluster_mode_passive)) [
    | inl b ↦ rw (a, b)
    | inr b ↦ rw (a, b)
  ]

  -- The local part of `Put` changes the cache only.
  pub store_locally-keeps :
      (n n₁ : Node D) (key bytes : List ℕ) (duration : ℤ) (now : ℕ) (reply : Reply ℕ)
      → store_locally D n key bytes duration now ≡ ok (reply, n₁)
      → (cache : Option (BigCache D)) × (n₁ ≡ record n { cache = cache })
  store_locally-keeps n n₁ key bytes duration now reply e =
      elim (Bool-cases (n.mode == cluster_mode_active)) [
        | inr a ↦ (
          n.cache,
          ap (λ p. p.1) (ok-injective (sym e ∙ store_elsewhere n key bytes duration now a)),
        )
        | inl a ↦ elim (Option-cases n.cache) [
          | inl there ↦
              absurd (panic≢ok (sym (store_no_cache n key bytes duration now a there) ∙ e))
          | inr (c, there) ↦
              let (p, done, last) =
                bind-ok (BigCache.set_key D c key bytes duration now)
                  (λ p. ok (p.0, record n { cache = some p.1 }))
                  (sym (store_active n c key bytes duration now a there) ∙ e) in
              (some p.1, ap (λ q. q.1) (sym (ok-injective last)))
        ]
      ]

  -- The message of `Put`
  abbrev pub put_message : (key bytes : List ℕ) (expiry : ℕ) → NodeMessage
  put_message key bytes expiry =
      put (record { code = 0; key = key; expiry = expiry; bytes = bytes })

  pub put_data_failed :
      (n n₁ : Node D) (key bytes : List ℕ) (duration : ℤ) (now : ℕ) (e : Fault)
      → (n.state == cluster_state_started) ≡ true
      → store_locally D n key bytes duration now ≡ ok (failure e, n₁)
      → put_data D n key bytes duration now ≡ ok (failure e, n₁)
  unfolding put_data
  put_data_failed n n₁ key bytes duration now e s h = rw (s, h)

  pub put_data_stored :
      (n n₁ : Node D) (key bytes : List ℕ) (duration : ℤ) (now expiry : ℕ)
      → (n.state == cluster_state_started) ≡ true
      → store_locally D n key bytes duration now ≡ ok (value expiry, n₁)
      → n.closed ≡ false
      → length n.replication_chan + length (values n.remote_nodes) ≤ chan_size
      → put_data D n key bytes duration now
        ≡ ok (
          value tt,
          with_queue n₁ (copies n.remotes (values n.remote_nodes) (put_message key bytes expiry)),
        )
  unfolding put_data
  put_data_stored n n₁ key bytes duration now expiry s h o room =
      let (cache, same) = store_locally-keeps n n₁ key bytes duration now (value expiry) h in
      let sent =
        replicate_to-copies (record n { cache = cache }) (values n.remote_nodes)
          (put_message key bytes expiry) o room in
      rw (s, h, same, sent)

  -- `Delete` likewise
  abbrev pub delete_message : (key : List ℕ) → NodeMessage
  delete_message key = delete (record { code = 0; key = key })

  delete_active :
      (n : Node D) (c : BigCache D) (key : List ℕ) (now : ℕ)
      → (n.mode == cluster_mode_active) ≡ true
      → n.cache ≡ some c
      → delete_locally D n key now
        ≡ (BigCache.delete D c key now >>= λ p. ok (record n { cache = some p.1 }))
  unfolding delete_locally
  delete_active n c key now a there = rw (a, there)

  delete_no_cache :
      (n : Node D) (key : List ℕ) (now : ℕ)
      → (n.mode == cluster_mode_active) ≡ true
      → n.cache ≡ none
      → delete_locally D n key now ≡ panic
  unfolding delete_locally
  delete_no_cache n key now a there = rw (a, there)

  delete_elsewhere :
      (n : Node D) (key : List ℕ) (now : ℕ)
      → (n.mode == cluster_mode_active) ≡ false
      → delete_locally D n key now ≡ ok n
  unfolding delete_locally
  delete_elsewhere n key now a = rw a

  pub delete_locally-keeps :
      (n n₁ : Node D) (key : List ℕ) (now : ℕ)
      → delete_locally D n key now ≡ ok n₁
      → (cache : Option (BigCache D)) × (n₁ ≡ record n { cache = cache })
  delete_locally-keeps n n₁ key now e = elim (Bool-cases (n.mode == cluster_mode_active)) [
    | inr a ↦ (n.cache, ok-injective (sym e ∙ delete_elsewhere n key now a))
    | inl a ↦ elim (Option-cases n.cache) [
      | inl there ↦ absurd (panic≢ok (sym (delete_no_cache n key now a there) ∙ e))
      | inr (c, there) ↦
          let (p, done, last) =
            bind-ok (BigCache.delete D c key now) (λ p. ok (record n { cache = some p.1 }))
              (sym (delete_active n c key now a there) ∙ e) in
          (some p.1, sym (ok-injective last))
    ]
  ]

  pub delete_data_done :
      (n n₁ : Node D) (key : List ℕ) (now : ℕ)
      → (n.state == cluster_state_started) ≡ true
      → delete_locally D n key now ≡ ok n₁
      → n.closed ≡ false
      → length n.replication_chan + length (values n.remote_nodes) ≤ chan_size
      → delete_data D n key now
        ≡ ok (
          value tt,
          with_queue n₁ (copies n.remotes (values n.remote_nodes) (delete_message key)),
        )
  unfolding delete_data
  delete_data_done n n₁ key now s h o room =
      let (cache, same) = delete_locally-keeps n n₁ key now h in
      let sent =
        replicate_to-copies (record n { cache = cache }) (values n.remote_nodes)
          (delete_message key) o room in
      rw (s, h, same, sent)
