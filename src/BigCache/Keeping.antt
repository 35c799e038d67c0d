-- ===== src/BigCache/Keeping.antt =====
-- `Get`, `Set` and `Delete` of bigcache/bigcache.go over the shards.
use clustered_big_cache.Prelude.{
  ℕ, ◌+◌, ◌%◌, ◌^◌, ◌<◌, ◌≡◌, ◌≢◌, ◌⊎◌, inl, inr, ap, sym, subst, ◌∙◌, true, false, List, some,
  arith, some_injective, length, get_elem?, length-set, get_elem?-set_ne, get_elem?-set_self,
}
use clustered_big_cache.Prelude.Int.{ℤ}
use clustered_big_cache.Prelude.Outcome.{
  Outcome, ok, blocked, Reply, value, ◌>>=◌, bind-ok, ok-injective,
}
use clustered_big_cache.Shard
use clustered_big_cache.Shard.{Deps, CacheShard, drop_previous, expiry_timestamp, hit}
use clustered_big_cache.Shard.Full.{locked-IsHung}
use native.Mathlib.Nat.{mod-lt}
use clustered_big_cache.Prelude.Bits.{pow_pos}
use clustered_big_cache.Shard.Storing.{IsUsable, set-Sets}
use clustered_big_cache.BigCache.{BigCache, get_shard, put_shard, get, set_key, delete}
use clustered_big_cache.BigCache.Routing.{IsRouted, get_shard-IsRouted}

module _ (D : Deps) where
  -- The index of the shard of a key.
  abbrev pub home : BigCache D → List ℕ → ℕ
  home c key = D.sum64 key % length c.shards

  -- What a call for a key may leave: the same routing, and the same shards but the one of the key.
  pub record IsLocal (c c' : BigCache D) (key : List ℕ) : Type 0 where
    pub routed : IsRouted D c'
    pub same_count : length c'.shards ≡ length c.shards
    pub others_same :
        (index : ℕ) → index ≢ home c key → get_elem? c'.shards index ≡ get_elem? c.shards index

  pub put_shard-IsLocal :
      (c : BigCache D) (key : List ℕ) (shard : CacheShard D)
      → IsRouted D c
      → IsLocal c (put_shard D c (home c key) shard) key
  put_shard-IsLocal c key shard r =
      let n = length-set c.shards (home c key) shard in
      record {
        routed = record {
          bits = r.bits;
          count = n ∙ r.count;
          mask = r.mask;
          configured = r.configured ∙ sym n;
        };
        same_count = n;
        others_same = λ index other. get_elem?-set_ne c.shards shard (λ e. other (sym e));
      }

  -- A call that takes the shard of a key, changes it and puts it back.
  on_shard :
      {A : Type 0}
      → (BigCache D)
      → List ℕ
      → (CacheShard D → Outcome (A × CacheShard D))
      → Outcome (A × BigCache D)
  on_shard c key op =
      get_shard D c (D.sum64 key) >>= λ p. op p.1 >>= λ q. ok (q.0, put_shard D c p.0 q.1)

  on_shard-IsLocal :
      {A : Type 0} (c c' : BigCache D) (key : List ℕ)
      (op : CacheShard D → Outcome (A × CacheShard D)) (a : A)
      → IsRouted D c
      → on_shard c key op ≡ ok (a, c')
      → IsLocal c c' key
  unfolding on_shard
  on_shard-IsLocal c c' key op a r e =
      let (shard, found, there) = get_shard-IsRouted D c (D.sum64 key) r in
      let ((index, shard₀), took, rest) =
        bind-ok (get_shard D c (D.sum64 key)) (λ p. op p.1 >>= λ q. ok (q.0, put_shard D c p.0 q.1))
          e in
      let ((b, shard'), done, last) =
        bind-ok (op shard₀) (λ q. ok (q.0, put_shard D c index q.1)) rest in
      let same_index : index ≡ home c key = ap (λ p. p.0) (ok-injective (sym took ∙ found)) in
      let result : put_shard D c (home c key) shard' ≡ c' =
        ap (λ i. put_shard D c i shard') (sym same_index) ∙ ap (λ p. p.1) (ok-injective last) in
      subst (λ d. IsLocal c d key) result (put_shard-IsLocal c key shard' r)

  -- `Get`, `Set` and `Delete` leave the routing as it was, and every shard but the one of the key.
  pub get-IsLocal :
      (c c' : BigCache D) (key : List ℕ) (reply : Reply (List ℕ))
      → IsRouted D c
      → get D c key ≡ ok (reply, c')
      → IsLocal c c' key
  unfolding get on_shard
  get-IsLocal c c' key reply r e =
      on_shard-IsLocal c c' key (λ s. Shard.get D s key (D.sum64 key)) reply r e

  pub set_key-IsLocal :
      (c c' : BigCache D) (key entry : List ℕ) (duration : ℤ) (now : ℕ) (reply : Reply ℕ)
      → IsRouted D c
      → set_key D c key entry duration now ≡ ok (reply, c')
      → IsLocal c c' key
  unfolding set_key on_shard
  set_key-IsLocal c c' key entry duration now reply r e =
      on_shard-IsLocal c c' key (λ s. Shard.set D s key (D.sum64 key) entry duration now) reply r e

  pub delete-IsLocal :
      (c c' : BigCache D) (key : List ℕ) (now : ℕ) (reply : Reply (Unit {0}))
      → IsRouted D c
      → delete D c key now ≡ ok (reply, c')
      → IsLocal c c' key
  unfolding delete on_shard
  delete-IsLocal c c' key now reply r e =
      on_shard-IsLocal c c' key (λ s. Shard.del D s key (D.sum64 key) now) reply r e

  -- What `Get` answers, from the shard that it asks.
  pub get_reads :
      (c : BigCache D) (key : List ℕ) (shard shard' : CacheShard D) (reply : Reply (List ℕ))
      → IsRouted D c
      → get_elem? c.shards (home c key) ≡ some shard
      → Shard.get D shard key (D.sum64 key) ≡ ok (reply, shard')
      → get D c key ≡ ok (reply, put_shard D c (home c key) shard')
  unfolding get
  get_reads c key shard shard' reply r there e =
      let (shard₀, found, there₀) = get_shard-IsRouted D c (D.sum64 key) r in
      let same : shard₀ ≡ shard = some_injective (sym there₀ ∙ there) in
      let e₀ = subst (λ s. Shard.get D s key (D.sum64 key) ≡ ok (reply, shard')) (sym same) e in
      rw (found, e₀)

  pub get_waits :
      (c : BigCache D) (key : List ℕ) (shard : CacheShard D)
      → IsRouted D c
      → get_elem? c.shards (home c key) ≡ some shard
      → shard.locked ≡ true
      → get D c key ≡ blocked
  unfolding get
  get_waits c key shard r there held =
      let (shard₀, found, there₀) = get_shard-IsRouted D c (D.sum64 key) r in
      let same : shard₀ ≡ shard = some_injective (sym there₀ ∙ there) in
      let waits = (locked-IsHung D shard held).get_waits key (D.sum64 key) in
      rw (found, same, waits)

  -- Between two caches that differ in the shard of one key only, as before and after a call for that key,
  -- `Get` of a key of another shard answers the same, if that shard answers it.
  pub get_elsewhere :
      (c c' : BigCache D) (key other : List ℕ) (shard shard' : CacheShard D)
      (reply : Reply (List ℕ))
      → IsRouted D c
      → IsLocal c c' key
      → home c other ≢ home c key
      → get_elem? c.shards (home c other) ≡ some shard
      → Shard.get D shard other (D.sum64 other) ≡ ok (reply, shard')
      → (get D c other ≡ ok (reply, put_shard D c (home c other) shard'))
        × (get D c' other ≡ ok (reply, put_shard D c' (home c' other) shard'))
  get_elsewhere c c' key other shard shard' reply r l apart there e = (
    get_reads c other shard shard' reply r there e,
    get_reads c' other shard shard' reply l.routed
        (ap (λ n. get_elem? c'.shards (D.sum64 other % n)) l.same_count
          ∙ (l.others_same (home c other) apart ∙ there))
        e,
  )

  -- The shard of a key can take an entry under it: it is free, the entry under the hash can be dropped, and
  -- the queue is usable after that.
  pub record IsOpen (c : BigCache D) (key entry : List ℕ) (now : ℕ) : Type 0 where
    pub routed : IsRouted D c
    pub shard : CacheShard D
    pub cleared : CacheShard D
    pub there : get_elem? c.shards (home c key) ≡ some shard
    pub free : shard.locked ≡ false
    pub dropped :
        drop_previous D (record shard { locked = true }) key (D.sum64 key) now ≡ ok cleared
    pub usable : IsUsable D cleared.entries
    pub short : length key < 65518
    pub word : 18 + length key + length entry < 2 ^ 32

  -- `Set`, on a cache with its routing in order where the shard of the key is free, its previous entry can
  -- be dropped and its queue is usable then, of a key of fewer than 65518 bytes and an entry below 2 ^ 32
  -- bytes: either the expiry is answered, and `Get` of the key then answers the value, or 0 is answered
  -- with no error, and `Get` of the key waits for ever.
  pub get-set_key :
      (c : BigCache D) (key entry : List ℕ) (duration : ℤ) (now : ℕ)
      → IsOpen c key entry now
      → (c' : BigCache D) × (((set_key D c key entry duration now
              ≡ ok (value (expiry_timestamp D duration now), c'))
            × (c'' : BigCache D) × (get D c' key ≡ ok (value entry, c'')))
          ⊎ ((set_key D c key entry duration now ≡ ok (value 0, c')) × (get D c' key ≡ blocked)))
  unfolding set_key
  get-set_key c key entry duration now o =
      let (shard₀, found, there₀) = get_shard-IsRouted D c (D.sum64 key) o.routed in
      let same : shard₀ ≡ o.shard = some_injective (sym there₀ ∙ o.there) in
      let (shard', cases) =
        set-Sets D key (D.sum64 key) duration now o.shard o.cleared entry o.free o.dropped o.usable
          o.short o.word in
      let l = put_shard-IsLocal c key shard' o.routed in
      let c' = put_shard D c (home c key) shard' in
      let inside : home c key < length c.shards =
        mod-lt (D.sum64 key) (omega (arith, o.routed.count, pow_pos o.routed.bits)) in
      let there' : get_elem? c'.shards (home c' key) ≡ some shard' =
        ap (λ n. get_elem? c'.shards (D.sum64 key % n)) l.same_count
        ∙ get_elem?-set_self c.shards (home c key) shard' inside in
      (
        c',
        elim cases [
          | inl (set_e, stored, get_e) ↦ inl (
            rw (found, same, set_e),
            _,
            get_reads c' key shard' (hit D shard') (value entry) l.routed there' get_e,
          )
          | inr (set_e, held) ↦
              inr (rw (found, same, set_e), get_waits c' key shard' l.routed there' held)
        ],
      )
