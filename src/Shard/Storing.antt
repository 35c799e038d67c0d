-- ===== src/Shard/Storing.antt =====
-- `set` of bigcache/shard.go: what it stores is what `get` reads back, and what a full queue leads to.
use clustered_big_cache.Prelude.{
  ℕ, ◌+◌, ◌%◌, ◌^◌, ◌<◌, ◌≤◌, ◌≡◌, refl, sym, ◌∙◌, ◌⊎◌, inl, inr, List, true, false, some, arith,
  length, ==_self, if◌then◌else◌, Option-cases, length-append, ◌++◌, subst,
}
use clustered_big_cache.Prelude.Int.{ℤ}
use clustered_big_cache.Prelude.Assoc.{lookup, insert, lookup-insert}
use clustered_big_cache.Prelude.Outcome.{Outcome, ok, err, value, Fault, full_queue}
use clustered_big_cache.Encoding.Layout.{layout, wrap_entry-layout}
use clustered_big_cache.FreeList
use clustered_big_cache.FreeList.{FreeList}
use clustered_big_cache.Queue
use clustered_big_cache.Queue.{BytesQueue}
use clustered_big_cache.Ttl
use clustered_big_cache.Queue.Entries.{IsEntry}
use clustered_big_cache.Queue.Linear.{IsLinear}
use clustered_big_cache.Queue.Append.{push-Appends}
use clustered_big_cache.Queue.Reuse.{push_reuses}
use clustered_big_cache.Shard.{
  Deps, CacheShard, get, set, drop_previous, set_push, expiry_timestamp, expires_at_all, hit,
  unlock,
}
use clustered_big_cache.Shard.Lookup.{IsStored, get-IsStored}

module _ (D : Deps) where
  open D use {blocks, keys}

  -- A queue that a push may use: nothing was popped, the blocks that its free list answers lie in its array,
  -- and places fit the `uint32` of the map.
  pub record IsUsable (q : BytesQueue blocks) : Type 0 where
    pub linear : IsLinear blocks q
    pub blocks_inside :
        (size idx : ℕ) (fl : FreeList blocks)
        → FreeList.find blocks q.freelist size ≡ some (idx, fl)
        → (0 < idx) × (idx + size ≤ length q.array)
    pub places_fit : length q.array < 2 ^ 32

  -- The outcomes of a push into a usable queue.
  abbrev Pushed : BytesQueue blocks → List ℕ → Outcome (ℕ × BytesQueue blocks) → Type 0
  Pushed q blob r =
      (r ≡ err full_queue)
      ⊎ ((index : ℕ) × (q' : BytesQueue blocks) × (r ≡ ok (index, q'))
          × (0 < index)
          × (index < 2 ^ 32)
          × (0 < q'.count)
          × IsEntry blocks q' index blob)

  push-Pushed :
      (q : BytesQueue blocks) (blob : List ℕ)
      → IsUsable q
      → 0 < length blob
      → length blob < 2 ^ 32
      → Pushed q blob (Queue.push blocks q blob)
  push-Pushed q blob u nonempty word =
      elim (Option-cases (FreeList.find blocks q.freelist (length blob + 4))) [
        | inl e ↦ elim (push-Appends blocks q blob u.linear nonempty word e) [
          | inl full ↦ inl full.0
          | inr (q', pushed, a) ↦ inr (
            q.tail,
            q',
            pushed,
            u.linear.tail_pos,
            omega (arith, u.places_fit, u.linear.tail_in, u.linear.allocated),
            omega (arith, a.counted),
            a.entry,
          )
        ]
        | inr ((idx, fl), e) ↦
            let (positive, inside) = u.blocks_inside (length blob + 4) idx fl e in
            let (q', pushed, rest, r) =
              push_reuses blocks q blob idx fl nonempty word e positive (omega arith) in
            inr (
              idx,
              q',
              pushed,
              positive,
              omega (arith, u.places_fit),
              omega (arith, r.counted),
              r.entry,
            )
      ]

  -- `drop_previous` changes the queue and the expiries only.
  pub locked-drop_previous :
      (s s' : CacheShard D) (key : List ℕ) (hashed_key now : ℕ)
      → drop_previous D s key hashed_key now ≡ ok s'
      → (s'.locked ≡ s.locked) × (s'.hashmap ≡ s.hashmap)
  unfolding drop_previous
  locked-drop_previous s s' key hashed_key now e = ground arith

  length-layout :
      (timestamp hash : ℕ) (key entry : List ℕ)
      → length (layout timestamp hash key entry) ≡ 18 + length key + length entry
  length-layout timestamp hash key entry = omega (arith, length-append key entry)

  module _ (key : List ℕ) (hashed_key : ℕ) (duration : ℤ) (now : ℕ) where
    -- The shard after a push that succeeded.
    abbrev pub pushed : CacheShard D → ℕ → BytesQueue blocks → CacheShard D
    pushed s index q' = record (unlock D s) {
      entries = q';
      hashmap = insert s.hashmap hashed_key (index % 2 ^ 32);
      ttl_table =
          if expires_at_all duration
          then Ttl.put keys D.times s.ttl_table (expiry_timestamp D duration now) key now
          else s.ttl_table;
    }

    pub set_push_ok :
        (s : CacheShard D) (blob : List ℕ) {index : ℕ} {q' : BytesQueue blocks}
        → Queue.push blocks s.entries blob ≡ ok (index, q')
        → set_push D s key hashed_key blob duration now
          ≡ ok (value (expiry_timestamp D duration now), pushed s index q')
    unfolding set_push
    set_push_ok s blob e = rw (e, set_push)

    pub set_push_err :
        (s : CacheShard D) (blob : List ℕ) {f : Fault}
        → Queue.push blocks s.entries blob ≡ err f
        → set_push D s key hashed_key blob duration now ≡ ok (value 0, s)
    unfolding set_push
    set_push_err s blob e = rw (e, set_push)

    pushed-IsStored :
        (s : CacheShard D) (index : ℕ) (q' : BytesQueue blocks) (timestamp : ℕ) (entry : List ℕ)
        → length key < 65518
        → index < 2 ^ 32
        → 0 < q'.count
        → IsEntry blocks q' index (layout timestamp hashed_key key entry)
        → IsStored D (pushed s index q') hashed_key timestamp key entry
    pushed-IsStored s index q' timestamp entry short fits counted e = record {
      free = refl;
      counted = counted;
      short = short;
      placed =
          subst (λ i. IsEntry blocks q' i (layout timestamp hashed_key key entry)) (sym place) e;
    }
      where
        place : lookup (insert s.hashmap hashed_key (index % 2 ^ 32)) hashed_key ≡ index
        place =
            lookup-insert s.hashmap hashed_key (index % 2 ^ 32) hashed_key
            ∙ rw ==_self (omega arith)

    -- `set` after the lock, the removal of what was there and the wrapping.
    pub set_steps :
        (s s₂ : CacheShard D) (entry : List ℕ)
        → s.locked ≡ false
        → drop_previous D (record s { locked = true }) key hashed_key now ≡ ok s₂
        → (rest : List ℕ) × (set D s key hashed_key entry duration now
            ≡ set_push D
                (record s₂ {
                  entry_buffer =
                      layout (expiry_timestamp D duration now) hashed_key key entry ++ rest;
                })
                key
                hashed_key
                (layout (expiry_timestamp D duration now) hashed_key key entry)
                duration
                now)
    unfolding set
    set_steps s s₂ entry free e =
        let (rest, wrapped) =
          wrap_entry-layout (expiry_timestamp D duration now) hashed_key key entry
            s₂.entry_buffer in
        (rest, rw (free, e, wrapped))

    -- The two ways in which `set` ends: the entry is stored and its expiry answered, or the queue has
    -- refused it, and then 0 is answered with no error and the shard stays locked.
    abbrev pub Sets : CacheShard D → List ℕ → Type 0
    Sets s entry =
        (s' : CacheShard D) × (((set D s key hashed_key entry duration now
              ≡ ok (value (expiry_timestamp D duration now), s'))
            × IsStored D s' hashed_key (expiry_timestamp D duration now) key entry
            × (get D s' key hashed_key ≡ ok (value entry, hit D s')))
          ⊎ ((set D s key hashed_key entry duration now ≡ ok (value 0, s')) × (s'.locked ≡ true)))

    -- `set` on a free shard, with a key of fewer than 65518 bytes and an entry below 2 ^ 32 bytes, once
    -- the previous entry of the hash is dropped and the queue is usable: either `set` answers the expiry,
    -- and `get` under that key then answers the value, or it answers 0 with no error and the shard stays
    -- locked.
    pub set-Sets :
        (s s₂ : CacheShard D) (entry : List ℕ)
        → s.locked ≡ false
        → drop_previous D (record s { locked = true }) key hashed_key now ≡ ok s₂
        → IsUsable s₂.entries
        → length key < 65518
        → 18 + length key + length entry < 2 ^ 32
        → Sets s entry
    set-Sets s s₂ entry free dropped u short word =
        let (rest, steps) = set_steps s s₂ entry free dropped in
        let expiry = expiry_timestamp D duration now in
        let blob = layout expiry hashed_key key entry in
        let s₃ : CacheShard D = record s₂ { entry_buffer = blob ++ rest } in
        let size = length-layout expiry hashed_key key entry in
        elim (push-Pushed s₂.entries blob u (omega (arith, size)) (omega (arith, size))) [
          | inl e ↦ (
            s₃,
            inr (
              steps ∙ set_push_err s₃ blob e,
              (locked-drop_previous (record s { locked = true }) s₂ key hashed_key now dropped).0,
            ),
          )
          | inr (index, q', e, positive, fits, counted, entry_at) ↦
              let stored = pushed-IsStored s₃ index q' expiry entry short fits counted entry_at in
              (
                pushed s₃ index q',
                inl (
                  steps ∙ set_push_ok s₃ blob e,
                  stored,
                  get-IsStored D (pushed s₃ index q') hashed_key expiry key entry stored,
                ),
              )
        ]
