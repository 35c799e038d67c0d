-- ===== src/Ttl/Table.antt =====
-- What the table of expiries holds after each operation, and that its timer waits for the earliest.
use clustered_big_cache.Prelude.{
  ℕ, ◌≡◌, refl, inl, inr, List, Option, none, some, Bool, true, false, arith, ◌&&◌, ◌==◌,
  if◌then◌else◌, Bool-cases, Option-cases,
}
use clustered_big_cache.Prelude.Keys.{key_eq}
use clustered_big_cache.Containers.{OrderedMap, HashSet}
use clustered_big_cache.Ttl.{TtlManager, put, remove, reset_timer, reset_to_first}

module _ (H : HashSet) (T : OrderedMap H.Set) where
  abbrev holds : Option H.Set → List ℕ → Bool
  holds none k = false
  holds (some keys) k = H.contains keys k

  -- The key `k` is to expire at `t`.
  abbrev pub expires : TtlManager H T → ℕ → List ℕ → Bool
  expires ttl t k = holds (T.get ttl.time_tree t) k

  tree-reset_timer :
      (ttl : TtlManager H T) (timestamp now : ℕ)
      → (reset_timer H T ttl timestamp now).time_tree ≡ ttl.time_tree
  unfolding reset_timer
  tree-reset_timer ttl timestamp now = refl

  tree-reset_to_first :
      (ttl : TtlManager H T) (now : ℕ) → (reset_to_first H T ttl now).time_tree ≡ ttl.time_tree
  unfolding reset_to_first reset_timer
  tree-reset_to_first ttl now = ground arith

  -- The tree after `put`, and after `remove`.
  tree-put_new :
      (ttl : TtlManager H T) (timestamp : ℕ) (key : List ℕ) (now : ℕ)
      → T.get ttl.time_tree timestamp ≡ none
      → (put H T ttl timestamp key now).time_tree
        ≡ T.put ttl.time_tree timestamp (H.add H.empty key)
  unfolding put reset_timer
  tree-put_new ttl timestamp key now e = ground arith

  tree-put_old :
      (ttl : TtlManager H T) (timestamp : ℕ) (key : List ℕ) (now : ℕ) {keys : H.Set}
      → T.get ttl.time_tree timestamp ≡ some keys
      → (put H T ttl timestamp key now).time_tree ≡ T.put ttl.time_tree timestamp (H.add keys key)
  unfolding put
  tree-put_old ttl timestamp key now e = ground arith

  tree-remove_none :
      (ttl : TtlManager H T) (timestamp : ℕ) (key : List ℕ) (now : ℕ)
      → T.get ttl.time_tree timestamp ≡ none
      → (remove H T ttl timestamp key now).time_tree ≡ ttl.time_tree
  unfolding remove
  tree-remove_none ttl timestamp key now e = ground arith

  tree-remove_last :
      (ttl : TtlManager H T) (timestamp : ℕ) (key : List ℕ) (now : ℕ) (keys : H.Set)
      → T.get ttl.time_tree timestamp ≡ some keys
      → H.is_empty (H.remove keys key) ≡ true
      → (remove H T ttl timestamp key now).time_tree ≡ T.remove ttl.time_tree timestamp
  unfolding remove reset_to_first reset_timer
  tree-remove_last ttl timestamp key now keys e f = ground arith

  tree-remove_more :
      (ttl : TtlManager H T) (timestamp : ℕ) (key : List ℕ) (now : ℕ) (keys : H.Set)
      → T.get ttl.time_tree timestamp ≡ some keys
      → H.is_empty (H.remove keys key) ≡ false
      → (remove H T ttl timestamp key now).time_tree
        ≡ T.put ttl.time_tree timestamp (H.remove keys key)
  unfolding remove
  tree-remove_more ttl timestamp key now keys e f = ground arith

  -- `put` makes the key expire at the timestamp, and changes no other expiry.
  pub expires-put :
      (ttl : TtlManager H T) (timestamp : ℕ) (key : List ℕ) (now t : ℕ) (k : List ℕ)
      → expires (put H T ttl timestamp key now) t k
        ≡ (if (timestamp == t) && key_eq key k then true else expires ttl t k)
  expires-put ttl timestamp key now t k = elim (Option-cases (T.get ttl.time_tree timestamp)) [
    | inl e ↦
        rw (tree-put_new ttl timestamp key now e, T.get-put)
          (ground (arith, e, H.contains-add H.empty key k, H.contains-empty k))
    | inr (keys, e) ↦
        rw (tree-put_old ttl timestamp key now e, T.get-put)
          (ground (arith, e, H.contains-add keys key k))
  ]

  -- `remove` takes the expiry of the key at the timestamp out, and changes no other one.
  pub expires-remove :
      (ttl : TtlManager H T) (timestamp : ℕ) (key : List ℕ) (now t : ℕ) (k : List ℕ)
      → expires (remove H T ttl timestamp key now) t k
        ≡ (if (timestamp == t) && key_eq key k then false else expires ttl t k)
  expires-remove ttl timestamp key now t k = elim (Option-cases (T.get ttl.time_tree timestamp)) [
    | inl e ↦ rw (tree-remove_none ttl timestamp key now e) (ground (arith, e))
    | inr (keys, e) ↦ elim (Bool-cases (H.is_empty (H.remove keys key))) [
      | inl f ↦
          rw (tree-remove_last ttl timestamp key now keys e f, T.get-remove)
            (ground
              (arith, e, H.contains-remove keys key k, H.contains_is_empty (H.remove keys key) k f))
      | inr f ↦
          rw (tree-remove_more ttl timestamp key now keys e f, T.get-put)
            (ground (arith, e, H.contains-remove keys key k))
    ]
  ]
