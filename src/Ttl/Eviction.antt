-- ===== src/Ttl/Eviction.antt =====
-- The rounds of `eviction` in bigcache/ttl.go: what a firing timer takes out of the tree.
use clustered_big_cache.Prelude.{
  ℕ, zero, suc, ◌≤◌, ◌≡◌, ◌≢◌, refl, inl, inr, List, [], ◌∷◌, Option, none, some, Bool, true, false,
  arith, ◌==◌, if◌then◌else◌, Bool-cases, Option-cases, ==→ne, ==→eq, sym, ◌∙◌, none≢some, subst,
  All,
}
use clustered_big_cache.Containers.{OrderedMap, HashSet}
use clustered_big_cache.Ttl.{
  TtlManager, interval, put, remove, reset, reset_timer, new_ttl_manager, evict_due, on_fire,
  Evicted,
}
use clustered_big_cache.Ttl.Timer.{
  IsArmed, put-IsArmed, remove-IsArmed, reset_timer-IsArmed, get_of_remove, first_unique,
}

module _ (H : HashSet) (T : OrderedMap H.Set) where
  -- The timestamp is among those that were handed to `evict`.
  abbrev pub has_time : Evicted H T → ℕ → Bool
  has_time [] t = false
  has_time ((s, keys) ∷ l) t = elim (s == t) [ true ↦ true | false ↦ has_time l t ]

  -- What the rounds have done: each timestamp handed out stood in the tree with its keys, and the rest of
  -- the tree is as it was. The timer waits for the first of the rest.
  pub record IsEvicted (ttl : TtlManager H T) (now : ℕ) (r : Evicted H T × TtlManager H T)
      : Type 0 where
    pub stood : All (λ e. T.get ttl.time_tree e.0 ≡ some e.1) r.0
    pub rest :
        (t : ℕ) → T.get r.1.time_tree t ≡ (if has_time r.0 t then none else T.get ttl.time_tree t)
    pub not_due :
        (k : ℕ) (keys : H.Set) → T.first r.1.time_tree ≡ some (k, keys) → interval k now ≢ 0
    pub armed : IsArmed H T r.1

  -- The timestamp is that of this second.
  abbrev pub IsDue : ℕ → ℕ × H.Set → Type 0
  IsDue now e = interval e.0 now ≡ 0

  -- One timestamp taken out, and then the rounds.
  cons-IsEvicted :
      (ttl : TtlManager H T) (timer : Option (ℕ × ℕ)) (now k : ℕ) (keys : H.Set)
      (r : Evicted H T × TtlManager H T)
      → T.get ttl.time_tree k ≡ some keys
      → IsEvicted (record ttl { time_tree = T.remove ttl.time_tree k; timer = timer }) now r
      → IsEvicted ttl now ((k, keys) ∷ r.0, r.1)
  cons-IsEvicted ttl timer now k keys (l, ttl') e v = record {
    stood = (e, still l v.stood);
    rest = λ t. v.rest t ∙ split t;
    not_due = v.not_due;
    armed = v.armed;
  }
    where
      still :
          (l : Evicted H T)
          → All (λ e. T.get (T.remove ttl.time_tree k) e.0 ≡ some e.1) l
          → All (λ e. T.get ttl.time_tree e.0 ≡ some e.1) l
      still [] h = tt
      still ((s, ks) ∷ l) h = (get_of_remove T ttl.time_tree k s h.0, still l h.1)

      split :
          (t : ℕ)
          → (if has_time l t then none else T.get (T.remove ttl.time_tree k) t)
            ≡ (if has_time ((k, keys) ∷ l) t then none else T.get ttl.time_tree t)
      split t = ground (arith, T.get-remove ttl.time_tree k t)

  -- Every timestamp that the inner loop hands out is due.
  evict_due-IsDue :
      (fuel : ℕ) (ttl : TtlManager H T) (now : ℕ) → All (IsDue now) (evict_due H T fuel ttl now).0
  unfolding evict_due
  evict_due-IsDue zero ttl now = tt
  evict_due-IsDue (suc fuel) ttl now = elim (Option-cases (T.first ttl.time_tree)) [
    | inl e ↦ rw (e, evict_due) tt
    | inr ((k, keys), e) ↦ elim (Bool-cases (interval k now == 0)) [
      | inl due ↦
          rw (e, due, evict_due)
            (
              ==→eq (interval k now) 0 due,
              evict_due-IsDue fuel (record ttl { time_tree = T.remove ttl.time_tree k }) now,
            )
      | inr later ↦ rw (e, later, evict_due) tt
    ]
  ]

  evict_due-IsEvicted :
      (fuel : ℕ) (ttl : TtlManager H T) (now : ℕ)
      → T.size ttl.time_tree ≤ fuel
      → IsEvicted ttl now (evict_due H T fuel ttl now)
  unfolding evict_due reset_timer
  evict_due-IsEvicted zero ttl now h = record {
    stood = tt;
    rest = λ t. refl;
    not_due = λ k keys e. absurd (empty k keys e);
    armed = λ k keys e. absurd (empty k keys e);
  }
    where
      empty : (k : ℕ) (keys : H.Set) → T.first ttl.time_tree ≡ some (k, keys) → ⊥
      empty k keys e = omega (arith, T.size-remove ttl.time_tree k (T.first_get ttl.time_tree e))
  evict_due-IsEvicted (suc fuel) ttl now h = elim (Option-cases (T.first ttl.time_tree)) [
    | inl e ↦ rw (e, evict_due) (nothing e)
    | inr ((k, keys), e) ↦ elim (Bool-cases (interval k now == 0)) [
      | inl due ↦
          rw (e, due, evict_due)
            (cons-IsEvicted ttl ttl.timer now k keys _ (T.first_get ttl.time_tree e) (
              evict_due-IsEvicted fuel (record ttl { time_tree = T.remove ttl.time_tree k }) now
                (omega (arith, T.size-remove ttl.time_tree k (T.first_get ttl.time_tree e)))))
      | inr later ↦ rw (e, later, evict_due) (waits k keys e (==→ne (interval k now) 0 later))
    ]
  ]
    where
      nothing : T.first ttl.time_tree ≡ none → IsEvicted ttl now ([], ttl)
      nothing e = record {
        stood = tt;
        rest = λ t. refl;
        not_due = λ k keys f. absurd (none≢some (sym e ∙ f));
        armed = λ k keys f. absurd (none≢some (sym e ∙ f));
      }

      waits :
          (k : ℕ) (keys : H.Set)
          → T.first ttl.time_tree ≡ some (k, keys)
          → interval k now ≢ 0
          → IsEvicted ttl now ([], reset_timer H T ttl k now)
      waits k keys e later = record {
        stood = tt;
        rest = λ t. refl;
        not_due = λ j ks f due.
            later
              (subst (λ i. interval i now ≡ 0) (first_unique T ttl.time_tree k j keys ks e f) due);
        armed =
            reset_timer-IsArmed H T ttl k now
              (λ j ks f. first_unique T ttl.time_tree k j keys ks e f);
      }

  pub on_fire-IsEvicted :
      (ttl : TtlManager H T) (now k : ℕ) (keys : H.Set)
      → T.first ttl.time_tree ≡ some (k, keys)
      → (more : Evicted H T) × ((on_fire H T ttl now).0 ≡ (k, keys) ∷ more)
        × All (IsDue now) more
        × IsEvicted ttl now (on_fire H T ttl now)
  unfolding on_fire
  on_fire-IsEvicted ttl now k keys e =
      let r =
        evict_due H T (T.size (T.remove ttl.time_tree k))
          (record ttl { time_tree = T.remove ttl.time_tree k; timer = none }) now in
      (
        r.0,
        rw (e, on_fire),
        evict_due-IsDue (T.size (T.remove ttl.time_tree k))
            (record ttl { time_tree = T.remove ttl.time_tree k; timer = none }) now,
        rw (e, on_fire)
            (cons-IsEvicted ttl none now k keys r (T.first_get ttl.time_tree e) (
              evict_due-IsEvicted (T.size (T.remove ttl.time_tree k))
                (record ttl { time_tree = T.remove ttl.time_tree k; timer = none }) now
                (omega arith))),
      )

  -- The calls on a manager, each with the second in which it is made.
  pub data Call : Type 0 where
    puts removes : (timestamp : ℕ) (key : List ℕ) (now : ℕ) → Call
    resets : Call
    fires : ℕ → Call

  pub after : TtlManager H T → Call → TtlManager H T
  after ttl (puts timestamp key now) = put H T ttl timestamp key now
  after ttl (removes timestamp key now) = remove H T ttl timestamp key now
  after ttl resets = reset H T ttl
  after ttl (fires now) = (on_fire H T ttl now).1

  unfoldable pub run : TtlManager H T → List Call → TtlManager H T
  unfolding after
  run ttl [] = ttl
  run ttl (c ∷ cs) = run (after ttl c) cs

  on_fire-IsArmed : (ttl : TtlManager H T) (now : ℕ) → IsArmed H T (on_fire H T ttl now).1
  unfolding on_fire
  on_fire-IsArmed ttl now = elim (Option-cases (T.first ttl.time_tree)) [
    | inl e ↦ rw (e, on_fire) (λ k keys f. absurd (none≢some (sym e ∙ f)))
    | inr ((k, keys), e) ↦ let (more, heads, due, v) = on_fire-IsEvicted ttl now k keys e in v.armed
  ]

  after-IsArmed : (ttl : TtlManager H T) (c : Call) → IsArmed H T ttl → IsArmed H T (after ttl c)
  unfolding after reset
  after-IsArmed ttl (puts timestamp key now) h = put-IsArmed H T ttl timestamp key now h
  after-IsArmed ttl (removes timestamp key now) h = remove-IsArmed H T ttl timestamp key now h
  after-IsArmed ttl resets h =
      λ k keys e. absurd (none≢some (sym (T.get-empty k) ∙ T.first_get T.empty e))
  after-IsArmed ttl (fires now) h = on_fire-IsArmed ttl now

  run-IsArmed : (ttl : TtlManager H T) (cs : List Call) → IsArmed H T ttl → IsArmed H T (run ttl cs)
  unfolding run
  run-IsArmed ttl [] h = h
  run-IsArmed ttl (c ∷ cs) h = run-IsArmed (after ttl c) cs (after-IsArmed ttl c h)

  -- After any calls on a new manager, in any order, the timer waits for the earliest timestamp of the tree,
  -- if the tree has one.
  pub timer_earliest : (now : ℕ) (cs : List Call) → IsArmed H T (run (new_ttl_manager H T now) cs)
  unfolding new_ttl_manager
  timer_earliest now cs = run-IsArmed _ cs (λ k keys e. absurd (empty_first k keys e))
    where
      empty_first : (k : ℕ) (keys : H.Set) → T.first T.empty ≡ some (k, keys) → ⊥
      empty_first k keys e = none≢some (sym (T.get-empty k) ∙ T.first_get T.empty e)
