-- ===== src/Ttl/Timer.antt =====
-- The timer of bigcache/ttl.go waits for the earliest timestamp of the tree.
use clustered_big_cache.Prelude.{
  ℕ, ◌≡◌, ◌≢◌, refl, inl, inr, List, none, some, arith, ◌==◌, Bool-cases, Option-cases, ==→eq,
  ==→ne, ne→==, sym, ◌∙◌, ap, none≢some, some-injective,
}
use native.Mathlib.Decide.{ℕ_discrete}
use clustered_big_cache.Containers.{OrderedMap, HashSet}
use clustered_big_cache.Ttl.{TtlManager, interval, put, remove, reset_timer, reset_to_first}

module _ {V : Type 0} (T : OrderedMap V) where
  -- Two trees that both hold the other's first key have the same one.
  same_first :
      (t t' : T.Tree) (k k' : ℕ) {x x' v v' : V}
      → T.first t ≡ some (k, x)
      → T.first t' ≡ some (k', x')
      → T.get t k' ≡ some v
      → T.get t' k ≡ some v'
      → k ≡ k'
  same_first t t' k k' e e' g g' = omega (arith, T.first_least t e g, T.first_least t' e' g')

  pub no_first : (t : T.Tree) (k : ℕ) {v : V} → T.first t ≡ none → T.get t k ≡ some v → ⊥
  no_first t k e g = none≢some (sym (T.first_none t k e) ∙ g)

  pub first_unique :
      (t : T.Tree) (k j : ℕ) (x y : V) → T.first t ≡ some (k, x) → T.first t ≡ some (j, y) → j ≡ k
  first_unique t k j x y e f = ap (λ (r : ℕ × V). r.0) (some-injective (j, y) (k, x) (sym f ∙ e))

  -- The first key of a tree is still first where it and the other's first key are in both.
  still_first :
      (t t' : T.Tree) (k : ℕ) {x v : V}
      → T.first t' ≡ some (k, x)
      → T.get t k ≡ some v
      → ((j : ℕ) (y : V) → T.first t ≡ some (j, y) → (w : V) × (T.get t' j ≡ some w))
      → (y : V) × (T.first t ≡ some (k, y))
  still_first t t' k e g back = elim (Option-cases (T.first t)) [
    | inl f ↦ absurd (no_first t k f g)
    | inr ((j, y), f) ↦ let (w, held) = back j y f in (y, rw (← same_first t t' j k f e g held) f)
  ]

  -- What a `put` and a `remove` leave in the tree.
  get-put_some :
      (t : T.Tree) (s k : ℕ) {w v : V}
      → T.get t k ≡ some v
      → (v' : V) × (T.get (T.put t s w) k ≡ some v')
  get-put_some t s k {w} {v} e = elim (Bool-cases (s == k)) [
    | inl same ↦ (w, T.get-put t s k w ∙ rw same)
    | inr other ↦ (v, T.get-put t s k w ∙ rw (other, e))
  ]

  get_of_put :
      (t : T.Tree) (s k : ℕ) {w v : V} → s ≢ k → T.get (T.put t s w) k ≡ some v → T.get t k ≡ some v
  get_of_put t s k {w} ne e = rw (T.get-put, ne→== s k ne) at e

  pub get-remove_some :
      (t : T.Tree) (s k : ℕ) {v : V} → s ≢ k → T.get t k ≡ some v → T.get (T.remove t s) k ≡ some v
  get-remove_some t s k ne e = T.get-remove t s k ∙ rw (ne→== s k ne, e)

  pub get_of_remove :
      (t : T.Tree) (s k : ℕ) {v : V} → T.get (T.remove t s) k ≡ some v → T.get t k ≡ some v
  get_of_remove t s k e = elim (Bool-cases (s == k)) [
    | inl same ↦ absurd (none≢some (rw (T.get-remove, same) at e))
    | inr other ↦ rw (T.get-remove, other) at e
  ]

  -- A change of a value keeps the first key, and so do a new key and a removal behind it.
  first-put_old :
      (t : T.Tree) (s k : ℕ) {v w x : V}
      → T.get t s ≡ some v
      → T.first (T.put t s w) ≡ some (k, x)
      → (y : V) × (T.first t ≡ some (k, y))
  first-put_old t s k {v} {w} {x} held e = elim (ℕ_discrete s k) [
    | yes same ↦
        still_first t (T.put t s w) k e (rw same at held)
          (λ j y f. get-put_some t s j (T.first_get t f))
    | no other ↦
        still_first t (T.put t s w) k e (get_of_put t s k other (T.first_get (T.put t s w) e))
          (λ j y f. get-put_some t s j (T.first_get t f))
  ]

  first-put_behind :
      (t : T.Tree) (s k : ℕ) {w x : V}
      → s ≢ k
      → T.first (T.put t s w) ≡ some (k, x)
      → (y : V) × (T.first t ≡ some (k, y))
  first-put_behind t s k {w} {x} other e =
      still_first t (T.put t s w) k e (get_of_put t s k other (T.first_get (T.put t s w) e))
        (λ j y f. get-put_some t s j (T.first_get t f))

  first-remove_behind :
      (t : T.Tree) (s j k : ℕ) {x y : V}
      → T.first t ≡ some (j, y)
      → s ≢ j
      → T.first (T.remove t s) ≡ some (k, x)
      → (y : V) × (T.first t ≡ some (k, y))
  first-remove_behind t s j k {x} {y} first other e =
      still_first t (T.remove t s) k e (get_of_remove t s k (T.first_get (T.remove t s) e))
        (λ i z f. (
          z,
          get-remove_some t s i (λ same. other (same ∙ first_unique t j i y z first f))
              (T.first_get t f),
        ))

  -- A new key in an empty tree is the first one.
  first-put_only :
      (t : T.Tree) (s k : ℕ) {w x : V}
      → T.get t s ≡ none
      → T.size (T.put t s w) ≡ 1
      → T.first (T.put t s w) ≡ some (k, x)
      → k ≡ s
  first-put_only t s k {w} {x} fresh one e = elim (ℕ_discrete s k) [
    | yes same ↦ sym same
    | no other ↦ absurd (
        omega (
          arith,
          T.size-put_new t s w fresh,
          T.size-remove t k (get_of_put t s k other (T.first_get (T.put t s w) e)),
        ))
  ]

module _ (H : HashSet) (T : OrderedMap H.Set) where
  -- The timer was set to wait for the first timestamp.
  abbrev pub IsArmed : TtlManager H T → Type 0
  IsArmed ttl =
      (k : ℕ) (keys : H.Set)
      → T.first ttl.time_tree ≡ some (k, keys)
      → (s : ℕ) × (ttl.timer ≡ some (s, interval k s))

  -- Where neither the timer nor the first key changes.
  stays-IsArmed :
      (ttl ttl' : TtlManager H T)
      → ttl'.timer ≡ ttl.timer
      → ((k : ℕ) (keys : H.Set)
          → T.first ttl'.time_tree ≡ some (k, keys)
          → (old : H.Set) × (T.first ttl.time_tree ≡ some (k, old)))
      → IsArmed ttl
      → IsArmed ttl'
  stays-IsArmed ttl ttl' same first h k keys e =
      let (old, f) = first k keys e in let (s, g) = h k old f in (s, same ∙ g)

  pub reset_timer-IsArmed :
      (ttl : TtlManager H T) (timestamp now : ℕ)
      → ((k : ℕ) (keys : H.Set) → T.first ttl.time_tree ≡ some (k, keys) → k ≡ timestamp)
      → IsArmed (reset_timer H T ttl timestamp now)
  unfolding reset_timer
  reset_timer-IsArmed ttl timestamp now only k keys e = (now, rw (only k keys e))

  reset_to_first-IsArmed : (ttl : TtlManager H T) (now : ℕ) → IsArmed (reset_to_first H T ttl now)
  unfolding reset_to_first
  reset_to_first-IsArmed ttl now = elim (Option-cases (T.first ttl.time_tree)) [
    | inl e ↦ rw (e, reset_to_first) (λ k keys f. absurd (none≢some (sym e ∙ f)))
    | inr ((k, keys), e) ↦
        rw (e, reset_to_first)
          (reset_timer-IsArmed ttl k now (λ j old f. first_unique T ttl.time_tree k j keys old e f))
  ]

  pub put-IsArmed :
      (ttl : TtlManager H T) (timestamp : ℕ) (key : List ℕ) (now : ℕ)
      → IsArmed ttl
      → IsArmed (put H T ttl timestamp key now)
  unfolding put
  put-IsArmed ttl timestamp key now h = elim (Option-cases (T.get ttl.time_tree timestamp)) [
    | inr (keys, e) ↦
        rw (e, put)
          (stays-IsArmed ttl
            (record ttl { time_tree = T.put ttl.time_tree timestamp (H.add keys key) }) refl
            (λ k ks f. first-put_old T ttl.time_tree timestamp k e f) h)
    | inl e ↦ elim (Bool-cases (T.size grown.time_tree == 1)) [
      | inl one ↦
          rw (e, one, put)
            (reset_timer-IsArmed grown timestamp now
              (λ k ks f. first-put_only T ttl.time_tree timestamp k e (==→eq _ _ one) f))
      | inr more ↦ elim (Option-cases (T.first grown.time_tree)) [
        | inl f ↦ rw (e, more, f, put) (λ k ks g. absurd (none≢some (sym f ∙ g)))
        | inr ((j, keys), f) ↦ elim (Bool-cases (j == timestamp)) [
          | inl same ↦
              rw (e, more, f, same, put)
                (reset_timer-IsArmed grown timestamp now (λ k ks g.
                  first_unique T grown.time_tree j k keys ks f g ∙ ==→eq j timestamp same))
          | inr other ↦
              rw (e, more, f, other, put)
                (stays-IsArmed ttl grown refl
                  (λ k ks g.
                    first-put_behind T ttl.time_tree timestamp k
                      (λ s.
                        ==→ne j timestamp other
                          (sym (s ∙ first_unique T grown.time_tree j k keys ks f g)))
                      g)
                  h)
        ]
      ]
    ]
  ]
    where
      grown : TtlManager H T
      grown = record ttl { time_tree = T.put ttl.time_tree timestamp (H.add H.empty key) }

  pub remove-IsArmed :
      (ttl : TtlManager H T) (timestamp : ℕ) (key : List ℕ) (now : ℕ)
      → IsArmed ttl
      → IsArmed (remove H T ttl timestamp key now)
  unfolding remove
  remove-IsArmed ttl timestamp key now h = elim (Option-cases (T.get ttl.time_tree timestamp)) [
    | inl e ↦ rw (e, remove) h
    | inr (keys, e) ↦ elim (Bool-cases (H.is_empty (H.remove keys key))) [
      | inr more ↦
          rw (e, more, remove)
            (stays-IsArmed ttl
              (record ttl { time_tree = T.put ttl.time_tree timestamp (H.remove keys key) }) refl
              (λ k ks f. first-put_old T ttl.time_tree timestamp k e f) h)
      | inl gone ↦ elim (Option-cases (T.first ttl.time_tree)) [
        | inl f ↦ absurd (no_first T ttl.time_tree timestamp f e)
        | inr ((j, ks), f) ↦ elim (Bool-cases (j == timestamp)) [
          | inl same ↦ rw (e, gone, f, same, remove) (reset_to_first-IsArmed without now)
          | inr other ↦
              rw (e, gone, f, other, remove)
                (stays-IsArmed ttl without refl
                  (λ k xs g.
                    first-remove_behind T ttl.time_tree timestamp j k f
                      (λ s. ==→ne j timestamp other (sym s)) g)
                  h)
        ]
      ]
    ]
  ]
    where
      without : TtlManager H T
      without = record ttl { time_tree = T.remove ttl.time_tree timestamp }
