-- ===== src/SliceList/Counting.antt =====
-- The counter of utils/sliceList.go against the pairs that the map holds.
use clustered_big_cache.Prelude.{
  ℕ, ◌+◌, ◌≡◌, refl, sym, ap, ◌∙◌, none, some, List, [], ◌∷◌, arith, length, inl, inr, Option-cases,
}
use clustered_big_cache.Prelude.Int.{pos, negsuc, ◌-ℤ◌}
use clustered_big_cache.Prelude.Keys.{key_eq_self}
use clustered_big_cache.SliceList.{SliceList, load, store, delete, add, remove, get}

count_up : (n : ℕ) → pos n -ℤ negsuc 0 ≡ pos (n + 1)
count_up n = ground arith

count_down : (n : ℕ) → pos (n + 1) -ℤ pos 1 ≡ pos n
count_down n = ground arith

module _ {A : Type 0} where
  -- `Size` answers the number of pairs.
  abbrev pub IsCounting : SliceList A → Type 0
  IsCounting list = list.size ≡ pos (length list.items)

  length-store :
      (items : List (List ℕ × A)) (key : List ℕ) (value : A)
      → load items key ≡ none
      → length (store items key value) ≡ length items + 1
  length-store [] key value e = refl
  length-store ((k, v) ∷ items) key value e = ground (arith, length-store items key value)

  length-store_old :
      (items : List (List ℕ × A)) (key : List ℕ) (value : A) {old : A}
      → load items key ≡ some old
      → length (store items key value) ≡ length items
  length-store_old [] key value e = cc
  length-store_old ((k, v) ∷ items) key value {old = old} e =
      ground (arith, length-store_old items key value {old = old})

  length-delete :
      (items : List (List ℕ × A)) (key : List ℕ) {old : A}
      → load items key ≡ some old
      → length (delete items key) + 1 ≡ length items
  length-delete [] key e = cc
  length-delete ((k, v) ∷ items) key {old = old} e =
      ground (arith, length-delete items key {old = old})

  load-store :
      (items : List (List ℕ × A)) (key : List ℕ) (value : A)
      → load (store items key value) key ≡ some value
  load-store [] key value = rw (key_eq_self key)
  load-store ((k, v) ∷ items) key value =
      ground (arith, load-store items key value, key_eq_self key)

  -- Where the counter is the number of pairs, it is so after an `Add` of a value under a key that is not
  -- there, and after a `Remove` of any key.
  pub add_remove-IsCounting :
      (list : SliceList A) (key : List ℕ) (value : A)
      → IsCounting list
      → (get list key ≡ none → IsCounting (add list key (some value)))
        × IsCounting (remove list key)
  unfolding get add remove
  add_remove-IsCounting list key value h = (
    λ e.
        ap (λ z. z -ℤ negsuc 0) h
        ∙ (count_up (length list.items) ∙ ap pos (sym (length-store list.items key value e))),
    elim (Option-cases (load list.items key)) [
      | inl e ↦ rw (e, remove) h
      | inr (old, e) ↦
          let less = length-delete list.items key e in
          rw (e, remove)
            (ap (λ z. z -ℤ pos 1) (h ∙ ap pos (sym less))
              ∙ count_down (length (delete list.items key)))
    ],
  )

  -- Where the counter is the number of pairs, `Add` under a key that is there replaces the value, and the
  -- counter is then one more than the number of pairs.
  pub add_again-drifts :
      (list : SliceList A) (key : List ℕ) (value old : A)
      → IsCounting list
      → get list key ≡ some old
      → (get (add list key (some value)) key ≡ some value)
        × ((add list key (some value)).size ≡ pos (length (add list key (some value)).items + 1))
  unfolding get add
  add_again-drifts list key value old h e = (
    load-store list.items key value,
    ap (λ z. z -ℤ negsuc 0) h
        ∙ (count_up (length list.items)
            ∙ ap (λ n. pos (n + 1)) (sym (length-store_old list.items key value e))),
  )
