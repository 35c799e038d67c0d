-- ===== src/SliceList/Unique.antt =====
-- The keys of the pairs of utils/sliceList.go: a `sync.Map` holds each once.
use clustered_big_cache.Prelude.{
  ℕ, ◌≡◌, refl, sym, ◌∙◌, subst, inl, inr, none, some, true, false, List, [], ◌∷◌, arith,
  Bool-cases, Option-cases, if◌then◌else◌, if_same,
}
use clustered_big_cache.Prelude.Keys.{
  key_eq, key_eq→eq, key_eq_same, key_eq_same_right, key_eq_apart,
}
use clustered_big_cache.SliceList.{SliceList, load, store, delete, contains, remove, add}

module _ {A : Type 0} where
  abbrev pub IsUnique : List (List ℕ × A) → Type 0
  IsUnique [] = Unit
  IsUnique ((k, v) ∷ items) = (load items k ≡ none) × IsUnique items

  pub load-store_any :
      (items : List (List ℕ × A)) (key : List ℕ) (value : A) (k : List ℕ)
      → load (store items key value) k ≡ (if key_eq key k then some value else load items k)
  load-store_any [] key value k = refl
  load-store_any ((j, v) ∷ items) key value k =
      ground
        (arith, load-store_any items key value k, key_eq_same j key k, key_eq_same_right j key k)

  pub load-delete_any :
      (items : List (List ℕ × A)) (key : List ℕ) (k : List ℕ)
      → IsUnique items
      → load (delete items key) k ≡ (if key_eq key k then none else load items k)
  load-delete_any [] key k u = sym (if_same (key_eq key k) none)
  load-delete_any ((j, v) ∷ items) key k u =
      let gone : key_eq j key ≡ true → key_eq key k ≡ true → load items k ≡ none =
        λ e f. subst (λ x. load items x ≡ none) (key_eq→eq j key e ∙ key_eq→eq key k f) u.0 in
      ground (
        arith,
        load-delete_any items key k u.1,
        key_eq_same j key k,
        key_eq_same_right j key k,
        gone,
      )

  pub store-IsUnique :
      (items : List (List ℕ × A)) (key : List ℕ) (value : A)
      → IsUnique items
      → IsUnique (store items key value)
  store-IsUnique [] key value u = (refl, tt)
  store-IsUnique ((j, v) ∷ items) key value u = elim (Bool-cases (key_eq j key)) [
    | inl e ↦ rw e u
    | inr e ↦ rw e (
      rw (load-store_any items key value j, key_eq_apart j key e) u.0,
      store-IsUnique items key value u.1,
    )
  ]

  pub delete-IsUnique :
      (items : List (List ℕ × A)) (key : List ℕ) → IsUnique items → IsUnique (delete items key)
  delete-IsUnique [] key u = tt
  delete-IsUnique ((j, v) ∷ items) key u = elim (Bool-cases (key_eq j key)) [
    | inl e ↦ rw e u.1
    | inr e ↦ rw e (
      rw (load-delete_any items key j u.1, key_eq_apart j key e) u.0,
      delete-IsUnique items key u.1,
    )
  ]

  pub contains_missing :
      (list : SliceList A) (key : List ℕ) → load list.items key ≡ none → contains list key ≡ false
  unfolding contains
  contains_missing list key e = rw (e, contains)

  pub contains_there :
      (list : SliceList A) (key : List ℕ) {v : A}
      → load list.items key ≡ some v
      → contains list key ≡ true
  unfolding contains
  contains_there list key e = rw (e, contains)

  remove_missing :
      (list : SliceList A) (key : List ℕ) → load list.items key ≡ none → remove list key ≡ list
  unfolding remove
  remove_missing list key e = rw (e, remove)

  remove_there :
      (list : SliceList A) (key : List ℕ) {v : A}
      → load list.items key ≡ some v
      → (remove list key).items ≡ delete list.items key
  unfolding remove
  remove_there list key e = rw (e, remove)

  pub load-remove :
      (list : SliceList A) (key k : List ℕ)
      → IsUnique list.items
      → load (remove list key).items k ≡ (if key_eq key k then none else load list.items k)
  load-remove list key k u = elim (Option-cases (load list.items key)) [
    | inl e ↦ rw (remove_missing list key e) (elim (Bool-cases (key_eq key k)) [
      | inl same ↦ rw same (subst (λ x. load list.items x ≡ none) (key_eq→eq key k same) e)
      | inr other ↦ rw other
    ])
    | inr (v, e) ↦ rw (remove_there list key e) (load-delete_any list.items key k u)
  ]

  pub add-IsUnique :
      (list : SliceList A) (key : List ℕ) (value : A)
      → IsUnique list.items
      → IsUnique (add list key (some value)).items
  unfolding add
  add-IsUnique list key value u = store-IsUnique list.items key value u

  pub load-add :
      (list : SliceList A) (key : List ℕ) (value : A) (k : List ℕ)
      → load (add list key (some value)).items k
        ≡ (if key_eq key k then some value else load list.items k)
  unfolding add
  load-add list key value k = load-store_any list.items key value k
