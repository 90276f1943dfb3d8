-- ===== src/Store/Table/Lookup.antt =====
-- A table that has a key, as a finite map from keys to values.
use certinv.Prelude.{
  Bool, true, false, Option, none, some, List, find, ◌≡◌, ap, ◌∙◌, subst, inl, inr, Bool-cases,
  if◌then◌else◌,
}
use certinv.Store.Table.{delete_where, upsert}
use certinv.Store.Table.Laws.{
  find-upsert_self, find-upsert_other, find-delete_where_other, any-delete_where, find-none_of_any,
}

module _ {K V : Type 0} (same : K → K → Bool) where
  unfoldable pub insert : K → V → (K → Option V) → K → Option V
  insert k v m j = if same k j then some v else m j

  unfoldable pub remove : K → (K → Option V) → K → Option V
  remove k m j = if same k j then none else m j

abbrev value_of : {R V : Type 0} → (R → V) → Option R → Option V
value_of value none = none
value_of value (some r) = some (value r)

module _ {K V R : Type 0} (has_key : K → R → Bool) (value : R → V) where
  unfoldable pub lookup : K → List R → Option V
  lookup k rows = value_of value (find (has_key k) rows)

  module _ (same : K → K → Bool) (eq : (k j : K) → same k j ≡ true → k ≡ j)
      (apart : (k j : K) (r : R)
        → has_key k r ≡ true
        → same k j ≡ false
        → has_key j r ≡ false) where
    pub lookup-delete_where :
        (k j : K) (rows : List R)
        → lookup j (delete_where (has_key k) rows) ≡ remove same k (λ i. lookup i rows) j
    unfolding lookup remove
    lookup-delete_where k j rows = elim (Bool-cases (same k j)) [
      | inl y ↦ rw y (
          subst (λ i. value_of value (find (has_key i) (delete_where (has_key k) rows)) ≡ none)
            (eq k j y)
            (ap (value_of value) (
              find-none_of_any (has_key k) (delete_where (has_key k) rows)
                (any-delete_where (has_key k) rows))))
      | inr n ↦ rw n (
          ap (value_of value)
            (find-delete_where_other (has_key k) (has_key j) (λ r h. apart k j r h n) rows))
    ]

    pub lookup-upsert :
        (k j : K) (v : V) (row : R) (f : R → R) (rows : List R)
        → has_key k row ≡ true
        → ((r : R) → has_key k r ≡ true → has_key k (f r) ≡ true)
        → value row ≡ v
        → ((r : R) → value (f r) ≡ v)
        → lookup j (upsert (has_key k) row f rows) ≡ insert same k v (λ i. lookup i rows) j
    unfolding lookup insert
    lookup-upsert k j v row f rows own keep new old = elim (Bool-cases (same k j)) [
      | inl y ↦ rw y (
          subst (λ i. value_of value (find (has_key i) (upsert (has_key k) row f rows)) ≡ some v)
            (eq k j y)
            (ap (value_of value) (find-upsert_self (has_key k) row f rows own keep)
              ∙ elim (find (has_key k) rows)
                  as (λ found.
                    value_of value (some (elim found [ some r ↦ f r | none ↦ row ])) ≡ some v) [
                      | none ↦ ap some new
                      | some r ↦ ap some (old r)
                    ]))
      | inr n ↦ rw n (
          ap (value_of value) (
            find-upsert_other (has_key k) (has_key j) row f rows (apart k j row own n)
              (λ r h. apart k j r h n) (λ r h. apart k j (f r) (keep r h) n)))
    ]
