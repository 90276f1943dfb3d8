-- ===== src/Store/Table/Members.antt =====
-- What all rows of a table satisfy, behind a statement.
use certinv.Prelude.{Bool, true, List, [], ◌∷◌, any, All, All-append, ◌≡◌, inl, inr, Bool-cases}
use certinv.Store.Table.{update_where, delete_where, upsert, insert_sorted, order_by}

module _ {ℓ} {R : Type ℓ} (P : R → Type 0) (p : R → Bool) where
  pub All-delete_where : (rows : List R) → All P rows → All P (delete_where p rows)
  unfolding delete_where
  All-delete_where [] h = tt
  All-delete_where (r ∷ rows) h = elim (Bool-cases (p r)) [
    | inl y ↦ rw y (All-delete_where rows h.1)
    | inr n ↦ rw n (h.0, All-delete_where rows h.1)
  ]

  All-update_where :
      (f : R → R)
      → ((r : R) → p r ≡ true → P r → P (f r))
      → (rows : List R) → All P rows
      → All P (update_where p f rows)
  unfolding update_where
  All-update_where f keep [] h = tt
  All-update_where f keep (r ∷ rows) h = elim (Bool-cases (p r)) [
    | inl y ↦ rw y (keep r y h.0, All-update_where f keep rows h.1)
    | inr n ↦ rw n (h.0, All-update_where f keep rows h.1)
  ]

  pub All-upsert :
      (row : R) (f : R → R)
      → P row
      → ((r : R) → p r ≡ true → P r → P (f r))
      → (rows : List R) → All P rows
      → All P (upsert p row f rows)
  unfolding upsert
  All-upsert row f new keep rows h = elim (Bool-cases (any p rows)) [
    | inl y ↦ rw y (All-update_where f keep rows h)
    | inr n ↦ rw n (All-append P rows (row ∷ []) h (new, tt))
  ]

module _ {ℓ} {R : Type ℓ} (P : R → Type 0) (before : R → R → Bool) where
  All-insert_sorted :
      (r : R) (rows : List R) → P r → All P rows → All P (insert_sorted before r rows)
  unfolding insert_sorted
  All-insert_sorted r [] p h = (p, tt)
  All-insert_sorted r (s ∷ rows) p h = elim (Bool-cases (before r s)) [
    | inl y ↦ rw y (p, h)
    | inr n ↦ rw n (h.0, All-insert_sorted r rows p h.1)
  ]

  pub All-order_by : (rows : List R) → All P rows → All P (order_by before rows)
  unfolding order_by
  All-order_by [] h = tt
  All-order_by (r ∷ rows) h = All-insert_sorted r (order_by before rows) h.0 (All-order_by rows h.1)
