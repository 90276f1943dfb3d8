-- ===== src/Store/Table/Laws.antt =====
-- What the statements do to the rows that are found, and to the uniqueness of keys.
use certinv.Prelude.{
  ℕ, ◌<◌, ◌≤◌, Bool, true, false, none, some, List, [], ◌∷◌, ◌++◌, any, find, All, All-map, ◌≡◌,
  refl, sym, ap, subst, inl, inr, arith, Bool-cases,
}
use certinv.Store.Table.{update_where, delete_where, upsert, next_id}

module _ {ℓ} {R : Type ℓ} (p : R → Bool) (f : R → R) where
  pub any-update_where_self :
      ((r : R) → p r ≡ true → p (f r) ≡ true)
      → (rows : List R) → any p (update_where p f rows) ≡ any p rows
  unfolding any update_where
  any-update_where_self keep [] = refl
  any-update_where_self keep (r ∷ rows) = elim (Bool-cases (p r)) [
    | inl y ↦ rw (y, keep r y) refl
    | inr n ↦ rw (n, n, any-update_where_self keep rows) refl
  ]

  -- the row that a statement's own test finds, after the update
  pub find-update_where_self :
      ((r : R) → p r ≡ true → p (f r) ≡ true)
      → (rows : List R)
      → find p (update_where p f rows) ≡ elim (find p rows) [ some r ↦ some (f r) | none ↦ none ]
  unfolding find update_where
  find-update_where_self keep [] = refl
  find-update_where_self keep (r ∷ rows) = elim (Bool-cases (p r)) [
    | inl y ↦ rw (y, keep r y) refl
    | inr n ↦ rw (n, n, find-update_where_self keep rows) refl
  ]

  -- rows of another key are found as before
  pub find-update_where_other :
      (q : R → Bool)
      → ((r : R) → p r ≡ true → q r ≡ false)
      → ((r : R) → p r ≡ true → q (f r) ≡ false)
      → (rows : List R) → find q (update_where p f rows) ≡ find q rows
  unfolding find update_where
  find-update_where_other q old new [] = refl
  find-update_where_other q old new (r ∷ rows) = elim (Bool-cases (p r)) [
    | inl y ↦ rw (y, old r y, new r y, find-update_where_other q old new rows) refl
    | inr n ↦ rw (n, find-update_where_other q old new rows) refl
  ]

module _ {ℓ} {R : Type ℓ} where
  find-append :
      (q : R → Bool) (rows : List R) (r : R) → q r ≡ false → find q (rows ++ r ∷ []) ≡ find q rows
  unfolding find
  find-append q [] r h = rw h refl
  find-append q (x ∷ rows) r h = rw (find-append q rows r h) refl

  find-append_new :
      (q : R → Bool) (rows : List R) (r : R)
      → any q rows ≡ false
      → q r ≡ true
      → find q (rows ++ r ∷ []) ≡ some r
  unfolding find any
  find-append_new q [] r h y = rw y refl
  find-append_new q (x ∷ rows) r h y = elim (Bool-cases (q x)) [
    | inl z ↦ absurd (cc (rw z at h))
    | inr n ↦ rw n (find-append_new q rows r (rw n at h) y)
  ]

  pub find-none_of_any : (q : R → Bool) (rows : List R) → any q rows ≡ false → find q rows ≡ none
  unfolding find any
  find-none_of_any q [] h = refl
  find-none_of_any q (x ∷ rows) h = elim (Bool-cases (q x)) [
    | inl z ↦ absurd (cc (rw z at h))
    | inr n ↦ rw n (find-none_of_any q rows (rw n at h))
  ]

  pub find-some_of_any :
      (q : R → Bool) (rows : List R) → any q rows ≡ true → (r : R) × (find q rows ≡ some r)
  unfolding find any
  find-some_of_any q [] h = absurd (cc h)
  find-some_of_any q (x ∷ rows) h = elim (Bool-cases (q x)) [
    | inl y ↦ (x, rw y refl)
    | inr n ↦ let (r, e) = find-some_of_any q rows (rw n at h) in (r, rw n e)
  ]

  -- the row after an upsert: the new one, or the old one updated
  pub find-upsert_self :
      (p : R → Bool) (row : R) (f : R → R) (rows : List R)
      → p row ≡ true
      → ((r : R) → p r ≡ true → p (f r) ≡ true)
      → find p (upsert p row f rows) ≡ some (elim (find p rows) [ some r ↦ f r | none ↦ row ])
  unfolding upsert
  find-upsert_self p row f rows y keep = elim (Bool-cases (any p rows)) [
    | inl old ↦
        let (r, e) = find-some_of_any p rows old in
        rw (old, find-update_where_self p f keep rows, e) refl
    | inr new ↦ rw (new, find-append_new p rows row new y, find-none_of_any p rows new) refl
  ]

  pub find-upsert_other :
      (p q : R → Bool) (row : R) (f : R → R) (rows : List R)
      → q row ≡ false
      → ((r : R) → p r ≡ true → q r ≡ false)
      → ((r : R) → p r ≡ true → q (f r) ≡ false)
      → find q (upsert p row f rows) ≡ find q rows
  unfolding upsert
  find-upsert_other p q row f rows n old new = elim (Bool-cases (any p rows)) [
    | inl y ↦ rw y (find-update_where_other p f q old new rows)
    | inr z ↦ rw z (find-append q rows row n)
  ]

  pub any-delete_where : (p : R → Bool) (rows : List R) → any p (delete_where p rows) ≡ false
  unfolding any delete_where
  any-delete_where p [] = refl
  any-delete_where p (r ∷ rows) = elim (Bool-cases (p r)) [
    | inl y ↦ rw y (any-delete_where p rows)
    | inr n ↦ rw (n, n) (any-delete_where p rows)
  ]

  pub find-delete_where_other :
      (p q : R → Bool)
      → ((r : R) → p r ≡ true → q r ≡ false)
      → (rows : List R) → find q (delete_where p rows) ≡ find q rows
  unfolding find delete_where
  find-delete_where_other p q h [] = refl
  find-delete_where_other p q h (r ∷ rows) = elim (Bool-cases (p r)) [
    | inl y ↦ rw (y, h r y) (find-delete_where_other p q h rows)
    | inr n ↦ rw (n, find-delete_where_other p q h rows) refl
  ]

  -- a row that is found, and not deleted, is still the one that is found
  pub find-delete_where_kept :
      (p q : R → Bool) (rows : List R) (r : R)
      → find q rows ≡ some r
      → p r ≡ false
      → find q (delete_where p rows) ≡ some r
  unfolding find delete_where
  find-delete_where_kept p q [] r e n = e
  find-delete_where_kept p q (x ∷ rows) r e n = elim (Bool-cases (q x)) [
    | inl y ↦
        let same : x ≡ r = cc (rw y at e) in
        rw (subst (λ z. p z ≡ false) (sym same) n, y) (ap some same)
    | inr m ↦
        let rest = find-delete_where_kept p q rows r (rw m at e) n in
        elim (Bool-cases (p x)) [ inl d ↦ rw d rest | inr k ↦ rw (k, m) rest ]
  ]

  next_id-cons :
      (id : R → ℕ) (r : R) (rows : List R)
      → (id r < next_id id (r ∷ rows)) × (next_id id rows ≤ next_id id (r ∷ rows))
  unfolding next_id
  next_id-cons id r rows = ground arith

  -- a new id is larger than every id in use
  pub next_id_fresh : (id : R → ℕ) (rows : List R) → All (λ r. id r < next_id id rows) rows
  next_id_fresh id [] = tt
  next_id_fresh id (r ∷ rows) =
      let (self, more) = next_id-cons id r rows in
      (
        self,
        All-map _ _ (λ x (h : id x < next_id id rows). omega arith) rows (next_id_fresh id rows),
      )
