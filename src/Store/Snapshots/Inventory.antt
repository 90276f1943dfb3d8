-- ===== src/Store/Snapshots/Inventory.antt =====
-- Which hosts the inventory shows.
use certinv.Prelude.{
  int_eq, int_eq_iff, Bool, true, false, not, ◌&&◌, ◌||◌, Option, none, some, List, [], ◌∷◌, ◌++◌,
  map, any, select, All, All-map, All-append, ◌==◌, ◌≡◌, refl, sym, ap, ◌∙◌, subst, inl, inr, arith,
  Bool-cases, eq_iff, eq_refl,
}
use certinv.Store.Table.{insert_sorted, order_by}
use certinv.Store.Table.Members.{All-order_by}
use certinv.Store.Schema.{Db, HostRow}
use certinv.Store.Hosts.{is_suppressed}
use certinv.Store.Snapshots.{
  InventoryRow, Joined, flat_map, or_null, partners, state_test, joined_of, is_shown, inventory_row,
  row_le, inventory_of,
}

module _ {A : Type 0} where
  any-append : (p : A → Bool) (xs ys : List A) → any p (xs ++ ys) ≡ (any p xs || any p ys)
  unfolding any
  any-append p [] ys = refl
  any-append p (x ∷ xs) ys =
      rw (any-append p xs ys) (elim (Bool-cases (p x)) [ inl y ↦ rw y refl | inr n ↦ rw n refl ])

  any-insert_sorted :
      (p : A → Bool) (before : A → A → Bool) (x : A) (xs : List A)
      → any p (insert_sorted before x xs) ≡ (p x || any p xs)
  unfolding any insert_sorted
  any-insert_sorted p before x [] = refl
  any-insert_sorted p before x (y ∷ ys) = elim (Bool-cases (before x y)) [
    | inl b ↦ rw b refl
    | inr b ↦ rw (b, any-insert_sorted p before x ys) (ground arith)
  ]

  pub any-order_by :
      (p : A → Bool) (before : A → A → Bool) (xs : List A) → any p (order_by before xs) ≡ any p xs
  unfolding any order_by
  any-order_by p before [] = refl
  any-order_by p before (x ∷ xs) =
      any-insert_sorted p before x (order_by before xs)
      ∙ ap (λ b. p x || b) (any-order_by p before xs)

  -- each member passes, where whatever test it passes is passed by some member of the whole list
  All-within :
      (C : A → Type 0) (xs : List A)
      → ((x : A) → ((p : A → Bool) → p x ≡ true → any p xs ≡ true) → C x)
      → All C xs
  unfolding any
  All-within C [] h = tt
  All-within C (x ∷ xs) h =
      (h x (λ p y. rw y refl), All-within C xs (λ z k. h z (λ p y. ground (arith, k p y))))

  pub select_passes : (p : A → Bool) (xs : List A) → All (λ x. p x ≡ true) (select p xs)
  unfolding select
  select_passes p [] = tt
  select_passes p (x ∷ xs) = elim (Bool-cases (p x)) [
    | inl y ↦ rw y (y, select_passes p xs)
    | inr n ↦ rw n (select_passes p xs)
  ]

  any-select : (p q : A → Bool) (xs : List A) → any q (select p xs) ≡ any (λ x. p x && q x) xs
  unfolding any select
  any-select p q [] = refl
  any-select p q (x ∷ xs) = elim (Bool-cases (p x)) [
    | inl y ↦ rw (y, any-select p q xs) refl
    | inr n ↦ rw (n, any-select p q xs) refl
  ]

module _ {A B : Type 0} where
  pub any-map : (p : B → Bool) (f : A → B) (xs : List A) → any p (map f xs) ≡ any (λ x. p (f x)) xs
  unfolding any
  any-map p f [] = refl
  any-map p f (x ∷ xs) = rw (any-map p f xs) refl

  any-flat_map :
      (p : B → Bool) (f : A → List B) (xs : List A)
      → any p (flat_map f xs) ≡ any (λ x. any p (f x)) xs
  unfolding any flat_map
  any-flat_map p f [] = refl
  any-flat_map p f (x ∷ xs) =
      any-append p (f x) (flat_map f xs) ∙ ap (λ b. any p (f x) || b) (any-flat_map p f xs)

  All-flat_map :
      (P : B → Type 0) (Q : A → Type 0) (f : A → List B)
      → ((x : A) → Q x → All P (f x))
      → (xs : List A) → All Q xs
      → All P (flat_map f xs)
  unfolding flat_map
  All-flat_map P Q f h [] q = tt
  All-flat_map P Q f h (x ∷ xs) q =
      All-append P (f x) (flat_map f xs) (h x q.0) (All-flat_map P Q f h xs q.1)

  All-image : (P : B → Type 0) (f : A → B) → ((x : A) → P (f x)) → (xs : List A) → All P (map f xs)
  All-image P f h [] = tt
  All-image P f h (x ∷ xs) = (h x, All-image P f h xs)

module _ {A B : Type 0} where
  All-image_of :
      (P : B → Type 0) (f : A → B) (xs : List A) → All (λ x. P (f x)) xs → All P (map f xs)
  All-image_of P f [] h = tt
  All-image_of P f (x ∷ xs) h = (h.0, All-image_of P f xs h.1)

trivially : {A : Type 0} (xs : List A) → All (λ _. Unit {0}) xs
trivially [] = tt
trivially (x ∷ xs) = (tt, trivially xs)

-- the row is of the host
abbrev pub is_row_of : HostRow → InventoryRow → Bool
is_row_of h row = row.hostname == h.hostname && int_eq row.port h.port

module _ {B : Type 0} (p : B → Bool) (ys : List B) where
  any-partners :
      (q : Option B → Bool) → ((y : Option B) → q y ≡ true) → any q (partners p ys) ≡ true
  unfolding any partners
  any-partners q h = elim (select p ys) as (λ found. any q (or_null found) ≡ true) [
    | [] ↦ rw (h none) refl
    | y ∷ rest ↦ rw (h (some y)) refl
  ]

module _ (db : Db) (h : HostRow) where
  joined_of-host : All (λ (j : Joined). j.host ≡ h) (joined_of db h)
  unfolding joined_of
  joined_of-host =
      All-flat_map (λ (j : Joined). j.host ≡ h) (λ _. Unit {0}) _
        (λ hc _.
          All-flat_map (λ (j : Joined). j.host ≡ h) (λ _. Unit {0}) _
            (λ c _.
              All-image (λ (j : Joined). j.host ≡ h) _ (λ cs. refl)
                (partners (state_test h c) db.certificate_states))
            _ (trivially _))
        _ (trivially _)

  -- a host has a row, also where it has no certificate
  any-joined_of :
      (q : Joined → Bool) → ((j : Joined) → j.host ≡ h → q j ≡ true) → any q (joined_of db h) ≡ true
  unfolding joined_of
  any-joined_of q passes =
      any-flat_map q _ _
      ∙ any-partners _ _ _ (λ hc.
        any-flat_map q _ _
        ∙ any-partners _ _ _ (λ c. any-map q _ _ ∙ any-partners _ _ _ (λ cs. passes _ refl)))

module _ (db : Db) where
  abbrev Shown : InventoryRow → Type 0
  Shown row = any (is_suppressed row.hostname row.port) db.suppressed_hosts ≡ false

  joined_of-Shown :
      (h : HostRow) → is_shown db h ≡ true → All (λ j. Shown (inventory_row j)) (joined_of db h)
  joined_of-Shown h shown =
      All-map (λ (j : Joined). j.host ≡ h) (λ j. Shown (inventory_row j))
        (λ j same. rw same (ground (arith, shown))) (joined_of db h) (joined_of-host db h)

  rows-Shown : All Shown (inventory_of db)
  unfolding inventory_of
  rows-Shown = All-order_by Shown row_le _ (
      All-image_of Shown inventory_row _ (
        All-flat_map (λ j. Shown (inventory_row j)) (λ h. is_shown db h ≡ true) (joined_of db)
          joined_of-Shown (select (is_shown db) db.hosts) (select_passes (is_shown db) db.hosts)))

  is_row_of_self : (h : HostRow) (j : Joined) → j.host ≡ h → is_row_of h (inventory_row j) ≡ true
  is_row_of_self h j same =
      rw same (rw (eq_refl h.hostname, (int_eq_iff h.port h.port).1 refl) refl)

  -- a host that is not suppressed has a row
  row_of_shown :
      (h : HostRow)
      → ((p : HostRow → Bool) → p h ≡ true → any p db.hosts ≡ true)
      → is_shown db h ≡ true
      → any (is_row_of h) (inventory_of db) ≡ true
  unfolding inventory_of
  row_of_shown h within shown =
      any-order_by (is_row_of h) row_le _
      ∙ any-map (is_row_of h) inventory_row _
      ∙ any-flat_map (λ j. is_row_of h (inventory_row j)) (joined_of db) _
      ∙ any-select (is_shown db) _ db.hosts
      ∙ within _ (
          rw (shown, any-joined_of db h (λ j. is_row_of h (inventory_row j)) (is_row_of_self h))
            refl)

  is_row_of-Shown :
      (h : HostRow) (row : InventoryRow) → is_row_of h row ≡ true → Shown row → is_shown db h ≡ true
  is_row_of-Shown h row y shown =
      let name : row.hostname ≡ h.hostname = (eq_iff row.hostname h.hostname).0 (ground arith) in
      let at : row.port ≡ h.port = (int_eq_iff row.port h.port).0 (ground arith) in
      let of_host : any (is_suppressed h.hostname h.port) db.suppressed_hosts ≡ false =
        subst (λ p. any (is_suppressed h.hostname p) db.suppressed_hosts ≡ false) at
          (subst (λ n. any (is_suppressed n row.port) db.suppressed_hosts ≡ false) name shown) in
      ap not of_host

  none_of_All :
      (h : HostRow) (rows : List InventoryRow)
      → All Shown rows
      → is_shown db h ≡ false
      → any (is_row_of h) rows ≡ false
  unfolding any
  none_of_All h [] all hidden = refl
  none_of_All h (row ∷ rows) all hidden = elim (Bool-cases (is_row_of h row)) [
    | inl y ↦ absurd (cc (is_row_of-Shown h row y all.0, hidden))
    | inr n ↦ rw n (none_of_All h rows all.1 hidden)
  ]

-- The inventory has a row for a known host exactly where the host is not suppressed.
pub inventory_exact :
    (db : Db) → All (λ h. any (is_row_of h) (inventory_of db) ≡ is_shown db h) db.hosts
inventory_exact db =
    All-within (λ h. any (is_row_of h) (inventory_of db) ≡ is_shown db h) db.hosts
      (λ h within. elim (Bool-cases (is_shown db h)) [
        | inl y ↦ row_of_shown db h within y ∙ sym y
        | inr n ↦ none_of_All db h (inventory_of db) (rows-Shown db) n ∙ sym n
      ])
