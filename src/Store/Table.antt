-- ===== src/Store/Table.antt =====
-- The SQL statements that the store uses, on a table as the list of its rows in the order of their
-- row ids. A new row gets the highest row id, so it stands last.
pub mod Laws
pub mod Members
pub mod Lookup
use Prim.Native.Nat.{Ordering}
use Prim.Native.String.{compare}
use certinv.Prelude.{
  String, ℤ, leb_ℤ, ℕ, suc, Bool, true, false, Option, none, some, List, [], ◌∷◌, ◌++◌, any, leb,
  if◌then◌else◌,
}

-- ORDER BY a text, and then by what is left on a tie; texts compare by their bytes
abbrev pub text_then : String → String → Bool → Bool
text_then s t tie = elim (compare s t) [
  | Ordering.lt ↦ true
  | Ordering.eq ↦ tie
  | Ordering.gt ↦ false
]

abbrev pub text_le : String → String → Bool
text_le s t = text_then s t true

-- ORDER BY hostname, port
abbrev pub host_le : String → ℤ → String → ℤ → Bool
host_le h p h' p' = text_then h h' (leb_ℤ p p')

module _ {ℓ} {R : Type ℓ} where
  -- UPDATE ... SET ... WHERE
  unfoldable pub update_where : (R → Bool) → (R → R) → List R → List R
  update_where p f [] = []
  update_where p f (r ∷ rows) = (if p r then f r else r) ∷ update_where p f rows

  -- DELETE FROM ... WHERE
  unfoldable pub delete_where : (R → Bool) → List R → List R
  delete_where p [] = []
  delete_where p (r ∷ rows) = let rest = delete_where p rows in if p r then rest else r ∷ rest

  -- INSERT ... ON CONFLICT DO UPDATE: the test is that of the conflict
  unfoldable pub upsert : (R → Bool) → R → (R → R) → List R → List R
  upsert p row f rows = if any p rows then update_where p f rows else rows ++ row ∷ []

  unfoldable pub insert_sorted : (R → R → Bool) → R → List R → List R
  insert_sorted before r [] = r ∷ []
  insert_sorted before r (s ∷ rows) =
      if before r s then r ∷ s ∷ rows else s ∷ insert_sorted before r rows

  -- ORDER BY, where `before r s` says that r does not stand behind s
  unfoldable pub order_by : (R → R → Bool) → List R → List R
  unfolding insert_sorted
  order_by before [] = []
  order_by before (r ∷ rows) = insert_sorted before r (order_by before rows)

  -- the id that SQLite gives a new row: one more than the highest
  unfoldable pub next_id : (R → ℕ) → List R → ℕ
  next_id id [] = 1
  next_id id (r ∷ rows) = let m = next_id id rows in if leb m (id r) then suc (id r) else m
