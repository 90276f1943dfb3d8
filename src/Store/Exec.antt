-- ===== src/Store/Exec.antt =====
-- Actions on the database. Each statement is one call of the SQL driver, and any call may fail: the
-- driver, a parameter, says which, by the number of calls made before it. A statement that fails
-- changes nothing. The mutex makes each method of the store one step.
pub mod Laws
pub mod Keeps
use certinv.Prelude.{
  ℕ, ◌+◌, String, Bool, true, false, Option, none, some, ◌≡◌, refl, if◌then◌else◌,
}
use certinv.Result.{Error, message, wrap, Result, ok, err}
use certinv.Store.Schema.{Db}

pub record Conn : Type 0 where
  pub db : Db
  pub calls : ℕ

-- whether the call with this number fails
abbrev pub Driver : Type 0
Driver = ℕ → Bool

abbrev pub Action : Type 0 → Type 0
Action A = Conn → Result A × Conn

abbrev pub continue :
    {A B : Type 0} → Result A → (A → Conn → Result B × Conn) → Conn → Result B × Conn
continue (ok a) f c = f a c
continue (err e) f c = (err e, c)

infixl 5 ◌>>=◌ ◌>>◌
abbrev pub ◌>>=◌ : {A B : Type 0} → Action A → (A → Action B) → Action B
◌>>=◌ m f c = let (r, c') = m c in continue r f c'

abbrev pub ◌>>◌ : {B : Type 0} → Action (Unit {0}) → Action B → Action B
m >> k = m >>= λ _. k

abbrev pub pure : {A : Type 0} → A → Action A
pure a c = (ok a, c)

abbrev pub raise : {A : Type 0} → Error → Action A
raise e c = (err e, c)

-- a result that no statement gives
abbrev pub lift : {A : Type 0} → Result A → Action A
lift r c = (r, c)

module _ (driver : Driver) where
  -- one statement; the text is that of the error in front of the driver's
  unfoldable pub statement : {A : Type 0} → String → (Db → A × Db) → Action A
  statement text f c =
      let (a, db) = f c.db in
      if driver c.calls
      then (err (wrap text (message "driver")), record c { calls = c.calls + 1 })
      else (ok a, record { db = db; calls = c.calls + 1 })

  abbrev pub exec : String → (Db → Db) → Action (Unit {0})
  exec text f = statement text (λ db. (tt, f db))

  abbrev pub query : {A : Type 0} → String → (Db → A) → Action A
  query text f = statement text (λ db. (f db, db))

  -- The result of a transaction's body, with the database as it stood before: committed, or
  -- rolled back when the body or the commit fails.
  unfoldable pub finish : {A : Type 0} → Db → Result A × Conn → Result A × Conn
  finish before (err e, c) = (err e, record c { db = before })
  finish before (ok a, c) =
      let (r, c') = exec "commit" (λ db. db) c in
      elim r [ err e ↦ (err e, record c' { db = before }) | ok _ ↦ (ok a, c') ]

  unfoldable pub transaction : {A : Type 0} → Action A → Action A
  unfolding finish
  transaction m = do exec "begin" (λ db. db); λ c. finish c.db (m c)
