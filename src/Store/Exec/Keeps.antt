-- ===== src/Store/Exec/Keeps.antt =====
-- What an action keeps of the database, also where it fails.
use certinv.Prelude.{◌+◌, String, inl, inr, Bool-cases}
use certinv.Result.{Error, Result, ok, err}
use certinv.Store.Schema.{Db}
use certinv.Store.Exec.{
  Conn, Driver, Action, continue, ◌>>=◌, pure, raise, statement, query, finish, transaction,
}

module _ (P : Db → Type 0) where
  pub record Keeps {A : Type 0} (m : Action A) : Type 0 where
    pub at : (c : Conn) → P c.db → P (m c).1.db

  continue-Keeps :
      {A B : Type 0} (x : Result A) (f : A → Action B)
      → ((a : A) → Keeps (f a))
      → Keeps (continue x f)
  continue-Keeps (ok a) f h = record { at = (h a).at }
  continue-Keeps (err e) f h = record { at = λ c p. p }

  pub >>=-Keeps :
      {A B : Type 0} (m : Action A) (f : A → Action B)
      → Keeps m
      → ((a : A) → Keeps (f a))
      → Keeps (m >>= f)
  >>=-Keeps m f hm hf = record { at = λ c p. (continue-Keeps (m c).0 f hf).at (m c).1 (hm.at c p) }

  pub pure-Keeps : {A : Type 0} (a : A) → Keeps (pure a)
  pure-Keeps a = record { at = λ c p. p }

  pub raise-Keeps : {A : Type 0} (e : Error) → Keeps {A = A} (raise e)
  raise-Keeps e = record { at = λ c p. p }

  module _ (driver : Driver) where
    pub statement-Keeps :
        {A : Type 0} (text : String) (f : Db → A × Db)
        → ((db : Db) → P db → P (f db).1)
        → Keeps (statement driver text f)
    unfolding statement
    statement-Keeps text f h = record {
      at = λ c p. elim (Bool-cases (driver c.calls)) [
        | inl bad ↦ rw bad p
        | inr good ↦ rw good (h c.db p)
      ];
    }

    pub query-Keeps : {A : Type 0} (text : String) (f : Db → A) → Keeps (query driver text f)
    query-Keeps text f = statement-Keeps text (λ db. (f db, db)) (λ db p. p)

    finish-Keeps :
        {A : Type 0} (before : Db) (r : Result A) (c : Conn)
        → P before
        → P c.db
        → P (finish driver before (r, c)).1.db
    unfolding finish statement
    finish-Keeps before (err e) c p q = p
    finish-Keeps before (ok a) c p q = elim (Bool-cases (driver c.calls)) [
      | inl bad ↦ rw (bad, finish) p
      | inr good ↦ rw (good, finish) (rw good q)
    ]

    pub transaction-Keeps : {A : Type 0} (m : Action A) → Keeps m → Keeps (transaction driver m)
    unfolding transaction statement
    transaction-Keeps m h = record {
      at = λ c p. elim (Bool-cases (driver c.calls)) [
        | inl bad ↦ rw bad p
        | inr good ↦
            let c' : Conn = record { db = c.db; calls = c.calls + 1 } in
            rw good (finish-Keeps c.db (m c').0 (m c').1 p (h.at c' p))
      ];
    }
