-- ===== src/Store/Exec/Laws.antt =====
-- What a successful and a failed action say of their parts.
use certinv.Prelude.{◌+◌, String, false, ◌≡◌, refl, sym, ap, ◌∙◌, inl, inr, Bool-cases}
use certinv.Result.{Error, Result, ok, err, ok-injective, err-ne-ok}
use certinv.Store.Schema.{Db}
use certinv.Store.Exec.{
  Conn, Driver, Action, continue, ◌>>=◌, ◌>>◌, pure, statement, exec, finish, transaction,
}

continue-eq-ok :
    {A B : Type 0} (r : Result A) (f : A → Action B) (c : Conn) {b : B}
    → (continue r f c).0 ≡ ok b
    → (a : A) × (r ≡ ok a) × (continue r f c ≡ f a c)
continue-eq-ok (ok a) f c h = (a, refl, refl)
continue-eq-ok (err e) f c h = absurd (err-ne-ok h)

-- A bind that succeeds is its second part, after a first part that succeeded.
pub >>=-eq-ok :
    {A B : Type 0} (m : Action A) (f : A → Action B) (c : Conn) {b : B}
    → ((m >>= f) c).0 ≡ ok b
    → (a : A) × ((m c).0 ≡ ok a) × ((m >>= f) c ≡ f a (m c).1)
>>=-eq-ok m f c h = let (r, c') = m c in continue-eq-ok r f c' h

module _ (driver : Driver) {A : Type 0} where
  pub statement-eq-ok :
      (text : String) (f : Db → A × Db) (c : Conn) (a : A)
      → (statement driver text f c).0 ≡ ok a
      → ((f c.db).0 ≡ a) × ((statement driver text f c).1.db ≡ (f c.db).1)
  unfolding statement
  statement-eq-ok text f c a h = elim (Bool-cases (driver c.calls)) [
    | inl bad ↦ absurd (err-ne-ok (rw bad at h))
    | inr good ↦ (ok-injective (rw good at h), rw good refl)
  ]

  -- A statement that fails changes nothing.
  pub statement-eq-err :
      (text : String) (f : Db → A × Db) (c : Conn) (e : Error)
      → (statement driver text f c).0 ≡ err e
      → (statement driver text f c).1.db ≡ c.db
  unfolding statement
  statement-eq-err text f c e h = elim (Bool-cases (driver c.calls)) [
    | inl bad ↦ rw bad refl
    | inr good ↦ absurd (err-ne-ok (sym (rw good at h)))
  ]

  -- where the driver does not fail, the statement takes effect
  pub statement_ok :
      (text : String) (f : Db → A × Db) (c : Conn)
      → driver c.calls ≡ false
      → statement driver text f c ≡ (ok (f c.db).0, record { db = (f c.db).1; calls = c.calls + 1 })
  unfolding statement
  statement_ok text f c good = rw good refl

  finish-eq-err :
      (before : Db) (r : Result A) (c : Conn) (e : Error)
      → (finish driver before (r, c)).0 ≡ err e
      → (finish driver before (r, c)).1.db ≡ before
  unfolding finish statement
  finish-eq-err before (err x) c e h = refl
  finish-eq-err before (ok a) c e h = elim (Bool-cases (driver c.calls)) [
    | inl bad ↦ rw (bad, finish) refl
    | inr good ↦ absurd (err-ne-ok (sym (rw (good, finish) at h)))
  ]

  finish-eq-ok :
      (before : Db) (r : Result A) (c : Conn) (a : A)
      → (finish driver before (r, c)).0 ≡ ok a
      → (r ≡ ok a) × ((finish driver before (r, c)).1.db ≡ c.db)
  unfolding finish statement
  finish-eq-ok before (err x) c a h = absurd (err-ne-ok h)
  finish-eq-ok before (ok b) c a h = elim (Bool-cases (driver c.calls)) [
    | inl bad ↦ absurd (err-ne-ok (rw (bad, finish) at h))
    | inr good ↦ (rw (good, finish) at h, rw (good, finish) (rw good refl))
  ]

  -- A transaction that fails, in its body or at its commit, leaves the database as it was.
  pub transaction-eq-err :
      (m : Action A) (c : Conn) (e : Error)
      → (transaction driver m c).0 ≡ err e
      → (transaction driver m c).1.db ≡ c.db
  unfolding transaction statement
  transaction-eq-err m c e h = elim (Bool-cases (driver c.calls)) [
    | inl bad ↦ rw bad refl
    | inr good ↦
        let c' : Conn = record { db = c.db; calls = c.calls + 1 } in
        rw good (finish-eq-err c.db (m c').0 (m c').1 e (rw good at h))
  ]

  -- One that succeeds has the effect of its body.
  pub transaction-eq-ok :
      (m : Action A) (c : Conn) (a : A)
      → (transaction driver m c).0 ≡ ok a
      → (c' : Conn) × (c'.db ≡ c.db)
        × ((m c').0 ≡ ok a)
        × ((transaction driver m c).1.db ≡ (m c').1.db)
  unfolding transaction statement
  transaction-eq-ok m c a h = elim (Bool-cases (driver c.calls)) [
    | inl bad ↦ absurd (err-ne-ok (rw bad at h))
    | inr good ↦
        let c' : Conn = record { db = c.db; calls = c.calls + 1 } in
        let f = finish-eq-ok c.db (m c').0 (m c').1 a (rw good at h) in (c', refl, f.0, rw good f.1)
  ]

-- What an action does to the database, where it succeeds.
pub record HasEffect {A : Type 0} (m : Action A) (f : Db → Db) : Type 0 where
  pub at : (c : Conn) (a : A) → (m c).0 ≡ ok a → (m c).1.db ≡ f c.db

module _ (driver : Driver) where
  pub exec-HasEffect : (text : String) (f : Db → Db) → HasEffect (exec driver text f) f
  exec-HasEffect text f = record {
    at = λ c a h. (statement-eq-ok driver text (λ db. (tt, f db)) c a h).1;
  }

pub >>-HasEffect :
    {B : Type 0} (m : Action (Unit {0})) (k : Action B) (f g : Db → Db)
    → HasEffect m f
    → HasEffect k g
    → HasEffect (m >> k) (λ db. g (f db))
>>-HasEffect m k f g hm hk = record {
  at = λ c b h.
      let (a, e, s) = >>=-eq-ok m (λ _. k) c h in
      ap (λ r. r.1.db) s ∙ hk.at (m c).1 b (sym (ap (λ r. r.0) s) ∙ h) ∙ ap g (hm.at c a e);
}

pub pure-HasEffect : HasEffect (pure tt) (λ db. db)
pure-HasEffect = record { at = λ c a h. refl }
