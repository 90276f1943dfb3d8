-- ===== src/Ui/Yields.antt =====
-- What the steps of a handler keep of the database and of the runner of scans, whatever fails, and what
-- the values satisfy that they go on with.
use certinv.Prelude.{◌≡◌, refl, true, false, Bool, Option, none, some, String, List}
use certinv.Result.{Error, Result, ok, err}
use certinv.Store.Schema.{Db}
use certinv.Store.Exec.{Action}
use certinv.Store.Exec.Keeps.{Keeps}
use certinv.Cmd.SerialScan.{Runner}
use certinv.Ui.{Outside, Request, Response, Site}
use certinv.Ui.Stage.{
  Stage, Outcome, go, reply, continue, ◌>>=◌, answer, stop, outcome, check, try, stop_if,
  parse_form, now,
}

abbrev pub AllGo : {A : Type 0} → (A → Type 0) → Outcome A → Type 0
AllGo Q (go a) = Q a
AllGo Q (reply x) = Unit {0}

pub record Yields (P : Db → Runner → Type 0) {A : Type 0} (Q : A → Type 0) (m : Stage A)
    : Type 0 where
  pub at : (s : Site) → P s.conn.db s.scans → P (m s).1.conn.db (m s).1.scans × AllGo Q (m s).0

-- the step keeps P
abbrev pub Holds : (Db → Runner → Type 0) → {A : Type 0} → Stage A → Type 0
Holds P m = Yields P (λ _. Unit {0}) m

outcome-AllGo :
    {A : Type 0} (failed : Error → Response) (r : Result A)
    → AllGo (λ a. r ≡ ok a) (outcome failed r)
outcome-AllGo failed (ok a) = refl
outcome-AllGo failed (err e) = tt

outcome-Unit :
    {A : Type 0} (failed : Error → Response) (r : Result A)
    → AllGo (λ _. Unit {0}) (outcome failed r)
outcome-Unit failed (ok a) = tt
outcome-Unit failed (err e) = tt

AllGo-map :
    {A : Type 0} {Q R : A → Type 0} (x : Outcome A) → ((a : A) → Q a → R a) → AllGo Q x → AllGo R x
AllGo-map (go a) f q = f a q
AllGo-map (reply x) f q = tt

module _ {P : Db → Runner → Type 0} where
  continue-Yields :
      {A B : Type 0} {Q : A → Type 0} {R : B → Type 0} (x : Outcome A) (f : A → Stage B)
      → AllGo Q x
      → ((a : A) → Q a → Yields P R (f a))
      → Yields P R (continue x f)
  continue-Yields (go a) f q h = record { at = (h a q).at }
  continue-Yields (reply x) f q h = record { at = λ s p. (p, tt) }

  pub >>=-Yields :
      {A B : Type 0} {Q : A → Type 0} {R : B → Type 0} {m : Stage A} {f : A → Stage B}
      → Yields P Q m
      → ((a : A) → Q a → Yields P R (f a))
      → Yields P R (m >>= f)
  unfolding ◌>>=◌
  >>=-Yields {m} {f} hm hf = record {
    at = λ s p. (continue-Yields (m s).0 f (hm.at s p).1 hf).at (m s).1 (hm.at s p).0;
  }

  pub map-Yields :
      {A : Type 0} {Q R : A → Type 0} {m : Stage A}
      → Yields P Q m
      → ((a : A) → Q a → R a)
      → Yields P R m
  map-Yields {m} h f = record { at = λ s p. ((h.at s p).0, AllGo-map (m s).0 f (h.at s p).1) }

  pub answer-Yields : {A : Type 0} {Q : A → Type 0} {a : A} → Q a → Yields P Q (answer a)
  answer-Yields q = record { at = λ s p. (p, q) }

  pub stop-Yields : {A : Type 0} {Q : A → Type 0} {x : Response} → Yields P Q (stop x)
  stop-Yields = record { at = λ s p. (p, tt) }

  pub check-Yields :
      {A : Type 0} (failed : Error → Response) (r : Result A)
      → Yields P (λ a. r ≡ ok a) (check failed r)
  unfolding check
  check-Yields failed r = record { at = λ s p. (p, outcome-AllGo failed r) }

  pub try-Holds :
      {A : Type 0} (failed : Error → Response) (m : Action A)
      → ((r : Runner) → Keeps (λ db. P db r) m)
      → Holds P (try failed m)
  unfolding try
  try-Holds failed m h = record {
    at = λ s p. ((h s.scans).at s.conn p, outcome-Unit failed (m s.conn).0);
  }

  pub stop_if-Holds : (b : Bool) (x : Response) → Holds P (stop_if b x)
  unfolding stop_if
  stop_if-Holds true x = record { at = λ s p. (p, tt) }
  stop_if-Holds false x = record { at = λ s p. (p, tt) }

  form-Holds :
      (failed : Response) (form : Option (List (String × String)))
      → Holds P {A = List (String × String)}
          (elim form [ none ↦ stop failed | some values ↦ answer values ])
  form-Holds failed none = stop-Yields
  form-Holds failed (some values) = answer-Yields tt

  pub parse_form-Holds : (failed : Response) (r : Request) → Holds P (parse_form failed r)
  unfolding parse_form
  parse_form-Holds failed r = form-Holds failed r.form

  pub now-Holds : (out : Outside) → Holds P (now out)
  unfolding now
  now-Holds out = record { at = λ s p. (p, tt) }
