-- ===== src/Ui/Stage.antt =====
-- The steps of a handler: each goes on with a value, or has written the response and returns.
use certinv.Prelude.{◌+◌, String, Bool, true, false, none, some, List, [], ◌∷◌, ◌==◌, if◌then◌else◌}
use certinv.Clock.{Time}
use certinv.Result.{Error, Result, ok, err}
use certinv.Store.Exec.{Action}
use certinv.Ui.{Outside, Site, Request, Message, Response, not_allowed, redirect}

-- A step of a handler goes on with a value, or has written a response and returns.
pub data Outcome (A : Type 0) : Type 0 where
  go : A → Outcome A
  reply : Response → Outcome A

abbrev pub Stage : Type 0 → Type 0
Stage A = Site → Outcome A × Site

abbrev pub continue : {A B : Type 0} → Outcome A → (A → Stage B) → Stage B
continue (go a) next s = next a s
continue (reply x) next s = (reply x, s)

infixl 5 ◌>>=◌ ◌>>◌
unfoldable pub ◌>>=◌ : {A B : Type 0} → Stage A → (A → Stage B) → Stage B
◌>>=◌ m next s = let (x, s') = m s in continue x next s'

abbrev pub ◌>>◌ : {B : Type 0} → Stage (Unit {0}) → Stage B → Stage B
m >> next = m >>= λ _. next

abbrev pub answer : {A : Type 0} → A → Stage A
answer a s = (go a, s)

abbrev pub stop : {A : Type 0} → Response → Stage A
stop x s = (reply x, s)

abbrev pub outcome : {A : Type 0} → (Error → Response) → Result A → Outcome A
outcome failed (ok a) = go a
outcome failed (err e) = reply (failed e)

-- a check of the form, with the response to its error
unfoldable pub check : {A : Type 0} → (Error → Response) → Result A → Stage A
check failed r s = (outcome failed r, s)

-- a method of the store, with the response to its error
unfoldable pub try : {A : Type 0} → (Error → Response) → Action A → Stage A
try failed m s = let (r, c) = m s.conn in (outcome failed r, record s { conn = c })

-- `if test { ...; return }`
unfoldable pub stop_if : Bool → Response → Stage (Unit {0})
stop_if true x s = (reply x, s)
stop_if false x s = (go tt, s)

abbrev pub response : Outcome Response × Site → Response × Site
response (go x, s) = (x, s)
response (reply x, s) = (x, s)

-- `activeTab`
unfoldable pub active_tab : Request → String
active_tab r = if r.tab == "sources" then "sources" else "inventory"

abbrev pub notice_at : String → Message → Response
notice_at tab m = redirect tab "notice" m

abbrev pub error_at : String → Message → Response
error_at tab m = redirect tab "error" m

-- a handler that takes POST only
unfoldable pub post : Stage Response → Request → Stage Response
post body r = if r.method == "POST" then body else stop (not_allowed "POST")

-- a handler that takes GET and HEAD only
unfoldable pub get : Stage Response → Request → Stage Response
get body r =
    if r.method == "GET"
    then body
    else if r.method == "HEAD"
    then body
    else stop (not_allowed "GET, HEAD")

-- `ParseForm`
unfoldable pub parse_form : Response → Request → Stage (List (String × String))
parse_form failed r = elim r.form [ none ↦ stop failed | some values ↦ answer values ]

-- `FormValue`: the first value of the key, or ""
unfoldable pub form_value : String → List (String × String) → String
form_value key [] = ""
form_value key ((k, v) ∷ values) = if k == key then v else form_value key values

-- `r.Form[key]`
unfoldable pub form_values : String → List (String × String) → List String
form_values key [] = []
form_values key ((k, v) ∷ values) =
    let rest = form_values key values in if k == key then v ∷ rest else rest

-- `h.now()`
unfoldable pub now : Outside → Stage Time
now out s = (go (out.clock s.asked), record s { asked = s.asked + 1 })
