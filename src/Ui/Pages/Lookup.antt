-- ===== src/Ui/Pages/Lookup.antt =====
-- The lookup of names of an apex at crt.name, shown on the page of the sources.
use certinv.Prelude.{
  String, Bool, true, false, not, Option, none, some, List, [], ◌∷◌, any, ◌==◌, if◌then◌else◌,
}
use certinv.Text.{trim_space}
use certinv.Discover.{Host}
use certinv.Discover.CrtName
use certinv.Result.{Error, message, Result, ok, err}
use certinv.Ui.{Outside, Handler, Request, Response, page, text, CrtNameCandidate, PageData}
use certinv.Ui.Stage.{Outcome, reply, Stage, go, ◌>>=◌, ◌>>◌, answer, stop, form_value}
use certinv.Ui.Forms.{selected_lookup_apex}
use certinv.Ui.Lookups.{effective_apexes, registered_manual_hostnames}
use certinv.Ui.Pages.{load_failed, page_data}

-- the candidates of a lookup: the hosts found that are not registered
unfoldable pub candidates_of : List String → List Host → List CrtNameCandidate
candidates_of registered [] = []
candidates_of registered (x ∷ hosts) =
    let rest = candidates_of registered hosts in
    if any (λ n. n == x.hostname) registered
    then rest
    else record { hostname = x.hostname; apex = x.apex } ∷ rest

module _ (out : Outside) (h : Handler) where
  -- `renderSourcesError`, and the return behind it
  unfoldable pub sources_error : {A : Type 0} → String → Stage A
  sources_error problem = do shown ← page_data out h "sources" "" (text problem); stop (page shown)

  -- a step whose error is shown on the page of the sources
  unfoldable pub or_sources_error : {A : Type 0} → String → Result A → Stage A
  or_sources_error problem (ok a) = answer a
  or_sources_error problem (err e) = sources_error problem

  abbrev recovered : {A : Type 0} → Outcome A → Result A
  recovered (go a) = ok a
  recovered (reply x) = err (message "store")

  -- a result of a step that does not stop the handler by itself
  unfoldable pub attempt : {A : Type 0} → ((Error → Response) → Stage A) → Stage (Result A)
  attempt m s = let (x, s') = m load_failed s in (go (recovered x), s')

  abbrev show_lookup : PageData → String → String → List CrtNameCandidate → PageData
  show_lookup shown endpoint apex candidates = record shown {
    sources = record shown.sources {
      crt_name = record { enabled = true; endpoint = endpoint; origin = "form" };
    };
    lookup = record shown.lookup { selected_apex = apex; candidates = candidates };
  }

  abbrev or_missing : {A : Type 0} → Option A → Result A
  or_missing none = err (message "missing")
  or_missing (some a) = ok a

  abbrev no_apexes : List String → Result (Unit {0})
  no_apexes [] = err (message "missing")
  no_apexes (_ ∷ _) = ok tt

  abbrev ok_if : Bool → Result (Unit {0})
  ok_if true = ok tt
  ok_if false = err (message "missing")

  unfoldable pub crt_name_lookup : Request → Stage Response
  crt_name_lookup r = do
    loaded ← attempt (effective_apexes out h)
    apexes ← or_sources_error "failed to load apexes" loaded
    or_sources_error "no apexes configured" (no_apexes apexes)
    form ← or_sources_error "invalid form" (or_missing r.form)
    apex ←
        or_sources_error "lookup apex must be configured or managed"
          (or_missing (selected_lookup_apex (form_value "apex" form) apexes))
    or_sources_error "crtname discovery is disabled" (ok_if (form_value "enabled" form == "on"))
    let endpoint = trim_space (form_value "endpoint" form)
    or_sources_error "crtname endpoint is not configured" (ok_if (not (endpoint == "")))
    hosts ←
        or_sources_error "crtname lookup failed"
          (CrtName.discover out.parse_time out.fetch endpoint (apex ∷ []))
    known ← attempt (registered_manual_hostnames out h)
    registered ← or_sources_error "failed to load existing targets" known
    shown ← page_data out h "sources" "crtname lookup completed" (text "")
    answer (page (show_lookup shown endpoint apex (candidates_of registered hosts)))
