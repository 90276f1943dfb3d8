-- ===== src/Ui/Routes.antt =====
-- `Register`: which handler answers which path. The mux of net/http takes a path as it stands, or the
-- pattern that ends with a slash and begins it; the redirects by which it cleans paths are left out.
pub mod Reading
pub mod Sound
use certinv.Prelude.{
  String, Bool, true, false, ◌==◌, Option, none, some, List, [], ◌∷◌, if◌then◌else◌,
}
use certinv.Text.{has_prefix}
use certinv.Ui.{Outside, Handler, Request, Response, found, not_found, Site}
use certinv.Ui.Stage.{Stage, answer, response, post, get}
use certinv.Ui.Pages.{inventory, status}
use certinv.Ui.Pages.Lookup.{crt_name_lookup}
use certinv.Ui.Pages.Export.{export_csv}
use certinv.Ui.Targets.{
  add_apex, delete_apex, save_apex_crt_name, add_manual_host, delete_manual_host, edit_manual_host,
  save_crt_name, add_crt_name_selected, add_zone_file, delete_zone_file,
}
use certinv.Ui.Hosts.{suppress, suppress_all, unsuppress, purge, purge_all}
use certinv.Ui.Events.{acknowledge, scan}

-- the handlers, by the name of their method
pub data Route : Type 0 where
  root inventory_page export events_ack scan_start scan_state : Route
  apex_add apex_crt_name apex_delete host_add host_edit host_delete : Route
  host_suppress host_suppress_all host_unsuppress host_purge host_purge_all : Route
  crt_name_save crt_name_search crt_name_add zone_add zone_delete : Route

abbrev patterns : List (String × Route)
patterns =
    ("/ui", inventory_page)
    ∷ ("/ui/export.csv", export)
    ∷ ("/ui/scan", scan_start)
    ∷ ("/ui/scan/status", scan_state)
    ∷ ("/ui/apexes", apex_add)
    ∷ ("/ui/apexes/crtname", apex_crt_name)
    ∷ ("/ui/apexes/delete", apex_delete)
    ∷ ("/ui/manual-hosts", host_add)
    ∷ ("/ui/manual-hosts/edit", host_edit)
    ∷ ("/ui/manual-hosts/delete", host_delete)
    ∷ ("/ui/hosts/suppress", host_suppress)
    ∷ ("/ui/hosts/suppress-all", host_suppress_all)
    ∷ ("/ui/hosts/unsuppress", host_unsuppress)
    ∷ ("/ui/hosts/purge", host_purge)
    ∷ ("/ui/hosts/purge-all", host_purge_all)
    ∷ ("/ui/crtname", crt_name_save)
    ∷ ("/ui/crtname/lookup", crt_name_search)
    ∷ ("/ui/crtname/add-selected", crt_name_add)
    ∷ ("/ui/zone-files", zone_add)
    ∷ ("/ui/zone-files/delete", zone_delete)
    ∷ []

unfoldable pub pattern_of : String → List (String × Route) → Option Route
pattern_of path [] = none
pattern_of path ((p, route) ∷ rest) =
    let later = pattern_of path rest in if p == path then some route else later

unfoldable pub route_of : String → Route
route_of path = elim (pattern_of path patterns) [
  | some route ↦ route
  | none ↦ if has_prefix path "/ui/events/" then events_ack else root
]

-- `redirectRoot`
unfoldable pub redirect_root : Request → Stage Response
redirect_root r = answer (if r.path == "/" then found else not_found)

module _ (out : Outside) (h : Handler) where
  unfoldable pub handler : Route → Request → Stage Response
  handler root r = redirect_root r
  handler inventory_page r = get (inventory out h r) r
  handler export r = get (export_csv out h r) r
  handler events_ack r = post (acknowledge out h r) r
  handler scan_start r = post (scan out h r) r
  handler scan_state r = get (status out h r) r
  handler apex_add r = post (add_apex out h r) r
  handler apex_crt_name r = post (save_apex_crt_name out h r) r
  handler apex_delete r = post (delete_apex out h r) r
  handler host_add r = post (add_manual_host out h r) r
  handler host_edit r = post (edit_manual_host out h r) r
  handler host_delete r = post (delete_manual_host out h r) r
  handler host_suppress r = post (suppress out r) r
  handler host_suppress_all r = post (suppress_all out r) r
  handler host_unsuppress r = post (unsuppress out r) r
  handler host_purge r = post (purge out r) r
  handler host_purge_all r = post (purge_all out r) r
  handler crt_name_save r = post (save_crt_name out h r) r
  handler crt_name_search r = post (crt_name_lookup out h r) r
  handler crt_name_add r = post (add_crt_name_selected out h r) r
  handler zone_add r = post (add_zone_file out h r) r
  handler zone_delete r = post (delete_zone_file out h r) r

  unfoldable pub serve : Request → Site → Response × Site
  serve r s = response (handler (route_of r.path) r s)
