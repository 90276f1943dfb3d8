-- ===== src/Ui/Routes/Sound.antt =====
-- Every request keeps the invariant.
use certinv.Prelude.{◌==◌, sym, subst, inl, inr, Bool-cases}
use certinv.Cmd.SerialScan.{IsExclusive, Reach-IsExclusive}
use certinv.Ui.{Outside, Handler, Request, Response, Site}
use certinv.Ui.Stage.{Stage, post}
use certinv.Ui.Events.Sound.{acknowledge-Sound, scan-Sound}
use certinv.Ui.Hosts.Sound.{
  suppress-Sound, suppress_all-Sound, unsuppress-Sound, purge-Sound, purge_all-Sound,
}
use certinv.Ui.Pages.Reading.{
  inventory-Holds, export_csv-Holds, status-Holds, crt_name_lookup-Holds,
}
use certinv.Ui.Routes.{
  Route, root, inventory_page, export, events_ack, scan_start, scan_state, apex_add, apex_crt_name,
  apex_delete, host_add, host_edit, host_delete, host_suppress, host_suppress_all, host_unsuppress,
  host_purge, host_purge_all, crt_name_save, crt_name_search, crt_name_add, zone_add, zone_delete,
  route_of, handler, serve,
}
use certinv.Ui.Routes.Reading.{response-site, get-Holds, redirect_root-Holds}
use certinv.Ui.Sound.{IsSound}
use certinv.Ui.Targets.Sound.{
  add_apex-Sound, delete_apex-Sound, save_apex_crt_name-Sound, add_manual_host-Sound,
  delete_manual_host-Sound, edit_manual_host-Sound, save_crt_name-Sound,
  add_crt_name_selected-Sound, add_zone_file-Sound, delete_zone_file-Sound,
}
use certinv.Ui.Yields.{Holds, stop-Yields}

module _ (out : Outside) (h : Handler) (r : Request) where
  post-Sound :
      {body : Stage Response} → Holds (IsSound out h) body → Holds (IsSound out h) (post body r)
  unfolding post
  post-Sound k = elim (Bool-cases (r.method == "POST")) [
    | inl y ↦ rw y k
    | inr n ↦ rw n stop-Yields
  ]

  handler-Sound : (route : Route) → Holds (IsSound out h) (handler out h route r)
  unfolding handler
  handler-Sound root = redirect_root-Holds r
  handler-Sound inventory_page = get-Holds r (inventory-Holds out h r)
  handler-Sound export = get-Holds r (export_csv-Holds out h r)
  handler-Sound scan_state = get-Holds r (status-Holds out h r)
  handler-Sound events_ack = post-Sound (acknowledge-Sound out h r)
  handler-Sound scan_start = post-Sound (scan-Sound out h r)
  handler-Sound apex_add = post-Sound (add_apex-Sound out h r)
  handler-Sound apex_crt_name = post-Sound (save_apex_crt_name-Sound out h r)
  handler-Sound apex_delete = post-Sound (delete_apex-Sound out h r)
  handler-Sound host_add = post-Sound (add_manual_host-Sound out h r)
  handler-Sound host_edit = post-Sound (edit_manual_host-Sound out h r)
  handler-Sound host_delete = post-Sound (delete_manual_host-Sound out h r)
  handler-Sound host_suppress = post-Sound (suppress-Sound out h r)
  handler-Sound host_suppress_all = post-Sound (suppress_all-Sound out h r)
  handler-Sound host_unsuppress = post-Sound (unsuppress-Sound out h r)
  handler-Sound host_purge = post-Sound (purge-Sound out h r)
  handler-Sound host_purge_all = post-Sound (purge_all-Sound out h r)
  handler-Sound crt_name_save = post-Sound (save_crt_name-Sound out h r)
  handler-Sound crt_name_search = post-Sound (crt_name_lookup-Holds out h r)
  handler-Sound crt_name_add = post-Sound (add_crt_name_selected-Sound out h r)
  handler-Sound zone_add = post-Sound (add_zone_file-Sound out h r)
  handler-Sound zone_delete = post-Sound (delete_zone_file-Sound out h r)

-- Every request to the web interface, whatever its method, path and form, and whatever the driver, the
-- file system and the library of public suffixes answer, keeps this of the database and of the runner:
-- every managed apex is registrable; every managed host has a name, a port from 1 to 65535, and as its
-- apex an apex that it lies within, which is one of the configuration or registrable; every managed
-- zone file lies below the allowed directory; and the runner is in a state that requests and ends of
-- scans lead to, so that at most one scan runs.
pub serve-IsSound :
    (out : Outside) (h : Handler) (r : Request) (s : Site)
    → IsSound out h s.conn.db s.scans
    → IsSound out h (serve out h r s).1.conn.db (serve out h r s).1.scans
      × IsExclusive (serve out h r s).1.scans
unfolding serve
serve-IsSound out h r s sound =
    let same = response-site (handler out h (route_of r.path) r s) in
    let kept =
      subst (λ (x : Site). IsSound out h x.conn.db x.scans) (sym same)
        ((handler-Sound out h r (route_of r.path)).at s sound).0 in
    (kept, Reach-IsExclusive kept.3)
