-- ===== src/Ui/Routes/Reading.antt =====
-- What a request changes that is not a POST.
use certinv.Prelude.{false, ◌==◌, ◌≡◌, refl, ap, ◌∙◌, inl, inr, Bool-cases}
use certinv.Store.Schema.{Db}
use certinv.Cmd.SerialScan.{Runner}
use certinv.Ui.{Outside, Handler, Request, Response, Site}
use certinv.Ui.Stage.{Stage, Outcome, go, reply, response, post, get}
use certinv.Ui.Pages.Reading.{inventory-Holds, export_csv-Holds, status-Holds}
use certinv.Ui.Routes.{
  Route, root, inventory_page, export, events_ack, scan_start, scan_state, apex_add, apex_crt_name,
  apex_delete, host_add, host_edit, host_delete, host_suppress, host_suppress_all, host_unsuppress,
  host_purge, host_purge_all, crt_name_save, crt_name_search, crt_name_add, zone_add, zone_delete,
  route_of, redirect_root, handler, serve,
}
use certinv.Ui.Yields.{Holds, answer-Yields, stop-Yields}

pub response-site : (x : Outcome Response × Site) → (response x).1 ≡ x.1
response-site (go x, s) = refl
response-site (reply x, s) = refl

module _ {P : Db → Runner → Type 0} where
  pub get-Holds : {body : Stage Response} (r : Request) → Holds P body → Holds P (get body r)
  unfolding get
  get-Holds r h = elim (Bool-cases (r.method == "GET")) [
    | inl y ↦ rw y h
    | inr n ↦ elim (Bool-cases (r.method == "HEAD")) [
      | inl y ↦ rw (n, y) h
      | inr m ↦ rw (n, m) stop-Yields
    ]
  ]

  not_post-Holds :
      (body : Stage Response) (r : Request) → (r.method == "POST") ≡ false → Holds P (post body r)
  unfolding post
  not_post-Holds body r n = rw n stop-Yields

  pub redirect_root-Holds : (r : Request) → Holds P (redirect_root r)
  unfolding redirect_root
  redirect_root-Holds r = answer-Yields tt

  module _ (out : Outside) (h : Handler) (r : Request) (n : (r.method == "POST") ≡ false) where
    not_post-handler : (route : Route) → Holds P (handler out h route r)
    unfolding handler
    not_post-handler root = redirect_root-Holds r
    not_post-handler inventory_page = get-Holds r (inventory-Holds out h r)
    not_post-handler export = get-Holds r (export_csv-Holds out h r)
    not_post-handler scan_state = get-Holds r (status-Holds out h r)
    not_post-handler events_ack = not_post-Holds _ r n
    not_post-handler scan_start = not_post-Holds _ r n
    not_post-handler apex_add = not_post-Holds _ r n
    not_post-handler apex_crt_name = not_post-Holds _ r n
    not_post-handler apex_delete = not_post-Holds _ r n
    not_post-handler host_add = not_post-Holds _ r n
    not_post-handler host_edit = not_post-Holds _ r n
    not_post-handler host_delete = not_post-Holds _ r n
    not_post-handler host_suppress = not_post-Holds _ r n
    not_post-handler host_suppress_all = not_post-Holds _ r n
    not_post-handler host_unsuppress = not_post-Holds _ r n
    not_post-handler host_purge = not_post-Holds _ r n
    not_post-handler host_purge_all = not_post-Holds _ r n
    not_post-handler crt_name_save = not_post-Holds _ r n
    not_post-handler crt_name_search = not_post-Holds _ r n
    not_post-handler crt_name_add = not_post-Holds _ r n
    not_post-handler zone_add = not_post-Holds _ r n
    not_post-handler zone_delete = not_post-Holds _ r n

-- A request to the web interface whose method is not POST changes neither the database nor the runner
-- of scans, whatever its path and form, and whatever fails.
pub serve-reads :
    (out : Outside) (h : Handler) (r : Request) (s : Site)
    → (r.method == "POST") ≡ false
    → ((serve out h r s).1.conn.db ≡ s.conn.db) × ((serve out h r s).1.scans ≡ s.scans)
unfolding serve
serve-reads out h r s n =
    let same = response-site (handler out h (route_of r.path) r s) in
    let kept =
      ((not_post-handler {P = λ db scans. (db ≡ s.conn.db) × (scans ≡ s.scans)} out h r n
          (route_of r.path)).at
        s (refl, refl)).0 in
    (ap (λ x. x.conn.db) same ∙ kept.0, ap (λ x. x.scans) same ∙ kept.1)
