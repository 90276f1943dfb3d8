-- ===== src/Store/Managed/Owned.antt =====
-- What users manage, and the methods that leave it.
use certinv.Prelude.{ℕ, ℤ, String, Bool, Option, none, some, ◌≡◌}
use certinv.Clock.{Time}
use certinv.Cert.{Metadata}
use certinv.Discover.{Host}
use certinv.Evaluate.{Event}
use certinv.Store.Schema.{Db}
use certinv.Store.Exec.{Driver, Action}
use certinv.Store.Exec.Keeps.{
  Keeps, >>=-Keeps, pure-Keeps, raise-Keeps, query-Keeps, statement-Keeps,
}
use certinv.Store.Hosts.{
  put_apex, upsert_apex, put_host, set_resolved, set_probed, scan_id, upsert_host,
  mark_host_resolved, mark_host_probed,
}
use certinv.Store.Certificates.{
  put_certificate, put_link, put_http_status, put_automation, put_state, latest_host_certificate,
  upsert_certificate, link_host_certificate, set_http_status, set_automation_estimate,
  get_certificate_state, set_certificate_state,
}
use certinv.Store.Events.{
  insert_event, put_notified, record_event, pending_events, mark_event_notified,
}
use certinv.Store.Managed.Keeping.{exec-Keeps}

-- the tables of apexes, hosts, suppressed hosts, sources and settings that users manage are the same
abbrev pub SameOwned : Db → Db → Type 0
SameOwned before db =
    (db.managed_apexes ≡ before.managed_apexes)
    × (db.managed_manual_hosts ≡ before.managed_manual_hosts)
    × (db.suppressed_hosts ≡ before.suppressed_hosts)
    × (db.managed_crtname ≡ before.managed_crtname)
    × (db.managed_apex_crtname ≡ before.managed_apex_crtname)
    × (db.managed_zone_files ≡ before.managed_zone_files)

module _ (before : Db) (driver : Driver) where
  abbrev Stays : {A : Type 0} → Action A → Type 0
  Stays m = Keeps (SameOwned before) m

  pub upsert_apex-Stays : (apex : String) (now : Time) → Stays (upsert_apex driver apex now)
  unfolding upsert_apex put_apex
  upsert_apex-Stays apex now = exec-Keeps _ driver _ _ (λ db p. p)

  scan_id-Stays : (found : Option ℕ) → Stays (scan_id driver found)
  scan_id-Stays none = raise-Keeps _ _
  scan_id-Stays (some id) = pure-Keeps _ _

  pub upsert_host-Stays :
      (host : Host) (status : String) (now : Time) → Stays (upsert_host driver host status now)
  unfolding upsert_host put_host
  upsert_host-Stays host status now =
      >>=-Keeps _ _ _ (exec-Keeps _ driver _ _ (λ db p. p))
        (λ _. >>=-Keeps _ _ _ (query-Keeps _ driver _ _) (λ found. scan_id-Stays found))

  pub mark_host_resolved-Stays :
      (hostname : String) (port : ℤ) (now : Time)
      → Stays (mark_host_resolved driver hostname port now)
  unfolding mark_host_resolved set_resolved
  mark_host_resolved-Stays hostname port now = exec-Keeps _ driver _ _ (λ db p. p)

  pub mark_host_probed-Stays :
      (hostname : String) (port : ℤ) (now : Time)
      → Stays (mark_host_probed driver hostname port now)
  unfolding mark_host_probed set_probed
  mark_host_probed-Stays hostname port now = exec-Keeps _ driver _ _ (λ db p. p)

  pub latest_host_certificate-Stays : (id : ℕ) → Stays (latest_host_certificate driver id)
  unfolding latest_host_certificate
  latest_host_certificate-Stays id = query-Keeps _ driver _ _

  pub upsert_certificate-Stays :
      (cert : Metadata) (now : Time) → Stays (upsert_certificate driver cert now)
  unfolding upsert_certificate put_certificate
  upsert_certificate-Stays cert now = exec-Keeps _ driver _ _ (λ db p. p)

  pub link_host_certificate-Stays :
      (id : ℕ) (fp : String) (chain matches : Bool) (now : Time)
      → Stays (link_host_certificate driver id fp chain matches now)
  unfolding link_host_certificate put_link
  link_host_certificate-Stays id fp chain matches now = exec-Keeps _ driver _ _ (λ db p. p)

  pub set_http_status-Stays :
      (id : ℕ) (fp : String) (status : ℕ) → Stays (set_http_status driver id fp status)
  unfolding set_http_status put_http_status
  set_http_status-Stays id fp status = exec-Keeps _ driver _ _ (λ db p. p)

  pub set_automation_estimate-Stays :
      (id : ℕ) (fp class reason : String)
      → Stays (set_automation_estimate driver id fp class reason)
  unfolding set_automation_estimate put_automation
  set_automation_estimate-Stays id fp class reason = exec-Keeps _ driver _ _ (λ db p. p)

  pub get_certificate_state-Stays :
      (id : ℕ) (fp : String) → Stays (get_certificate_state driver id fp)
  unfolding get_certificate_state
  get_certificate_state-Stays id fp = query-Keeps _ driver _ _

  pub set_certificate_state-Stays :
      (id : ℕ) (fp state : String) (now : Time)
      → Stays (set_certificate_state driver id fp state now)
  unfolding set_certificate_state put_state
  set_certificate_state-Stays id fp state now = exec-Keeps _ driver _ _ (λ db p. p)

  pub record_event-Stays : (event : Event) (now : Time) → Stays (record_event driver event now)
  unfolding record_event insert_event
  record_event-Stays event now = statement-Keeps _ driver _ _ (λ db p. p)

  pub pending_events-Stays : Stays (pending_events driver)
  unfolding pending_events
  pending_events-Stays = query-Keeps _ driver _ _

  pub mark_event_notified-Stays : (id : ℕ) (now : Time) → Stays (mark_event_notified driver id now)
  unfolding mark_event_notified put_notified
  mark_event_notified-Stays id now = exec-Keeps _ driver _ _ (λ db p. p)
