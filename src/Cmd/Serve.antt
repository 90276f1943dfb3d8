-- ===== src/Cmd/Serve.antt =====
-- The HTTP server of `runServe`: the web interface and the metrics on one mux, behind basic
-- authentication.
use certinv.Prelude.{
  true, false, none, some, ◌==◌, ◌&&◌, ◌≡◌, ◌⊎◌, eq_iff, arith, ◌∙◌, refl, ap, inl, inr, Bool-cases,
  if◌then◌else◌,
}
use certinv.Config.{ExporterAuth}
use certinv.Result.{Result}
use certinv.Store.Managed.Keeping.{metrics_snapshot-Keeps}
use certinv.Store.Snapshots.{MetricsSnapshot, metrics_snapshot}
use certinv.Cmd.Check.{Credentials, authorized}
use certinv.Cmd.SerialScan.{IsExclusive, Reach-IsExclusive}
use certinv.Ui.{Outside, Handler, Request, Response, Site}
use certinv.Ui.Routes.{serve}
use certinv.Ui.Routes.Sound.{serve-IsSound}
use certinv.Ui.Sound.{IsSound}

-- what the server writes; the metrics are those of a snapshot that was read, if it was
pub data Answer : Type 0 where
  unauthorized : Answer
  metrics : Result MetricsSnapshot → Answer
  shown : Response → Answer

module _ (out : Outside) (h : Handler) where
  -- the part of `Collect` that reads the store
  unfoldable pub scrape : Site → Answer × Site
  scrape s = let (r, c) = metrics_snapshot out.driver s.conn in (metrics r, record s { conn = c })

  -- the mux
  unfoldable pub route : Request → Site → Answer × Site
  route r s =
      if r.path == "/metrics" then scrape s else (let (x, s') = serve out h r s in (shown x, s'))

  -- `withOptionalBasicAuth` in front of the mux
  unfoldable pub serve_http : ExporterAuth → Request → Site → Answer × Site
  serve_http auth r s = if authorized auth r.credentials then route r s else (unauthorized, s)

  scrape-IsSound :
      (s : Site)
      → IsSound out h s.conn.db s.scans
      → IsSound out h (scrape s).1.conn.db (scrape s).1.scans
  unfolding scrape
  scrape-IsSound s sound =
      (metrics_snapshot-Keeps (λ db. IsSound out h db s.scans) out.driver).at s.conn sound

  route-IsSound :
      (r : Request) (s : Site)
      → IsSound out h s.conn.db s.scans
      → IsSound out h (route r s).1.conn.db (route r s).1.scans
  unfolding route
  route-IsSound r s sound = elim (Bool-cases (r.path == "/metrics")) [
    | inl y ↦ rw y (scrape-IsSound s sound)
    | inr n ↦ rw n (serve-IsSound out h r s sound).0
  ]

-- the request carries the credentials that are set
has_credentials :
    (auth : ExporterAuth) (credentials : Credentials)
    → (auth.username == "") ≡ false
    → authorized auth credentials ≡ true
    → credentials ≡ some (auth.username, auth.password)
unfolding authorized
has_credentials auth none set passed = absurd (cc (rw set at passed))
has_credentials auth (some (u, p)) set passed =
    let both : u == auth.username && p == auth.password ≡ true = rw set at passed in
    let user : u ≡ auth.username = (eq_iff u auth.username).0 (ground arith) in
    let password : p ≡ auth.password = (eq_iff p auth.password).0 (ground arith) in
    ap (λ x. some (x, p)) user ∙ ap (λ x. some (auth.username, x)) password

-- Where a user is set, every request to the server, on any path, the metrics among them, either carries
-- exactly the credentials that are set, and then it keeps what the web interface promises of the
-- database and of the runner, at most one scan running; or it is refused, and then nothing is read or
-- changed: not the database, not the calls of the driver, not the clock, not the runner.
pub serve_http_guarded :
    (out : Outside) (h : Handler) (auth : ExporterAuth) (r : Request) (s : Site)
    → (auth.username == "") ≡ false
    → IsSound out h s.conn.db s.scans
    → ((r.credentials ≡ some (auth.username, auth.password))
        × IsSound out h (serve_http out h auth r s).1.conn.db (serve_http out h auth r s).1.scans
        × IsExclusive (serve_http out h auth r s).1.scans)
      ⊎ (serve_http out h auth r s ≡ (unauthorized, s))
unfolding serve_http
serve_http_guarded out h auth r s set sound = elim (Bool-cases (authorized auth r.credentials)) [
  | inl y ↦
      let kept = route-IsSound out h r s sound in
      inl (has_credentials auth r.credentials set y, rw y kept, rw y (Reach-IsExclusive kept.3))
  | inr n ↦ inr (rw n refl)
]
