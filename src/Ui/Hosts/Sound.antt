-- ===== src/Ui/Hosts/Sound.antt =====
-- The handlers of shown hosts keep the invariant: they write to other tables.
use certinv.Prelude.{ℤ, String, List, [], ◌∷◌, ◌==◌, inl, inr, Bool-cases}
use certinv.Clock.{Time}
use certinv.Discover.{normalize_hostname}
use certinv.Store.Exec.{Action}
use certinv.Store.Exec.Keeps.{Keeps}
use certinv.Store.Hosts.{
  SuppressedHost, put_suppressed, delete_suppressed, delete_host_certificates, delete_states,
  delete_hosts, suppress_host, unsuppress_host, purge_host,
}
use certinv.Store.Managed.Keeping.{
  exec-Keeps, suppressed_hosts-Keeps, inventory_snapshot-Keeps, purge_host-Keeps,
}
use certinv.Store.Snapshots.{InventoryRow}
use certinv.Cmd.SerialScan.{Runner}
use certinv.Ui.{Outside, Handler, Request, Response}
use certinv.Ui.Stage.{Stage}
use certinv.Ui.Hosts.{
  suppress, suppress_rows, suppress_all, unsuppress, purge, purge_hosts, purge_all,
}
use certinv.Ui.Sound.{IsSound}
use certinv.Ui.Yields.{
  Holds, >>=-Yields, answer-Yields, check-Yields, try-Holds, parse_form-Holds, now-Holds,
}

module _ (out : Outside) (h : Handler) (scans : Runner) where
  abbrev Stays : {A : Type 0} → Action A → Type 0
  Stays m = Keeps (λ db. IsSound out h db scans) m

  suppress_host-Stays :
      (hostname : String) (port : ℤ) (now : Time)
      → Stays (suppress_host out.driver hostname port now)
  unfolding suppress_host put_suppressed
  suppress_host-Stays hostname port now = exec-Keeps _ out.driver _ _ (λ db s. s)

  unsuppress_host-Stays :
      (hostname : String) (port : ℤ) → Stays (unsuppress_host out.driver hostname port)
  unfolding unsuppress_host delete_suppressed
  unsuppress_host-Stays hostname port = exec-Keeps _ out.driver _ _ (λ db s. s)

  purge_host-Stays : (hostname : String) (port : ℤ) → Stays (purge_host out.driver hostname port)
  unfolding delete_suppressed delete_host_certificates delete_states delete_hosts
  purge_host-Stays hostname port =
      purge_host-Keeps (λ db. IsSound out h db scans) out.driver (λ id db s. s) (λ id db s. s)
        (λ id db s. s) (λ name at db s. s) hostname port

module _ (out : Outside) (h : Handler) where
  abbrev Sound : {A : Type 0} → Stage A → Type 0
  Sound m = Holds (IsSound out h) m

  pub suppress-Sound : (r : Request) → Sound (suppress out r)
  unfolding suppress
  suppress-Sound r = >>=-Yields (parse_form-Holds _ r) (λ form _.
      >>=-Yields (check-Yields _ _) (λ port _. >>=-Yields (now-Holds out) (λ at _.
        >>=-Yields (try-Holds _ _ (λ scans. suppress_host-Stays out h scans _ port at))
          (λ _ _. answer-Yields tt))))

  suppress_rows-Sound :
      (failed : Response) (rows : List InventoryRow) → Sound (suppress_rows out failed rows)
  unfolding suppress_rows
  suppress_rows-Sound failed [] = answer-Yields tt
  suppress_rows-Sound failed (row ∷ rows) =
      elim (Bool-cases (normalize_hostname row.hostname == "")) [
        | inl y ↦ rw y (suppress_rows-Sound failed rows)
        | inr n ↦ rw n (
            >>=-Yields (now-Holds out) (λ at _.
              >>=-Yields (try-Holds _ _ (λ scans. suppress_host-Stays out h scans _ _ at))
                (λ _ _. suppress_rows-Sound failed rows)))
      ]

  pub suppress_all-Sound : (r : Request) → Sound (suppress_all out r)
  unfolding suppress_all
  suppress_all-Sound r =
      >>=-Yields (try-Holds _ _ (λ scans. inventory_snapshot-Keeps _ out.driver))
        (λ rows _. >>=-Yields (suppress_rows-Sound _ rows) (λ _ _. answer-Yields tt))

  pub unsuppress-Sound : (r : Request) → Sound (unsuppress out r)
  unfolding unsuppress
  unsuppress-Sound r = >>=-Yields (parse_form-Holds _ r) (λ form _.
      >>=-Yields (check-Yields _ _) (λ port _.
        >>=-Yields (try-Holds _ _ (λ scans. unsuppress_host-Stays out h scans _ port))
          (λ _ _. answer-Yields tt)))

  pub purge-Sound : (r : Request) → Sound (purge out r)
  unfolding purge
  purge-Sound r = >>=-Yields (parse_form-Holds _ r) (λ form _.
      >>=-Yields (check-Yields _ _) (λ port _.
        >>=-Yields (try-Holds _ _ (λ scans. purge_host-Stays out h scans _ port))
          (λ _ _. answer-Yields tt)))

  purge_hosts-Sound :
      (failed : Response) (hosts : List SuppressedHost) → Sound (purge_hosts out failed hosts)
  unfolding purge_hosts
  purge_hosts-Sound failed [] = answer-Yields tt
  purge_hosts-Sound failed (x ∷ hosts) = elim (Bool-cases (normalize_hostname x.hostname == "")) [
    | inl y ↦ rw y (purge_hosts-Sound failed hosts)
    | inr n ↦ rw n (
        >>=-Yields (try-Holds _ _ (λ scans. purge_host-Stays out h scans _ _))
          (λ _ _. purge_hosts-Sound failed hosts))
  ]

  pub purge_all-Sound : (r : Request) → Sound (purge_all out r)
  unfolding purge_all
  purge_all-Sound r =
      >>=-Yields (try-Holds _ _ (λ scans. suppressed_hosts-Keeps _ out.driver))
        (λ hosts _. >>=-Yields (purge_hosts-Sound _ hosts) (λ _ _. answer-Yields tt))
