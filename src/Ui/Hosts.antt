-- ===== src/Ui/Hosts.antt =====
-- The handlers of shown hosts: to suppress one or all, to show one again, to purge one or all.
pub mod Sound
use certinv.Prelude.{
  ℕ, suc, ℤ, String, Bool, true, false, List, [], ◌∷◌, length, ◌==◌, if◌then◌else◌,
}
use certinv.Discover.{normalize_hostname, normalized_port}
use certinv.Store.Hosts.{
  SuppressedHost, suppressed_hosts, suppress_host, unsuppress_host, purge_host,
}
use certinv.Store.Snapshots.{InventoryRow, inventory_snapshot}
use certinv.Ui.{Outside, Handler, Request, Response, text, counted}
use certinv.Ui.Stage.{
  Stage, ◌>>=◌, ◌>>◌, answer, check, try, active_tab, notice_at, error_at, parse_form, form_value,
  now,
}
use certinv.Ui.Forms.{parse_port}
use certinv.Ui.Targets.{failed_with, host_of_form}

module _ (out : Outside) where
  unfoldable pub suppress : Request → Stage Response
  suppress r = do
    form ← parse_form (error_at (active_tab r) (text "invalid form")) r
    let hostname = normalize_hostname (form_value "hostname" form)
    port ←
        check (failed_with (active_tab r) "invalid host")
          (host_of_form hostname (parse_port (form_value "port" form)))
    at ← now out
    try (failed_with (active_tab r) "failed to suppress host")
        (suppress_host out.driver hostname port at)
    answer (notice_at (active_tab r) (text "host suppressed"))

  -- the loop over the rows that are shown
  unfoldable pub suppress_rows : Response → List InventoryRow → Stage (Unit {0})
  suppress_rows failed [] = answer tt
  suppress_rows failed (row ∷ rows) =
      let rest = suppress_rows failed rows in
      if normalize_hostname row.hostname == "" then rest else (do
        at ← now out
        try (λ e. failed)
            (suppress_host out.driver (normalize_hostname row.hostname) (normalized_port row.port)
              at)
        rest)

  unfoldable pub suppress_all : Request → Stage Response
  suppress_all r = do
    rows ←
        try (failed_with (active_tab r) "failed to load inventory") (inventory_snapshot out.driver)
    suppress_rows (error_at (active_tab r) (text "failed to suppress hosts")) rows
    answer (notice_at (active_tab r) (counted "suppressed %d hosts" (length rows)))

  unfoldable pub unsuppress : Request → Stage Response
  unsuppress r = do
    form ← parse_form (error_at (active_tab r) (text "invalid form")) r
    let hostname = normalize_hostname (form_value "hostname" form)
    port ←
        check (failed_with (active_tab r) "invalid host")
          (host_of_form hostname (parse_port (form_value "port" form)))
    try (failed_with (active_tab r) "failed to unsuppress host")
        (unsuppress_host out.driver hostname port)
    answer (notice_at (active_tab r) (text "host unsuppressed"))

  unfoldable pub purge : Request → Stage Response
  purge r = do
    form ← parse_form (error_at (active_tab r) (text "invalid form")) r
    let hostname = normalize_hostname (form_value "hostname" form)
    port ←
        check (failed_with (active_tab r) "invalid host")
          (host_of_form hostname (parse_port (form_value "port" form)))
    try (failed_with (active_tab r) "failed to purge host") (purge_host out.driver hostname port)
    answer (notice_at (active_tab r) (text "host purged"))

  -- the loop over the hosts that are suppressed
  unfoldable pub purge_hosts : Response → List SuppressedHost → Stage (Unit {0})
  purge_hosts failed [] = answer tt
  purge_hosts failed (x ∷ hosts) =
      let rest = purge_hosts failed hosts in
      if normalize_hostname x.hostname == "" then rest else (do
        try (λ e. failed)
            (purge_host out.driver (normalize_hostname x.hostname) (normalized_port x.port))
        rest)

  unfoldable pub purge_all : Request → Stage Response
  purge_all r = do
    hosts ←
        try (failed_with (active_tab r) "failed to load suppressed hosts")
          (suppressed_hosts out.driver)
    purge_hosts (error_at (active_tab r) (text "failed to purge hosts")) hosts
    answer (notice_at (active_tab r) (counted "purged %d hosts" (length hosts)))
