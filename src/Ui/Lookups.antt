-- ===== src/Ui/Lookups.antt =====
-- What handlers look up in the store and in the configuration before they act.
pub mod Checks
use certinv.Prelude.{ℤ, String, Bool, List, ◌++◌, map}
use certinv.Discover.{Host, normalize_hostname, apex_for}
use certinv.Result.{Error}
use certinv.Store.Managed.{managed_targets}
use certinv.Core.Discovery.{unique_strings}
use certinv.Ui.{Outside, Handler, Response}
use certinv.Ui.Stage.{Stage, go, ◌>>=◌, ◌>>◌, answer, check, try}
use certinv.Ui.Forms.{parse_port, managed_names, in_apexes, hostname_given, found_managed, names_of}

module _ (out : Outside) (h : Handler) where
  -- `effectiveApexes`
  unfoldable pub effective_apexes : (Error → Response) → Stage (List String)
  effective_apexes failed = do
    managed ← try failed (managed_targets out.driver)
    answer (unique_strings (h.config.apexes ++ managed_names managed))

  -- `validateManualHost`, with the response to its error
  unfoldable pub validate_manual_host : (Error → Response) → String → String → Stage Host
  validate_manual_host failed hostname_value port_value = do
    check failed (hostname_given (normalize_hostname hostname_value))
    port ← check failed (parse_port port_value)
    managed ← try failed (managed_targets out.driver)
    check failed (
        in_apexes (normalize_hostname hostname_value) port
          (apex_for (normalize_hostname hostname_value) (h.config.apexes ++ managed_names managed)))

  -- `hasManagedManualHost`
  unfoldable pub has_managed_manual_host : String → ℤ → Stage Bool
  has_managed_manual_host hostname port s =
      let (r, c) = managed_targets out.driver s.conn in
      (go (found_managed hostname port r), record s { conn = c })

  -- `registeredManualHostnames`
  unfoldable pub registered_manual_hostnames : (Error → Response) → Stage (List String)
  registered_manual_hostnames failed = do
    managed ← try failed (managed_targets out.driver)
    answer (
        names_of (map (λ m. m.hostname) h.config.manual_hosts)
        ++ names_of (map (λ m. m.hostname) managed.manual_hosts))
