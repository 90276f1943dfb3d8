-- ===== src/Ui/Targets.antt =====
-- The handlers of managed apexes, managed hosts and sources.
pub mod Sound
use certinv.Prelude.{
  ℕ, ◌+◌, ℤ, String, Bool, true, false, not, ◌&&◌, List, [], ◌∷◌, ◌==◌, Option, none, some,
  if◌then◌else◌,
}
use certinv.Text.{trim_space}
use certinv.Discover.{normalize_hostname}
use certinv.Result.{Error, message, Result, ok, err}
use certinv.Store.Managed.{
  add_managed_apex, delete_managed_apex, add_managed_manual_host, delete_managed_manual_host,
  save_managed_crt_name, save_managed_apex_crt_name, add_managed_zone_file,
  delete_managed_zone_file,
}
use certinv.Ui.{Outside, Handler, Request, Response, Message, text, counted, error_text}
use certinv.Ui.Stage.{
  Stage, ◌>>=◌, ◌>>◌, answer, stop, check, try, stop_if, response, active_tab, notice_at, error_at,
  post, parse_form, form_value, form_values, now,
}
use certinv.Ui.Forms.{parse_port, validate_apex, selected_lookup_apex, resolve_allowed_zone_file}
use certinv.Ui.Lookups.{effective_apexes, validate_manual_host, has_managed_manual_host}

-- the response to a failure, with a text of its own or with the error's
abbrev pub failed_with : String → String → Error → Response
failed_with tab what e = error_at tab (text what)

abbrev pub failed_as : String → Error → Response
failed_as tab e = error_at tab (error_text e)

-- an answer that may be missing, with the response to that
abbrev pub given : {A : Type 0} → Response → Option A → Stage A
given missing none = stop missing
given missing (some a) = answer a

-- the port of a form, where its error is answered by a fixed text
abbrev pub host_of_form : String → Result ℤ → Result ℤ
host_of_form hostname r = if hostname == "" then err (message "invalid host") else r

module _ (out : Outside) (h : Handler) where
  unfoldable pub add_apex : Request → Stage Response
  add_apex r = do
    form ← parse_form (error_at (active_tab r) (text "invalid form")) r
    apex ←
        check (failed_as (active_tab r)) (validate_apex out.etld_plus_one (form_value "apex" form))
    at ← now out
    try (failed_with (active_tab r) "failed to add apex") (add_managed_apex out.driver apex at)
    answer (notice_at (active_tab r) (text "apex added"))

  unfoldable pub delete_apex : Request → Stage Response
  delete_apex r = do
    form ← parse_form (error_at (active_tab r) (text "invalid form")) r
    apex ←
        check (failed_as (active_tab r)) (validate_apex out.etld_plus_one (form_value "apex" form))
    try (failed_with (active_tab r) "failed to delete apex") (delete_managed_apex out.driver apex)
    answer (notice_at (active_tab r) (text "apex deleted"))

  unfoldable pub save_apex_crt_name : Request → Stage Response
  save_apex_crt_name r = do
    form ← parse_form (error_at "sources" (text "invalid form")) r
    apexes ← effective_apexes out h (failed_with "sources" "failed to load apexes")
    apex ←
        given (error_at "sources" (text "apex is not configured"))
          (selected_lookup_apex (form_value "apex" form) apexes)
    at ← now out
    try (failed_with "sources" "failed to save apex crtname setting")
        (save_managed_apex_crt_name out.driver apex (form_value "crtname_enabled" form == "on") at)
    answer (notice_at "sources" (text "apex crtname setting saved"))

  unfoldable pub add_manual_host : Request → Stage Response
  add_manual_host r = do
    form ← parse_form (error_at (active_tab r) (text "invalid form")) r
    host ←
        validate_manual_host out h (failed_as (active_tab r)) (form_value "hostname" form)
          (form_value "port" form)
    at ← now out
    try (failed_with (active_tab r) "failed to add manual host")
        (add_managed_manual_host out.driver host at)
    answer (notice_at (active_tab r) (text "manual host added"))

  unfoldable pub delete_manual_host : Request → Stage Response
  delete_manual_host r = do
    form ← parse_form (error_at (active_tab r) (text "invalid form")) r
    port ← check (failed_as (active_tab r)) (parse_port (form_value "port" form))
    try (failed_with (active_tab r) "failed to delete manual host") (
        delete_managed_manual_host out.driver (normalize_hostname (form_value "hostname" form))
          port)
    answer (notice_at (active_tab r) (text "manual host deleted"))

  unfoldable pub edit_manual_host : Request → Stage Response
  edit_manual_host r = do
    form ← parse_form (error_at "sources" (text "invalid form")) r
    let hostname = normalize_hostname (form_value "hostname" form)
    old_port ←
        check (failed_with "sources" "invalid host")
          (host_of_form hostname (parse_port (form_value "old_port" form)))
    known ← has_managed_manual_host out h hostname old_port
    stop_if (not known) (error_at "sources" (text "manual host is not editable"))
    host ← validate_manual_host out h (failed_as "sources") hostname (form_value "port" form)
    try (failed_with "sources" "failed to update manual host")
        (delete_managed_manual_host out.driver hostname old_port)
    at ← now out
    try (failed_with "sources" "failed to update manual host")
        (add_managed_manual_host out.driver host at)
    answer (notice_at "sources" (text "manual host updated"))

  unfoldable pub save_crt_name : Request → Stage Response
  save_crt_name r = do
    form ← parse_form (error_at "sources" (text "invalid form")) r
    let enabled = form_value "enabled" form == "on"
    let endpoint = trim_space (form_value "endpoint" form)
    stop_if (enabled && endpoint == "") (error_at "sources" (text "crtname endpoint is required"))
    at ← now out
    try (failed_with "sources" "failed to save crtname settings")
        (save_managed_crt_name out.driver enabled endpoint at)
    answer (notice_at "sources" (text "crtname settings saved"))

  -- the loop over the selected names, with the number of those added
  unfoldable pub add_selected : List String → ℕ → Stage ℕ
  add_selected [] added = answer added
  add_selected (hostname ∷ hostnames) added = do
    host ←
        validate_manual_host out h
          (failed_with "sources" "selected host is outside configured or managed apexes") hostname
          "443"
    at ← now out
    try (failed_with "sources" "failed to add selected hosts")
        (add_managed_manual_host out.driver host at)
    add_selected hostnames (added + 1)

  abbrev is_empty : List String → Bool
  is_empty [] = true
  is_empty (_ ∷ _) = false

  unfoldable pub add_crt_name_selected : Request → Stage Response
  add_crt_name_selected r = do
    form ← parse_form (error_at "sources" (text "invalid form")) r
    let hostnames = form_values "hostname" form
    stop_if (is_empty hostnames) (error_at "sources" (text "no crtname hosts selected"))
    added ← add_selected hostnames 0
    answer (notice_at "sources" (counted "added %d crtname hosts" added))

  unfoldable pub add_zone_file : Request → Stage Response
  add_zone_file r = do
    form ← parse_form (error_at "sources" (text "invalid form")) r
    path ←
        check (failed_as "sources")
          (resolve_allowed_zone_file out.paths h.sources.zone_allowed_dir (form_value "file" form))
    at ← now out
    try (failed_with "sources" "failed to add zone file") (add_managed_zone_file out.driver path at)
    answer (notice_at "sources" (text "zone file added"))

  unfoldable pub delete_zone_file : Request → Stage Response
  delete_zone_file r = do
    form ← parse_form (error_at "sources" (text "invalid form")) r
    let path = trim_space (form_value "path" form)
    stop_if (path == "") (error_at "sources" (text "zone file path is required"))
    try (failed_with "sources" "failed to delete zone file")
        (delete_managed_zone_file out.driver path)
    answer (notice_at "sources" (text "zone file deleted"))
