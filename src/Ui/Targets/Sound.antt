-- ===== src/Ui/Targets/Sound.antt =====
-- The handlers of managed targets and sources keep the invariant.
use certinv.Prelude.{ℕ, ◌+◌, ℤ, String, Bool, List, [], ◌∷◌, Option, none, some, ◌≡◌}
use certinv.Clock.{Time}
use certinv.Discover.{Host}
use certinv.Result.{ok}
use certinv.Store.Exec.{Action}
use certinv.Store.Exec.Keeps.{Keeps}
use certinv.Store.Managed.{
  put_crt_name, put_apex_crt_name, add_managed_apex, delete_managed_apex, add_managed_manual_host,
  delete_managed_manual_host, save_managed_crt_name, save_managed_apex_crt_name,
  add_managed_zone_file, delete_managed_zone_file,
}
use certinv.Store.Managed.Keeping.{managed_targets-Keeps, exec-Keeps}
use certinv.Cmd.SerialScan.{Runner}
use certinv.Ui.{Outside, Handler, Request, Response}
use certinv.Ui.Stage.{Stage}
use certinv.Ui.Forms.Checks.{IsBelow, validate_apex-eq-ok, resolve_allowed_zone_file-eq-ok}
use certinv.Ui.Lookups.{has_managed_manual_host}
use certinv.Ui.Lookups.Checks.{validate_manual_host-Yields}
use certinv.Ui.Pages.Reading.{effective_apexes-Holds}
use certinv.Ui.Sound.{
  IsTarget, IsSound, put_managed_apex-IsSound, delete_apex-IsSound, put_managed_host-IsSound,
  delete_managed_host-IsSound, put_zone_file-IsSound, delete_zone_file-IsSound,
}
use certinv.Ui.Targets.{
  given, add_apex, delete_apex, save_apex_crt_name, add_manual_host, delete_manual_host,
  edit_manual_host, save_crt_name, add_selected, add_crt_name_selected, add_zone_file,
  delete_zone_file,
}
use certinv.Ui.Yields.{
  Holds, >>=-Yields, answer-Yields, stop-Yields, check-Yields, try-Holds, stop_if-Holds,
  parse_form-Holds, now-Holds,
}

module _ (out : Outside) (h : Handler) (scans : Runner) where
  -- the methods of the store
  abbrev Stays : {A : Type 0} → Action A → Type 0
  Stays m = Keeps (λ db. IsSound out h db scans) m

  add_apex-Stays :
      (apex : String) (now : Time)
      → out.etld_plus_one apex ≡ ok apex
      → Stays (add_managed_apex out.driver apex now)
  unfolding add_managed_apex
  add_apex-Stays apex now good =
      exec-Keeps _ out.driver _ _ (λ db s. put_managed_apex-IsSound out h db scans s apex _ good)

  delete_apex-Stays : (apex : String) → Stays (delete_managed_apex out.driver apex)
  unfolding delete_managed_apex
  delete_apex-Stays apex =
      exec-Keeps _ out.driver _ _ (λ db s. delete_apex-IsSound out h db scans s apex)

  add_host-Stays :
      (host : Host) (now : Time)
      → IsTarget out h host.hostname host.port host.apex
      → Stays (add_managed_manual_host out.driver host now)
  unfolding add_managed_manual_host
  add_host-Stays host now good =
      exec-Keeps _ out.driver _ _ (λ db s. put_managed_host-IsSound out h db scans s host _ good)

  delete_host-Stays :
      (hostname : String) (port : ℤ) → Stays (delete_managed_manual_host out.driver hostname port)
  unfolding delete_managed_manual_host
  delete_host-Stays hostname port =
      exec-Keeps _ out.driver _ _
        (λ db s. delete_managed_host-IsSound out h db scans s hostname port)

  save_crt_name-Stays :
      (enabled : Bool) (endpoint : String) (now : Time)
      → Stays (save_managed_crt_name out.driver enabled endpoint now)
  unfolding save_managed_crt_name put_crt_name
  save_crt_name-Stays enabled endpoint now = exec-Keeps _ out.driver _ _ (λ db s. s)

  save_apex_crt_name-Stays :
      (apex : String) (enabled : Bool) (now : Time)
      → Stays (save_managed_apex_crt_name out.driver apex enabled now)
  unfolding save_managed_apex_crt_name put_apex_crt_name
  save_apex_crt_name-Stays apex enabled now = exec-Keeps _ out.driver _ _ (λ db s. s)

  add_zone_file-Stays :
      (path : String) (now : Time)
      → IsBelow out.paths h.sources.zone_allowed_dir path
      → Stays (add_managed_zone_file out.driver path now)
  unfolding add_managed_zone_file
  add_zone_file-Stays path now good =
      exec-Keeps _ out.driver _ _ (λ db s. put_zone_file-IsSound out h db scans s path _ good)

  delete_zone_file-Stays : (path : String) → Stays (delete_managed_zone_file out.driver path)
  unfolding delete_managed_zone_file
  delete_zone_file-Stays path =
      exec-Keeps _ out.driver _ _ (λ db s. delete_zone_file-IsSound out h db scans s path)

module _ (out : Outside) (h : Handler) where
  abbrev Sound : {A : Type 0} → Stage A → Type 0
  Sound m = Holds (IsSound out h) m

  pub add_apex-Sound : (r : Request) → Sound (add_apex out h r)
  unfolding add_apex
  add_apex-Sound r = >>=-Yields (parse_form-Holds _ r) (λ form _.
      >>=-Yields (check-Yields _ _) (λ apex valid. >>=-Yields (now-Holds out) (λ at _.
        >>=-Yields
          (try-Holds _ _ (λ scans.
            add_apex-Stays out h scans apex at
              (validate_apex-eq-ok out.etld_plus_one _ apex valid)))
          (λ _ _. answer-Yields tt))))

  pub delete_apex-Sound : (r : Request) → Sound (delete_apex out h r)
  unfolding delete_apex
  delete_apex-Sound r = >>=-Yields (parse_form-Holds _ r) (λ form _.
      >>=-Yields (check-Yields _ _) (λ apex valid.
        >>=-Yields (try-Holds _ _ (λ scans. delete_apex-Stays out h scans apex))
          (λ _ _. answer-Yields tt)))

  given-Sound : {A : Type 0} (missing : Response) (a : Option A) → Sound (given missing a)
  given-Sound missing none = stop-Yields
  given-Sound missing (some a) = answer-Yields tt

  pub save_apex_crt_name-Sound : (r : Request) → Sound (save_apex_crt_name out h r)
  unfolding save_apex_crt_name
  save_apex_crt_name-Sound r = >>=-Yields (parse_form-Holds _ r) (λ form _.
      >>=-Yields (effective_apexes-Holds out h _) (λ apexes _.
        >>=-Yields (given-Sound _ _) (λ apex _. >>=-Yields (now-Holds out) (λ at _.
          >>=-Yields (try-Holds _ _ (λ scans. save_apex_crt_name-Stays out h scans apex _ at))
            (λ _ _. answer-Yields tt)))))

  pub add_manual_host-Sound : (r : Request) → Sound (add_manual_host out h r)
  unfolding add_manual_host
  add_manual_host-Sound r = >>=-Yields (parse_form-Holds _ r) (λ form _.
      >>=-Yields (validate_manual_host-Yields out h _ _ _) (λ host valid.
        >>=-Yields (now-Holds out) (λ at _.
          >>=-Yields (try-Holds _ _ (λ scans. add_host-Stays out h scans host at valid))
            (λ _ _. answer-Yields tt))))

  pub delete_manual_host-Sound : (r : Request) → Sound (delete_manual_host out h r)
  unfolding delete_manual_host
  delete_manual_host-Sound r = >>=-Yields (parse_form-Holds _ r) (λ form _.
      >>=-Yields (check-Yields _ _) (λ port _.
        >>=-Yields (try-Holds _ _ (λ scans. delete_host-Stays out h scans _ port))
          (λ _ _. answer-Yields tt)))

  has_managed-Sound :
      (hostname : String) (port : ℤ) → Sound (has_managed_manual_host out h hostname port)
  unfolding has_managed_manual_host
  has_managed-Sound hostname port = record {
    at = λ s p.
        ((managed_targets-Keeps (λ db. IsSound out h db s.scans) out.driver).at s.conn p, tt);
  }

  pub edit_manual_host-Sound : (r : Request) → Sound (edit_manual_host out h r)
  unfolding edit_manual_host
  edit_manual_host-Sound r = >>=-Yields (parse_form-Holds _ r) (λ form _.
      >>=-Yields (check-Yields _ _) (λ old_port _.
        >>=-Yields (has_managed-Sound _ old_port) (λ known _. >>=-Yields (stop_if-Holds _ _) (λ _ _.
          >>=-Yields (validate_manual_host-Yields out h _ _ _) (λ host valid.
            >>=-Yields (try-Holds _ _ (λ scans. delete_host-Stays out h scans _ old_port)) (λ _ _.
              >>=-Yields (now-Holds out) (λ at _.
                >>=-Yields (try-Holds _ _ (λ scans. add_host-Stays out h scans host at valid))
                  (λ _ _. answer-Yields tt))))))))

  pub save_crt_name-Sound : (r : Request) → Sound (save_crt_name out h r)
  unfolding save_crt_name
  save_crt_name-Sound r = >>=-Yields (parse_form-Holds _ r) (λ form _.
      >>=-Yields (stop_if-Holds _ _) (λ _ _. >>=-Yields (now-Holds out) (λ at _.
        >>=-Yields (try-Holds _ _ (λ scans. save_crt_name-Stays out h scans _ _ at))
          (λ _ _. answer-Yields tt))))

  add_selected-Sound :
      (hostnames : List String) (added : ℕ) → Sound (add_selected out h hostnames added)
  unfolding add_selected
  add_selected-Sound [] added = answer-Yields tt
  add_selected-Sound (hostname ∷ hostnames) added =
      >>=-Yields (validate_manual_host-Yields out h _ _ _) (λ host valid.
        >>=-Yields (now-Holds out) (λ at _.
          >>=-Yields (try-Holds _ _ (λ scans. add_host-Stays out h scans host at valid))
            (λ _ _. add_selected-Sound hostnames (added + 1))))

  pub add_crt_name_selected-Sound : (r : Request) → Sound (add_crt_name_selected out h r)
  unfolding add_crt_name_selected
  add_crt_name_selected-Sound r = >>=-Yields (parse_form-Holds _ r) (λ form _.
      >>=-Yields (stop_if-Holds _ _)
        (λ _ _. >>=-Yields (add_selected-Sound _ 0) (λ added _. answer-Yields tt)))

  pub add_zone_file-Sound : (r : Request) → Sound (add_zone_file out h r)
  unfolding add_zone_file
  add_zone_file-Sound r = >>=-Yields (parse_form-Holds _ r) (λ form _.
      >>=-Yields (check-Yields _ _) (λ path valid. >>=-Yields (now-Holds out) (λ at _.
        >>=-Yields
          (try-Holds _ _ (λ scans.
            add_zone_file-Stays out h scans path at
              (resolve_allowed_zone_file-eq-ok out.paths _ _ path valid)))
          (λ _ _. answer-Yields tt))))

  pub delete_zone_file-Sound : (r : Request) → Sound (delete_zone_file out h r)
  unfolding delete_zone_file
  delete_zone_file-Sound r = >>=-Yields (parse_form-Holds _ r) (λ form _.
      >>=-Yields (stop_if-Holds _ _) (λ _ _.
        >>=-Yields (try-Holds _ _ (λ scans. delete_zone_file-Stays out h scans _))
          (λ _ _. answer-Yields tt)))
