-- ===== src/Ui/Lookups/Checks.antt =====
-- A host of a form that passes its checks is a target: it has a name, a port, and an apex.
use certinv.Prelude.{
  ℤ, String, Option, none, some, List, ◌++◌, map, ◌==◌, ◌≡◌, ◌≢◌, refl, sym, ap, ◌∙◌, subst, inl,
  inr, All, Bool-cases, eq_iff,
}
use certinv.Discover.{Host, normalize_hostname, apex_for}
use certinv.Result.{Error, Result, ok, err, ok-injective, err-ne-ok}
use certinv.Store.Managed.{ManagedTargets, managed_targets, targets_apexes}
use certinv.Store.Managed.Reading.{managed_targets-eq-ok}
use certinv.Store.Managed.Keeping.{managed_targets-Keeps}
use certinv.Ui.{Outside, Handler, Response, Site}
use certinv.Ui.Stage.{outcome, try}
use certinv.Ui.Forms.{managed_names, in_apexes, hostname_given}
use certinv.Ui.Forms.Checks.{InPortRange, parse_port-InPortRange, apex_for-eq-some}
use certinv.Ui.Lookups.{validate_manual_host}
use certinv.Ui.Sound.{IsApex, HasApex, IsTarget, IsSound, apexes-IsApex}
use certinv.Ui.Yields.{Yields, AllGo, map-Yields, >>=-Yields, check-Yields}

hostname_given-eq-ok : (name : String) (u : Unit {0}) → hostname_given name ≡ ok u → name ≢ ""
hostname_given-eq-ok name u h = elim (Bool-cases (name == "")) [
  | inl y ↦ absurd (err-ne-ok (rw y at h))
  | inr n ↦ λ same. cc (n, (eq_iff name "").1 same)
]

module _ (out : Outside) (h : Handler) where
  -- the managed targets that were read, within whose apexes a host is looked up
  abbrev HasApexes : ManagedTargets → Type 0
  HasApexes t = All (IsApex out h) (h.config.apexes ++ managed_names t)

  outcome-HasApexes :
      (s : Site) (failed : Error → Response) (r : Result ManagedTargets)
      → IsSound out h s.conn.db s.scans
      → (managed_targets out.driver s.conn).0 ≡ r
      → AllGo HasApexes (outcome failed r)
  outcome-HasApexes s failed (err e) sound read = tt
  outcome-HasApexes s failed (ok t) sound read =
      let same : t.apexes ≡ targets_apexes s.conn.db =
        (managed_targets-eq-ok out.driver s.conn t read).0 in
      subst (λ rows. All (IsApex out h) (h.config.apexes ++ map (λ r. r.apex) rows)) (sym same)
        (apexes-IsApex out h s.conn.db s.scans sound)

  managed_targets-Yields :
      (failed : Error → Response)
      → Yields (IsSound out h) HasApexes (try failed (managed_targets out.driver))
  unfolding try
  managed_targets-Yields failed = record {
    at = λ s sound. (
      (managed_targets-Keeps (λ db. IsSound out h db s.scans) out.driver).at s.conn sound,
      outcome-HasApexes s failed (managed_targets out.driver s.conn).0 sound refl,
    );
  }

  in_apexes-IsTarget :
      (hostname : String) (port : ℤ) (apexes : List String) (found : Option String) (host : Host)
      → All (IsApex out h) apexes
      → apex_for hostname apexes ≡ found
      → in_apexes hostname port found ≡ ok host
      → (host.hostname ≡ hostname) × (host.port ≡ port) × HasApex out h hostname host.apex
  in_apexes-IsTarget hostname port apexes none host good e i = absurd (err-ne-ok i)
  in_apexes-IsTarget hostname port apexes (some apex) host good e i =
      let same = ok-injective i in
      let (a, known, within, named) = apex_for-eq-some (IsApex out h) hostname apex apexes good e in
      (
        ap (λ (x : Host). x.hostname) (sym same),
        ap (λ (x : Host). x.port) (sym same),
        (a, known, within, ap (λ (x : Host). x.apex) (sym same) ∙ named),
      )

  pub validate_manual_host-Yields :
      (failed : Error → Response) (hostname_value port_value : String)
      → Yields
          (IsSound out h)
          (λ host. IsTarget out h host.hostname host.port host.apex)
          (validate_manual_host out h failed hostname_value port_value)
  unfolding validate_manual_host
  validate_manual_host-Yields failed hostname_value port_value =
      let hostname = normalize_hostname hostname_value in
      >>=-Yields (check-Yields _ _) (λ u named. >>=-Yields (check-Yields _ _) (λ port parsed.
        >>=-Yields (managed_targets-Yields failed) (λ managed known.
          map-Yields (check-Yields _ _) (λ host found.
            let (name, at_port, apex) =
              in_apexes-IsTarget hostname port (h.config.apexes ++ managed_names managed)
                (apex_for hostname (h.config.apexes ++ managed_names managed)) host known refl
                found in
            (
              subst (λ n. n ≢ "") (sym name) (hostname_given-eq-ok hostname u named),
              subst InPortRange (sym at_port) (parse_port-InPortRange port_value port parsed),
              subst (λ n. HasApex out h n host.apex) (sym name) apex,
            )))))
