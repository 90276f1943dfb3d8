-- ===== src/Core/Run/Scope.antt =====
-- A scan probes hosts within its apexes only.
use certinv.Prelude.{
  ℕ, ◌+◌, ◌++◌, ap, ◌∙◌, map, Bool-cases, List, String, refl, Option, none, some, All, ◌≡◌, sym,
  subst, inl, inr, length,
}
use certinv.Clock.{Time}
use certinv.Config.{Float64}
use certinv.Discover.{Host}
use certinv.Discover.Names.{AreSettled}
use certinv.Discover.Scope.{InScopeName}
use certinv.Result.{Result, ok, err}
use certinv.Core.{Outside, World, Target, Runner, Summary, no_summary}
use certinv.Core.Discovery.{discover}
use certinv.Core.Discovery.Sources.{apexes_of, IsScoped}
use certinv.Core.Discovery.Scope.{discover-InScope}
use certinv.Core.Discovery.Probing.{discover-IsQuiet}
use certinv.Store.Schema.{ManagedApexRow}
use certinv.Store.Table.{order_by, text_le}
use certinv.Store.Managed.{ManagedApex, targets_apexes}
use certinv.Core.Discovery.{unique_strings}
use certinv.Core.Notifying.{retry_pending_events}
use certinv.Core.Run.Frame.{SameFrame, register-IsCalm, retry_pending_events-IsCalm}
use certinv.Core.Run.{
  after_apexes, after_retries, register, record_scan, run, handed_out, process_hosts, count_results,
  scanned, scan_hosts,
}
use certinv.Core.Run.Probing.{process_hosts-probes}

-- the target lies within one of the apexes
abbrev pub InScopeTarget : List String → Target → Type 0
InScopeTarget apexes target = InScopeName apexes target.hostname

module _ (float : Float64) (out : Outside) (r : Runner float.F) where
  scanned-world :
      (limit : Option ℕ) (s : Summary) (w : World) → (scanned float out r limit s w).1 ≡ w
  scanned-world none s w = refl
  scanned-world (some n) s w = refl

  pub scan_hosts-keeps :
      (P : Target → Type 0) (limit : Option ℕ) (s : Summary) (x : Result (List Host)) (w : World)
      → ((hosts : List Host)
          → x ≡ ok hosts
          → All (λ h. P (record { hostname = h.hostname; port = h.port })) hosts)
      → All P w.probed
      → All P (scan_hosts float out r limit s (x, w)).1.probed
  unfolding scan_hosts
  scan_hosts-keeps P limit s (err e) w good k = k
  scan_hosts-keeps P limit s (ok hosts) w good k =
      let after = process_hosts float out r (handed_out limit hosts) w in
      subst (λ v. All P v.probed)
        (sym (
          scanned-world limit (count_results (record s { discovered = length hosts }) after.0)
            after.1))
        (process_hosts-probes P float out r limit hosts w (good hosts refl) k).0

  -- The scan of discovered hosts probes targets within the apexes of the configuration
  -- and the database only, where these are settled and the sources that a caller adds keep to the
  -- apexes that they are given: whatever the world outside answers, whatever fails, and wherever the
  -- context ends the scan, if all targets probed before lie within the apexes, all probed after do.
  pub scan_hosts-InScope :
      (limit : Option ℕ) (s : Summary) (w : World)
      → AreSettled (apexes_of r w.conn.db)
      → All (IsScoped (apexes_of r w.conn.db)) r.sources
      → All (InScopeTarget (apexes_of r w.conn.db)) w.probed
      → All
          (InScopeTarget (apexes_of r w.conn.db))
          (scan_hosts float out r limit s (discover out r w)).1.probed
  scan_hosts-InScope limit s w settled scoped k =
      let found = discover out r w in
      scan_hosts-keeps (InScopeTarget (apexes_of r w.conn.db)) limit s found.0 found.1
        (λ hosts e. discover-InScope out r w hosts settled scoped e)
        (subst (All (InScopeTarget (apexes_of r w.conn.db))) (sym ((discover-IsQuiet out r).at w))
          k)

  -- the apexes do not change on the way
  same-apexes :
      (before after : World)
      → SameFrame before after
      → apexes_of r after.conn.db ≡ apexes_of r before.conn.db
  unfolding apexes_of targets_apexes
  same-apexes before after f =
      ap
        (λ (rows : List ManagedApexRow). unique_strings (
          r.config.apexes
          ++ map (λ a. a.apex)
              (map {B = ManagedApex}
                (λ x. record { apex = x.apex; source = "db"; added_at = x.added_at })
                (order_by (λ a b. text_le a.apex b.apex) rows))))
        f.managed

  -- what a scan needs to keep to its apexes, and what it keeps, in a world
  record IsReady (apexes : List String) (w : World) : Type 0 where
    settled : AreSettled (apexes_of r w.conn.db)
    scoped : All (IsScoped (apexes_of r w.conn.db)) r.sources
    probed : All (InScopeTarget (apexes_of r w.conn.db)) w.probed
    same : apexes_of r w.conn.db ≡ apexes

  IsReady-SameFrame :
      (apexes : List String) (before after : World)
      → SameFrame before after
      → IsReady apexes before
      → IsReady apexes after
  IsReady-SameFrame apexes before after f g =
      let e = sym (same-apexes before after f) in
      record {
        settled = subst AreSettled e g.settled;
        scoped = subst (λ a. All (IsScoped a) r.sources) e g.scoped;
        probed =
            subst (λ a. All (InScopeTarget a) after.probed) e
              (subst (All (InScopeTarget (apexes_of r before.conn.db))) (sym f.probed) g.probed);
        same = sym e ∙ g.same;
      }

  after_retries-InScope :
      (apexes : List String) (limit : Option ℕ) (x : Result (ℕ × ℕ)) (w : World)
      → IsReady apexes w
      → All (InScopeTarget apexes) (after_retries float out r limit (x, w)).1.probed
  after_retries-InScope apexes limit (err e) w g =
      subst (λ a. All (InScopeTarget a) w.probed) g.same g.probed
  after_retries-InScope apexes limit (ok counts) w g =
      let s = record no_summary { notified = counts.0; notify_failed = counts.1 } in
      subst
        (λ a. All (InScopeTarget a) (scan_hosts float out r limit s (discover out r w)).1.probed)
        g.same (scan_hosts-InScope limit s w g.settled g.scoped g.probed)

  after_apexes-InScope :
      (apexes : List String) (limit : Option ℕ) (at : Time) (x : Result (Unit {0})) (w : World)
      → IsReady apexes w
      → All (InScopeTarget apexes) (after_apexes float out r limit at (x, w)).1.probed
  after_apexes-InScope apexes limit at (err e) w g =
      subst (λ a. All (InScopeTarget a) w.probed) g.same g.probed
  after_apexes-InScope apexes limit at (ok u) w g =
      let retried = retry_pending_events out r.notifiers at w in
      after_retries-InScope apexes limit retried.0 retried.1 (
        IsReady-SameFrame apexes w retried.1 ((retry_pending_events-IsCalm out r.notifiers at).at w)
          g)

  pub record_scan-probed :
      (started : Time) (x : Result (Unit {0}) × Summary) (w : World)
      → (record_scan float out r started (x, w)).1.probed ≡ w.probed
  record_scan-probed started x w = elim (Bool-cases r.record_scans) [
    | inl on ↦ rw on refl
    | inr off ↦ rw off refl
  ]

  -- A scan probes targets within its apexes only, those of the configuration and of the database at
  -- its start, where these are settled and the sources that a caller adds keep to the apexes that
  -- they are given. Whatever the database, the world outside and the notifiers do, whatever fails,
  -- and wherever the context ends the scan: if all targets probed before lie within the apexes, all
  -- probed after do.
  pub run-InScope :
      (limit : Option ℕ) (w : World)
      → AreSettled (apexes_of r w.conn.db)
      → All (IsScoped (apexes_of r w.conn.db)) r.sources
      → All (InScopeTarget (apexes_of r w.conn.db)) w.probed
      → All (InScopeTarget (apexes_of r w.conn.db)) (run float out r limit w).1.probed
  unfolding run
  run-InScope limit w settled scoped k =
      let apexes = apexes_of r w.conn.db in
      let at = out.clock w.calls in
      let begun : World = record w { calls = w.calls + 1 } in
      let registered = register float out r at begun in
      let ready : IsReady apexes begun = record {
        settled = settled;
        scoped = scoped;
        probed = k;
        same = refl;
      } in
      let done = after_apexes float out r limit at registered in
      subst (All (InScopeTarget apexes)) (sym (record_scan-probed at done.0 done.1)) (
        after_apexes-InScope apexes limit at registered.0 registered.1 (
          IsReady-SameFrame apexes begun registered.1 ((register-IsCalm float out r at).at begun)
            ready))
