-- ===== src/Tests/Scan.antt =====
-- A scan at concrete inputs.
use certinv.Prelude.{
  ℕ, ℤ, ◌*ℤ◌, ◌*◌, ◌+◌, ◌%◌, ◌≤◌, ◌<◌, ◌≤ℤ◌, leb_ℤ, String, Bool, true, false, Option, none, some,
  List, [], ◌∷◌, ◌++◌, any, nat_eq, select, All, ◌≡◌, ◌≢◌, ◌⊎◌, ◌↔◌, inl, inr, refl, arith, eq_iff,
}
use certinv.Text.{contains}
use certinv.Discover.{Host, normalize_host, normalize_hostname, within_apex, apex_for, merge}
use certinv.Discover.Scope.{InScope}
use certinv.Discover.Manual
use certinv.Discover.Manual.{manual-InScope, manual_total, manual_outside}
use certinv.Store.Table.{next_id}
use certinv.Store.Exec.{statement}
use certinv.Store.Hosts.{purge_host}
use certinv.Core.{Outside, Runner, World}
use certinv.Core.Discovery.{discover}
use certinv.Core.Discovery.Sources.{apexes_of}
use certinv.Core.Discovery.Scope.{discover-InScope}
use certinv.Core.Run.Scope.{InScopeTarget, run-InScope}
use certinv.Core.Run.{run as run_scan}
use certinv.Cmd.SerialScan
use certinv.Cmd.SerialScan.{Reach-IsExclusive, scan_after_return, new, next, run}
use certinv.Tests.Data.{www, whole, busy, outside, runner, world}

busy-Reach : SerialScan.Reach busy
unfolding SerialScan.try_scan
busy-Reach = next new (run refl)

Reach-IsExclusive_example : SerialScan.IsExclusive busy
Reach-IsExclusive_example = Reach-IsExclusive busy-Reach

scan_after_return_example :
    (SerialScan.try_scan busy ≡ (false, busy))
    × ((SerialScan.try_scan
          (SerialScan.finish (record busy { active = SerialScan.without 0 (0 ∷ []) }))).0
        ≡ true)
    × ((SerialScan.try_scan
          (SerialScan.finish (record busy { active = SerialScan.without 0 (0 ∷ []) }))).1.active
        ≡ 1 ∷ [])
unfolding any
scan_after_return_example = scan_after_return 0 busy-Reach refl

discover-InScope_example :
    All (InScope (apexes_of runner world.conn.db)) (record www { source = "manual" } ∷ [])
unfolding discover apexes_of certinv.Core.Discovery.unique_strings normalize_hostname any
    certinv.Text.Trim.ends_clean certinv.Store.Managed.targets_apexes certinv.Store.Table.order_by
    certinv.Core.◌>>=◌ certinv.Core.Discovery.effective_apexes certinv.Store.Managed.managed_targets
    statement certinv.Core.Discovery.effective_sources certinv.Store.Managed.managed_discovery
    certinv.Core.Discovery.crt_name_sources certinv.Core.Discovery.discover_sources
    certinv.Core.Discovery.zone_sources certinv.Core.Discovery.effective_manual_hosts
    certinv.Core.Discovery.managed_in_scope certinv.Core.Discovery.manual_group Manual.discover
    apex_for merge certinv.Discover.merge_groups certinv.Discover.merge_host
    certinv.Discover.merge_hosts within_apex certinv.Prelude.int_eq select
    certinv.Store.Hosts.suppressed_hosts certinv.Store.Managed.targets_hosts certinv.Text.has_suffix
discover-InScope_example =
    discover-InScope outside runner world (record www { source = "manual" } ∷ []) (refl, tt) tt refl

run-InScope_example :
    All
      (InScopeTarget (apexes_of runner world.conn.db))
      (run_scan whole outside runner none world).1.probed
unfolding apexes_of certinv.Core.Discovery.unique_strings normalize_hostname any
    certinv.Text.Trim.ends_clean certinv.Store.Managed.targets_apexes certinv.Store.Table.order_by
run-InScope_example = run-InScope whole outside runner none world (refl, tt) tt tt
