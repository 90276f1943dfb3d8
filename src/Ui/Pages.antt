-- ===== src/Ui/Pages.antt =====
-- The handlers that read: the page, the lookup of names, the export, and the state of the scan.
pub mod Export
pub mod Lookup
pub mod Scope
pub mod Reading
use certinv.Prelude.{
  ℕ, ℤ, pos, String, Bool, true, false, not, ◌&&◌, ◌||◌, Option, none, some, List, [], ◌∷◌, ◌++◌,
  map, any, select, ◌==◌, if◌then◌else◌,
}
use certinv.Text.{trim_space, to_upper}
use certinv.Discover.{Host, normalize_hostname, normalized_port, apex_for}
use certinv.Discover.CrtName
use certinv.Config.{ManualHost}
use certinv.Result.{Error, message, Result, ok, err}
use certinv.Store.Schema.{ApexCrtNameRow}
use certinv.Store.Snapshots.{InventoryRow, inventory_snapshot}
use certinv.Store.Events.{unacknowledged_events}
use certinv.Store.Hosts.{suppressed_hosts}
use certinv.Store.Managed.{
  ManagedApex, ManagedManualHost, ManagedTargets, ManagedDiscovery, managed_targets,
  managed_discovery,
}
use certinv.Ui.{
  Outside, Handler, Request, Response, server_error, page, csv, scan_status, Message, text, Cell,
  words, number, moment, truth, joined, TargetApex, TargetManualHost, TargetRows, CrtNameRow,
  ZoneRows, SourceRows, CrtNameCandidate, CrtNameLookup, CrtNameScope, PageData, Site,
}
use certinv.Ui.Stage.{
  Outcome, reply, Stage, go, ◌>>=◌, ◌>>◌, answer, stop, check, try, stop_if, active_tab, parse_form,
  form_value, now,
}
use certinv.Ui.Forms.{available_zone_files, selected_lookup_apex}
use certinv.Ui.Lookups.{effective_apexes, registered_manual_hostnames}

-- `apexCrtNameEnabled` of `apexCrtNameMap`: the last setting of the apex, on where there is none
unfoldable pub apex_crt_name_enabled : String → List ApexCrtNameRow → Bool
apex_crt_name_enabled apex [] = true
apex_crt_name_enabled apex (s ∷ settings) =
    let rest = apex_crt_name_enabled apex settings in
    let last = not (any (λ x. normalize_hostname x.apex == normalize_hostname apex) settings) in
    if normalize_hostname s.apex == normalize_hostname apex && last then s.enabled else rest

abbrev apex_or_empty : Option String → String
apex_or_empty none = ""
apex_or_empty (some apex) = apex

abbrev config_apex : List ApexCrtNameRow → String → TargetApex
config_apex settings raw = record {
  apex = normalize_hostname raw;
  origin = "config";
  can_delete = false;
  crt_name_enabled = apex_crt_name_enabled (normalize_hostname raw) settings;
}

abbrev config_host : List String → ManualHost → TargetManualHost
config_host apexes m = record {
  hostname = normalize_hostname m.hostname;
  port = normalized_port m.port;
  apex = apex_or_empty (apex_for (normalize_hostname m.hostname) apexes);
  origin = "config";
  can_delete = false;
}

abbrev managed_apex : List ApexCrtNameRow → ManagedApex → TargetApex
managed_apex settings a = record {
  apex = a.apex;
  origin = a.source;
  can_delete = true;
  crt_name_enabled = apex_crt_name_enabled a.apex settings;
}

abbrev managed_host : ManagedManualHost → TargetManualHost
managed_host m = record {
  hostname = m.hostname;
  port = m.port;
  apex = m.apex;
  origin = m.source;
  can_delete = true;
}

-- the settings of the search: those of the database, or of the configuration
abbrev crt_name_row : Handler → ManagedDiscovery → CrtNameRow
crt_name_row h managed =
    if managed.crt_name_set
    then record {
      enabled = managed.crt_name_enabled;
      endpoint = managed.crt_name_endpoint;
      origin = "db";
    }
    else record {
      enabled = h.sources.crt_name_enabled;
      endpoint = h.sources.crt_name_endpoint;
      origin = "config";
    }

abbrev first_or_empty : List String → String
first_or_empty [] = ""
first_or_empty (a ∷ _) = a

abbrev pub load_failed : Error → Response
load_failed e = server_error "failed to load inventory"

module _ (out : Outside) (h : Handler) where
  -- `targetRows`
  unfoldable pub target_rows : Stage TargetRows
  target_rows = do
    discovery ← try load_failed (managed_discovery out.driver)
    managed ← try load_failed (managed_targets out.driver)
    answer (record {
      apexes =
          map (config_apex discovery.apex_crt_name) h.config.apexes
          ++ map (managed_apex discovery.apex_crt_name) managed.apexes;
      manual_hosts =
          map (config_host h.config.apexes) h.config.manual_hosts
          ++ map managed_host managed.manual_hosts;
    })

  -- `sourceRows`
  unfoldable pub source_rows : Stage SourceRows
  source_rows = do
    managed ← try load_failed (managed_discovery out.driver)
    answer (record {
      crt_name = crt_name_row h managed;
      saved_crt_name = crt_name_row h managed;
      zone = record {
        allowed_dir = h.sources.zone_allowed_dir;
        enabled = not (trim_space h.sources.zone_allowed_dir == "");
        config_files = h.sources.zone_files;
        managed_files = managed.zone_files;
        available_files = available_zone_files out.paths h.sources.zone_allowed_dir;
      };
    })

  -- `pageData`
  unfoldable pub page_data : String → String → Message → Stage PageData
  page_data tab notice problem = do
    rows ← try load_failed (inventory_snapshot out.driver)
    events ← try load_failed (unacknowledged_events out.driver)
    suppressed ← try load_failed (suppressed_hosts out.driver)
    at ← now out
    targets ← target_rows
    sources ← source_rows
    let names = map (λ a. a.apex) targets.apexes
    answer (record {
      generated_at = at;
      tab = tab;
      inventory_tab = tab == "inventory";
      sources_tab = tab == "sources";
      rows = rows;
      targets = targets;
      events = events;
      suppressed = suppressed;
      sources = sources;
      lookup = record { apexes = names; selected_apex = first_or_empty names; candidates = [] };
      crt_name_scope = record {
        enabled = sources.crt_name.enabled;
        apexes =
            map (λ a. a.apex)
              (select (λ a. sources.crt_name.enabled && a.crt_name_enabled) targets.apexes);
      };
      notice = notice;
      problem = problem;
      poll_scan = notice == "scan accepted";
    })

  unfoldable pub inventory : Request → Stage Response
  inventory r = do shown ← page_data (active_tab r) r.notice (text r.problem); answer (page shown)

  unfoldable pub status : Request → Stage Response
  status r s = (go (scan_status (h.has_scanner && s.scans.running)), s)
