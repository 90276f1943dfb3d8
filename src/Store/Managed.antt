-- ===== src/Store/Managed.antt =====
-- The methods of the store on what the web interface manages: apexes, hosts and sources.
pub mod Reading
pub mod Keeping
pub mod Refinement
pub mod Owned
use certinv.Prelude.{
  ℤ, int_eq, String, Bool, true, false, ◌&&◌, Option, none, some, List, map, ◌==◌,
}
use certinv.Clock.{Time, Stamp, format_time}
use certinv.Discover.{Host}
use certinv.Store.Table.{text_le, host_le, delete_where, upsert, order_by}
use certinv.Store.Schema.{Db, ManagedHostRow, CrtNameRow, ApexCrtNameRow, ZoneFileRow}
use certinv.Store.Exec.{Driver, Action, ◌>>=◌, pure, exec, query}

pub record ManagedApex : Type 0 where
  pub apex : String
  pub source : String
  pub added_at : Stamp

pub record ManagedManualHost : Type 0 where
  pub hostname : String
  pub port : ℤ
  pub apex : String
  pub source : String
  pub added_at : Stamp

pub record ManagedTargets : Type 0 where
  pub apexes : List ManagedApex
  pub manual_hosts : List ManagedManualHost

pub record ManagedDiscovery : Type 0 where
  pub crt_name_set : Bool
  pub crt_name_enabled : Bool
  pub crt_name_endpoint : String
  pub apex_crt_name : List ApexCrtNameRow
  pub zone_files : List ZoneFileRow

unfoldable pub targets_apexes : Db → List ManagedApex
targets_apexes db =
    map (λ r. record { apex = r.apex; source = "db"; added_at = r.added_at })
      (order_by (λ a b. text_le a.apex b.apex) db.managed_apexes)

unfoldable pub targets_hosts : Db → List ManagedManualHost
targets_hosts db =
    map
      (λ r. record {
        hostname = r.hostname;
        port = r.port;
        apex = r.apex;
        source = "db";
        added_at = r.added_at;
      })
      (order_by (λ a b. host_le a.hostname a.port b.hostname b.port) db.managed_manual_hosts)

unfoldable pub put_managed_apex : String → Stamp → Db → Db
put_managed_apex apex now db = record db {
  managed_apexes =
      upsert (λ r. r.apex == apex) (record { apex = apex; added_at = now })
        (λ r. record r { added_at = now }) db.managed_apexes;
}

unfoldable pub delete_apex : String → Db → Db
delete_apex apex db = record db {
  managed_apexes = delete_where (λ r. r.apex == apex) db.managed_apexes;
}

abbrev pub is_managed_host : String → ℤ → ManagedHostRow → Bool
is_managed_host hostname port r = r.hostname == hostname && int_eq r.port port

unfoldable pub put_managed_host : Host → Stamp → Db → Db
put_managed_host host now db = record db {
  managed_manual_hosts =
      upsert (is_managed_host host.hostname host.port)
        (record { hostname = host.hostname; port = host.port; apex = host.apex; added_at = now })
        (λ r. record r { apex = host.apex; added_at = now }) db.managed_manual_hosts;
}

unfoldable pub delete_managed_host : String → ℤ → Db → Db
delete_managed_host hostname port db = record db {
  managed_manual_hosts = delete_where (is_managed_host hostname port) db.managed_manual_hosts;
}

-- there is one row at most, with the id 1
unfoldable pub put_crt_name : Bool → String → Stamp → Db → Db
put_crt_name enabled endpoint now db = record db {
  managed_crtname = some (record { enabled = enabled; endpoint = endpoint; updated_at = now });
}

unfoldable pub put_apex_crt_name : String → Bool → Stamp → Db → Db
put_apex_crt_name apex enabled now db = record db {
  managed_apex_crtname =
      upsert (λ r. r.apex == apex) (record { apex = apex; enabled = enabled; updated_at = now })
        (λ r. record r { enabled = enabled; updated_at = now }) db.managed_apex_crtname;
}

unfoldable pub put_zone_file : String → Stamp → Db → Db
put_zone_file path now db = record db {
  managed_zone_files =
      upsert (λ r. r.path == path) (record { path = path; added_at = now })
        (λ r. record r { added_at = now }) db.managed_zone_files;
}

unfoldable pub delete_zone_file : String → Db → Db
delete_zone_file path db = record db {
  managed_zone_files = delete_where (λ r. r.path == path) db.managed_zone_files;
}

abbrev pub discovery_of :
    Option CrtNameRow → List ApexCrtNameRow → List ZoneFileRow → ManagedDiscovery
discovery_of none apexes files = record {
  crt_name_set = false;
  crt_name_enabled = false;
  crt_name_endpoint = "";
  apex_crt_name = apexes;
  zone_files = files;
}
discovery_of (some row) apexes files = record {
  crt_name_set = true;
  crt_name_enabled = row.enabled;
  crt_name_endpoint = row.endpoint;
  apex_crt_name = apexes;
  zone_files = files;
}

module _ (driver : Driver) where
  unfoldable pub managed_targets : Action ManagedTargets
  managed_targets = do
    apexes ← query driver "select managed apexes" targets_apexes
    hosts ← query driver "select managed manual hosts" targets_hosts
    pure (record { apexes = apexes; manual_hosts = hosts })

  unfoldable pub add_managed_apex : String → Time → Action (Unit {0})
  add_managed_apex apex now =
      exec driver "add managed apex" (put_managed_apex apex (format_time now))

  unfoldable pub delete_managed_apex : String → Action (Unit {0})
  delete_managed_apex apex = exec driver "delete managed apex" (delete_apex apex)

  unfoldable pub add_managed_manual_host : Host → Time → Action (Unit {0})
  add_managed_manual_host host now =
      exec driver "add managed manual host" (put_managed_host host (format_time now))

  unfoldable pub delete_managed_manual_host : String → ℤ → Action (Unit {0})
  delete_managed_manual_host hostname port =
      exec driver "delete managed manual host" (delete_managed_host hostname port)

  unfoldable pub managed_discovery : Action ManagedDiscovery
  managed_discovery = do
    crt_name ← query driver "select managed crtname" (λ db. db.managed_crtname)
    apexes ←
        query driver "select managed apex crtname"
          (λ db. order_by (λ a b. text_le a.apex b.apex) db.managed_apex_crtname)
    files ←
        query driver "select managed zone files"
          (λ db. order_by (λ a b. text_le a.path b.path) db.managed_zone_files)
    pure (discovery_of crt_name apexes files)

  unfoldable pub save_managed_crt_name : Bool → String → Time → Action (Unit {0})
  save_managed_crt_name enabled endpoint now =
      exec driver "save managed crtname" (put_crt_name enabled endpoint (format_time now))

  unfoldable pub save_managed_apex_crt_name : String → Bool → Time → Action (Unit {0})
  save_managed_apex_crt_name apex enabled now =
      exec driver "save managed apex crtname" (put_apex_crt_name apex enabled (format_time now))

  unfoldable pub add_managed_zone_file : String → Time → Action (Unit {0})
  add_managed_zone_file path now =
      exec driver "add managed zone file" (put_zone_file path (format_time now))

  unfoldable pub delete_managed_zone_file : String → Action (Unit {0})
  delete_managed_zone_file path = exec driver "delete managed zone file" (delete_zone_file path)
