-- ===== src/Store/Hosts.antt =====
-- The methods of the store on apexes, hosts and suppressed hosts.
pub mod Purge
use certinv.Prelude.{
  ℕ, ℤ, pos, int_eq, nat_eq, String, Bool, true, false, not, ◌&&◌, ◌||◌, Option, none, some, List,
  [], ◌∷◌, ◌++◌, map, find, any, select, ◌==◌, if◌then◌else◌,
}
use certinv.Clock.{Time, Stamp, format_time}
use certinv.Discover.{Host}
use certinv.Store.Table.{host_le, update_where, delete_where, upsert, order_by, next_id}
use certinv.Store.Schema.{Db, ApexRow, HostRow, SuppressedRow, HostCertificateRow, StateRow}
use certinv.Result.{message, wrap}
use certinv.Store.Exec.{raise, Driver, Action, ◌>>=◌, ◌>>◌, pure, exec, query, transaction}

pub record SuppressedHost : Type 0 where
  pub hostname : String
  pub port : ℤ

-- hostname = ? AND port = ?
abbrev pub is_host : String → ℤ → HostRow → Bool
is_host hostname port r = r.hostname == hostname && int_eq r.port port

abbrev pub is_suppressed : String → ℤ → SuppressedRow → Bool
is_suppressed hostname port r = r.hostname == hostname && int_eq r.port port

-- the statements, as functions of the database
unfoldable pub put_apex : String → Stamp → Db → Db
put_apex apex now db = record db {
  apexes =
      upsert (λ r. r.apex == apex) (record { apex = apex; enabled = true; added_at = now })
        (λ r. record r { enabled = true }) db.apexes;
}

-- `firstSeen`
abbrev pub first_seen_or : Time → Option Time → Time
first_seen_or now none = now
first_seen_or now (some t) = t

unfoldable pub put_host : Host → String → Time → Db → Db
put_host host status now db = record db {
  hosts =
      upsert (is_host host.hostname host.port)
        (record {
          id = next_id (λ r. r.id) db.hosts;
          hostname = host.hostname;
          port = host.port;
          apex = host.apex;
          source = host.source;
          first_seen_at = format_time (first_seen_or now host.first_seen);
          last_resolved_at = none;
          last_probed_at = none;
          status = status;
        })
        (λ r. record r { apex = host.apex; source = host.source; status = status }) db.hosts;
}

unfoldable pub set_resolved : String → ℤ → Stamp → Db → Db
set_resolved hostname port now db = record db {
  hosts =
      update_where (is_host hostname port)
        (λ r. record r { last_resolved_at = some now; status = "active" }) db.hosts;
}

unfoldable pub set_probed : String → ℤ → Stamp → Db → Db
set_probed hostname port now db = record db {
  hosts =
      update_where (is_host hostname port) (λ r. record r { last_probed_at = some now }) db.hosts;
}

abbrev pub host_id_of : String → ℤ → Db → Option ℕ
host_id_of hostname port db = elim (find (is_host hostname port) db.hosts) [
  | some r ↦ some r.id
  | none ↦ none
]

unfoldable pub put_suppressed : String → ℤ → Stamp → Db → Db
put_suppressed hostname port now db = record db {
  suppressed_hosts =
      upsert (is_suppressed hostname port)
        (record { hostname = hostname; port = port; suppressed_at = now })
        (λ r. record r { suppressed_at = now }) db.suppressed_hosts;
}

unfoldable pub delete_suppressed : String → ℤ → Db → Db
delete_suppressed hostname port db = record db {
  suppressed_hosts = delete_where (is_suppressed hostname port) db.suppressed_hosts;
}

unfoldable pub delete_host_certificates : ℕ → Db → Db
delete_host_certificates id db = record db {
  host_certificates = delete_where (λ r. nat_eq r.host_id id) db.host_certificates;
}

unfoldable pub delete_states : ℕ → Db → Db
delete_states id db = record db {
  certificate_states = delete_where (λ r. nat_eq r.host_id id) db.certificate_states;
}

unfoldable pub delete_hosts : ℕ → Db → Db
delete_hosts id db = record db { hosts = delete_where (λ r. nat_eq r.id id) db.hosts }

-- ORDER BY hostname, port
abbrev before_suppressed : SuppressedRow → SuppressedRow → Bool
before_suppressed a b = host_le a.hostname a.port b.hostname b.port

module _ (driver : Driver) where
  unfoldable pub upsert_apex : String → Time → Action (Unit {0})
  upsert_apex apex now = exec driver "upsert apex" (put_apex apex (format_time now))

  -- the id of the row that the second statement selects, or the scan's error
  abbrev pub scan_id : Option ℕ → Action ℕ
  scan_id none = raise (wrap "select host" (message "sql: no rows in result set"))
  scan_id (some id) = pure id

  unfoldable pub upsert_host : Host → String → Time → Action ℕ
  upsert_host host status now = do
    exec driver "upsert host" (put_host host status now)
    found ← query driver "select host" (host_id_of host.hostname host.port)
    scan_id found

  unfoldable pub mark_host_resolved : String → ℤ → Time → Action (Unit {0})
  mark_host_resolved hostname port now =
      exec driver "mark host resolved" (set_resolved hostname port (format_time now))

  unfoldable pub mark_host_probed : String → ℤ → Time → Action (Unit {0})
  mark_host_probed hostname port now =
      exec driver "mark host probed" (set_probed hostname port (format_time now))

  unfoldable pub suppressed_hosts : Action (List SuppressedHost)
  suppressed_hosts = query driver "select suppressed hosts" (λ db.
      map (λ r. record { hostname = r.hostname; port = r.port })
        (order_by before_suppressed db.suppressed_hosts))

  unfoldable pub suppress_host : String → ℤ → Time → Action (Unit {0})
  suppress_host hostname port now =
      exec driver "suppress host" (put_suppressed hostname port (format_time now))

  unfoldable pub unsuppress_host : String → ℤ → Action (Unit {0})
  unsuppress_host hostname port = exec driver "unsuppress host" (delete_suppressed hostname port)

  -- the three statements on a host that is known
  abbrev pub purge_rows : Option ℕ → Action (Unit {0})
  purge_rows none = pure tt
  purge_rows (some id) = do
    exec driver "purge host" (delete_host_certificates id)
    exec driver "purge host" (delete_states id)
    exec driver "purge host" (delete_hosts id)

  abbrev pub purge_body : String → ℤ → Action (Unit {0})
  purge_body hostname port = do
    found ← query driver "select purge host" (host_id_of hostname port)
    purge_rows found
    exec driver "purge suppressed host" (delete_suppressed hostname port)

  unfoldable pub purge_host : String → ℤ → Action (Unit {0})
  purge_host hostname port = transaction driver (purge_body hostname port)
