-- ===== src/Store/Hosts/Purge.antt =====
-- `PurgeHost` as a transaction.
use certinv.Prelude.{ℕ, ℤ, nat_eq, String, false, Option, none, some, any, ◌≡◌, ◌⊎◌, select, not}
use certinv.Store.Schema.{Db}
use certinv.Store.Hosts.{
  is_suppressed, host_id_of, delete_suppressed, delete_hosts, delete_states,
  delete_host_certificates,
}

-- exactly the rows of one host are gone: its own, its links, its states
pub record Forgets (id : ℕ) (before after : Db) : Type 0 where
  pub hosts : after.hosts ≡ select (λ r. not (nat_eq r.id id)) before.hosts
  pub links :
      after.host_certificates ≡ select (λ r. not (nat_eq r.host_id id)) before.host_certificates
  pub states :
      after.certificate_states ≡ select (λ r. not (nat_eq r.host_id id)) before.certificate_states

-- those tables are as before
pub record IsUntouched (before after : Db) : Type 0 where
  pub hosts : after.hosts ≡ before.hosts
  pub links : after.host_certificates ≡ before.host_certificates
  pub states : after.certificate_states ≡ before.certificate_states

pub record IsPurged (hostname : String) (port : ℤ) (before after : Db) : Type 0 where
  pub suppressed : any (is_suppressed hostname port) after.suppressed_hosts ≡ false
  pub rows :
      ((id : ℕ) × (host_id_of hostname port before ≡ some id) × Forgets id before after)
      ⊎ ((host_id_of hostname port before ≡ none) × IsUntouched before after)
  pub history : (after.events ≡ before.events) × (after.certificates ≡ before.certificates)

-- what the body of the transaction makes of the tables
abbrev purged : String → ℤ → Option ℕ → Db → Db
purged hostname port none db = delete_suppressed hostname port db
purged hostname port (some id) db =
    delete_suppressed hostname port
      (delete_hosts id (delete_states id (delete_host_certificates id db)))
