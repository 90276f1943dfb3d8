-- ===== src/Store/Schema.antt =====
-- The tables of the schema, a record type for the rows of each. A column that may be NULL is an
-- `Option`; a column of 0 and 1 is a `Bool`; a timestamp column is a `Stamp`. Foreign keys are
-- not enforced: SQLite leaves them off, and the program does not turn them on.
use certinv.Prelude.{ℕ, ℤ, String, Bool, Option, List, []}
use certinv.Clock.{Stamp}

pub record ManagedApexRow : Type 0 where
  pub apex : String
  pub added_at : Stamp

pub record ManagedHostRow : Type 0 where
  pub hostname : String
  pub port : ℤ
  pub apex : String
  pub added_at : Stamp

pub record SuppressedRow : Type 0 where
  pub hostname : String
  pub port : ℤ
  pub suppressed_at : Stamp

-- the one row of managed_crtname
pub record CrtNameRow : Type 0 where
  pub enabled : Bool
  pub endpoint : String
  pub updated_at : Stamp

pub record ApexCrtNameRow : Type 0 where
  pub apex : String
  pub enabled : Bool
  pub updated_at : Stamp

pub record ZoneFileRow : Type 0 where
  pub path : String
  pub added_at : Stamp

pub record ApexRow : Type 0 where
  pub apex : String
  pub enabled : Bool
  pub added_at : Stamp

pub record HostRow : Type 0 where
  pub id : ℕ
  pub hostname : String
  pub port : ℤ
  pub apex : String
  pub source : String
  pub first_seen_at : Stamp
  pub last_resolved_at : Option Stamp
  pub last_probed_at : Option Stamp
  pub status : String

pub record CertificateRow : Type 0 where
  pub fingerprint : String
  pub subject_cn : String
  pub issuer_cn : String
  pub issuer_org : String
  pub not_before : Stamp
  pub not_after : Stamp
  pub lifetime_days : ℤ
  pub sig_algorithm : String
  pub key_algorithm : String
  pub key_bits : ℕ
  pub is_self_signed : Bool
  pub san_names : List String
  pub first_seen_at : Stamp
  pub last_seen_at : Stamp

pub record HostCertificateRow : Type 0 where
  pub host_id : ℕ
  pub fingerprint : String
  pub observed_at : Stamp
  pub chain_complete : Bool
  pub hostname_match : Bool
  pub http_status : Option ℕ
  pub automation_class : Option String
  pub automation_reason : Option String

pub record StateRow : Type 0 where
  pub host_id : ℕ
  pub fingerprint : String
  pub state : String
  pub updated_at : Stamp

pub record EventRow : Type 0 where
  pub id : ℕ
  pub kind : String
  pub fingerprint : String
  pub host_id : Option ℕ
  pub occurred_at : Stamp
  pub notified_at : Option Stamp
  pub acknowledged_at : Option Stamp
  pub acknowledged_by : Option String
  pub detail : String

pub record Db : Type 0 where
  pub managed_apexes : List ManagedApexRow
  pub managed_manual_hosts : List ManagedHostRow
  pub suppressed_hosts : List SuppressedRow
  pub managed_crtname : Option CrtNameRow
  pub managed_apex_crtname : List ApexCrtNameRow
  pub managed_zone_files : List ZoneFileRow
  pub apexes : List ApexRow
  pub hosts : List HostRow
  pub certificates : List CertificateRow
  pub host_certificates : List HostCertificateRow
  pub certificate_states : List StateRow
  pub events : List EventRow

abbrev pub empty_db : Db
empty_db = record {
  managed_apexes = [];
  managed_manual_hosts = [];
  suppressed_hosts = [];
  managed_crtname = Option.none;
  managed_apex_crtname = [];
  managed_zone_files = [];
  apexes = [];
  hosts = [];
  certificates = [];
  host_certificates = [];
  certificate_states = [];
  events = [];
}
