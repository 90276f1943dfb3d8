-- ===== src/Store/Snapshots.antt =====
-- The snapshots of the store: the inventory that the web interface shows, and the metrics that the
-- exporter gives. A left join keeps a row without a partner, with NULL in the partner's columns.
pub mod Inventory
use certinv.Prelude.{
  ℕ, nat_eq, leb, ℤ, pos, int_eq, leb_ℤ, String, Bool, true, false, not, ◌&&◌, Option, none, some,
  List, [], ◌∷◌, ◌++◌, map, any, select, ◌==◌, if◌then◌else◌,
}
use certinv.Clock.{Time, Stamp, parse_time}
use certinv.Store.Table.{text_then, text_le, host_le, order_by}
use certinv.Store.Schema.{Db, HostRow, CertificateRow, HostCertificateRow, StateRow}
use certinv.Store.Exec.{Driver, Action, ◌>>=◌, pure, query}
use certinv.Store.Hosts.{is_suppressed}
use certinv.Store.Certificates.{has_fingerprint, is_state}

-- A column of times is empty where it is none; `san_names` is the list that the column's JSON holds.
pub record InventoryRow : Type 0 where
  pub hostname : String
  pub port : ℤ
  pub apex : String
  pub source : String
  pub host_status : String
  pub first_seen_at : Stamp
  pub last_resolved_at : Option Stamp
  pub last_probed_at : Option Stamp
  pub fingerprint : String
  pub cert_state : String
  pub subject_cn : String
  pub issuer_cn : String
  pub issuer_org : String
  pub not_before : Option Stamp
  pub not_after : Option Stamp
  pub lifetime_days : ℤ
  pub key_algorithm : String
  pub automation : String
  pub automation_reason : String
  pub san_names : List String
  pub observed_at : Option Stamp
  pub chain_complete : Bool
  pub hostname_match : Bool
  pub http_status : ℕ
  pub last_seen_at : Option Stamp

pub record CertificateMetric : Type 0 where
  pub fingerprint : String
  pub issuer : String
  pub common_name : String
  pub automation : String
  pub not_before : Time
  pub not_after : Time
  pub lifetime_days : ℤ

pub record HostMetric : Type 0 where
  pub hostname : String
  pub port : ℤ
  pub reachable : Bool

pub record MetricsSnapshot : Type 0 where
  pub certificates : List CertificateMetric
  pub hosts : List HostMetric

unfoldable pub flat_map : {A B : Type 0} → (A → List B) → List A → List B
flat_map f [] = []
flat_map f (x ∷ xs) = f x ++ flat_map f xs

abbrev pub or_null : {B : Type 0} → List B → List (Option B)
or_null [] = none ∷ []
or_null (y ∷ ys) = map some (y ∷ ys)

-- LEFT JOIN ... ON: the partners of one row
unfoldable pub partners : {B : Type 0} → (B → Bool) → List B → List (Option B)
partners p ys = or_null (select p ys)

-- COALESCE of a column of the partner
abbrev pub column : {A B : Type 0} → (A → B) → B → Option A → B
column f missing none = missing
column f missing (some a) = f a

abbrev column? : {A B : Type 0} → (A → Option B) → Option A → Option B
column? f none = none
column? f (some a) = f a

-- COALESCE of a column that may itself be NULL
abbrev column_or : {A B : Type 0} → (A → Option B) → B → Option A → B
column_or f missing a = column (λ b. b) missing (column? f a)

-- a row of the joined tables
pub record Joined : Type 0 where
  pub host : HostRow
  pub link : Option HostCertificateRow
  pub certificate : Option CertificateRow
  pub state : Option StateRow

-- cs.fingerprint = c.fingerprint
abbrev state_test : HostRow → Option CertificateRow → StateRow → Bool
state_test h none s = false
state_test h (some c) s = is_state h.id c.fingerprint s

-- c.fingerprint = hc.fingerprint
abbrev certificate_test : Option HostCertificateRow → CertificateRow → Bool
certificate_test none c = false
certificate_test (some hc) c = has_fingerprint hc.fingerprint c

unfoldable pub joined_of : Db → HostRow → List Joined
joined_of db h =
    flat_map
      (λ hc.
        flat_map
          (λ c.
            map (λ cs. record { host = h; link = hc; certificate = c; state = cs })
              (partners (state_test h c) db.certificate_states))
          (partners (certificate_test hc) db.certificates))
      (partners (λ r. nat_eq r.host_id h.id) db.host_certificates)

-- WHERE sh.hostname IS NULL
abbrev pub is_shown : Db → HostRow → Bool
is_shown db h = not (any (is_suppressed h.hostname h.port) db.suppressed_hosts)

abbrev pub inventory_row : Joined → InventoryRow
inventory_row j = record {
  hostname = j.host.hostname;
  port = j.host.port;
  apex = j.host.apex;
  source = j.host.source;
  host_status = j.host.status;
  first_seen_at = j.host.first_seen_at;
  last_resolved_at = j.host.last_resolved_at;
  last_probed_at = j.host.last_probed_at;
  fingerprint = column (λ c. c.fingerprint) "" j.certificate;
  cert_state = column (λ s. s.state) "" j.state;
  subject_cn = column (λ c. c.subject_cn) "" j.certificate;
  issuer_cn = column (λ c. c.issuer_cn) "" j.certificate;
  issuer_org = column (λ c. c.issuer_org) "" j.certificate;
  not_before = column? (λ c. some c.not_before) j.certificate;
  not_after = column? (λ c. some c.not_after) j.certificate;
  lifetime_days = column (λ c. c.lifetime_days) (pos 0) j.certificate;
  key_algorithm = column (λ c. c.key_algorithm) "" j.certificate;
  automation = column_or (λ l. l.automation_class) "unknown" j.link;
  automation_reason = column_or (λ l. l.automation_reason) "" j.link;
  san_names = column (λ c. c.san_names) [] j.certificate;
  observed_at = column? (λ l. some l.observed_at) j.link;
  chain_complete = column (λ l. l.chain_complete) false j.link;
  hostname_match = column (λ l. l.hostname_match) false j.link;
  http_status = column_or (λ l. l.http_status) 0 j.link;
  last_seen_at = column? (λ c. some c.last_seen_at) j.certificate;
}

-- the order of a column of times, NULL first
abbrev stamp_le : Option Stamp → Option Stamp → Bool
stamp_le none b = true
stamp_le (some a) none = false
stamp_le (some a) (some b) = leb a b

-- ORDER BY h.hostname, h.port, c.not_after
abbrev pub row_le : InventoryRow → InventoryRow → Bool
row_le a b =
    text_then a.hostname b.hostname
      (if int_eq a.port b.port then stamp_le a.not_after b.not_after else leb_ℤ a.port b.port)

unfoldable pub inventory_of : Db → List InventoryRow
inventory_of db =
    order_by row_le (map inventory_row (flat_map (joined_of db) (select (is_shown db) db.hosts)))

abbrev certificate_metric : CertificateRow → Option HostCertificateRow → CertificateMetric
certificate_metric c link = record {
  fingerprint = c.fingerprint;
  issuer = c.issuer_cn;
  common_name = c.subject_cn;
  automation = column_or (λ l. l.automation_class) "unknown" link;
  not_before = parse_time c.not_before;
  not_after = parse_time c.not_after;
  lifetime_days = c.lifetime_days;
}

-- DISTINCT: the rows agree in every column
abbrev pub same_metric : CertificateMetric → CertificateMetric → Bool
same_metric a b =
    a.fingerprint == b.fingerprint
    && (a.issuer == b.issuer
        && (a.common_name == b.common_name
            && (a.automation == b.automation
                && (nat_eq a.not_before b.not_before
                    && (nat_eq a.not_after b.not_after
                        && int_eq a.lifetime_days b.lifetime_days)))))

unfoldable pub distinct : {A : Type 0} → (A → A → Bool) → List A → List A
distinct same [] = []
distinct same (x ∷ xs) = let rest = distinct same xs in if any (same x) rest then rest else x ∷ rest

unfoldable pub certificate_metrics_of : Db → List CertificateMetric
certificate_metrics_of db =
    order_by (λ a b. text_then a.fingerprint b.fingerprint (text_le a.automation b.automation))
      (distinct same_metric (
        flat_map
          (λ c.
            map (certificate_metric c)
              (partners (λ l. l.fingerprint == c.fingerprint) db.host_certificates))
          db.certificates))

unfoldable pub host_metrics_of : Db → List HostMetric
host_metrics_of db =
    map (λ h. record { hostname = h.hostname; port = h.port; reachable = h.status == "active" })
      (order_by (λ a b. host_le a.hostname a.port b.hostname b.port) db.hosts)

module _ (driver : Driver) where
  unfoldable pub inventory_snapshot : Action (List InventoryRow)
  inventory_snapshot = query driver "select inventory snapshot" inventory_of

  unfoldable pub metrics_snapshot : Action MetricsSnapshot
  metrics_snapshot = do
    certificates ← query driver "select certificate metrics" certificate_metrics_of
    hosts ← query driver "select host metrics" host_metrics_of
    pure (record { certificates = certificates; hosts = hosts })
