-- ===== src/Store/Certificates.antt =====
-- The methods of the store on certificates, their links to hosts, and their states.
pub mod States
use certinv.Prelude.{
  ℕ, leb, nat_eq, String, Bool, ◌&&◌, Option, none, some, List, [], ◌∷◌, find, ◌==◌, if◌then◌else◌,
}
use certinv.Clock.{Time, Stamp, format_time, parse_time}
use certinv.Cert.{Metadata}
use certinv.Store.Table.{update_where, upsert}
use certinv.Store.Schema.{Db, CertificateRow, HostCertificateRow, StateRow}
use certinv.Store.Exec.{Driver, Action, exec, query}

-- an empty fingerprint says that there is none
pub record HostCertificate : Type 0 where
  pub fingerprint : String
  pub not_after : Time

abbrev pub no_certificate : HostCertificate
no_certificate = record { fingerprint = ""; not_after = 0 }

-- host_id = ? AND fingerprint = ?
abbrev pub is_link : ℕ → String → HostCertificateRow → Bool
is_link host_id fingerprint r = nat_eq r.host_id host_id && r.fingerprint == fingerprint

abbrev pub is_state : ℕ → String → StateRow → Bool
is_state host_id fingerprint r = nat_eq r.host_id host_id && r.fingerprint == fingerprint

abbrev pub has_fingerprint : String → CertificateRow → Bool
has_fingerprint fingerprint r = r.fingerprint == fingerprint

unfoldable pub put_certificate : Metadata → Stamp → Db → Db
put_certificate cert now db = record db {
  certificates =
      upsert (has_fingerprint cert.fingerprint)
        (record {
          fingerprint = cert.fingerprint;
          subject_cn = cert.subject_cn;
          issuer_cn = cert.issuer_cn;
          issuer_org = cert.issuer_org;
          not_before = format_time cert.not_before;
          not_after = format_time cert.not_after;
          lifetime_days = cert.lifetime_days;
          sig_algorithm = cert.sig_algorithm;
          key_algorithm = cert.key_algorithm;
          key_bits = cert.key_bits;
          is_self_signed = cert.is_self_signed;
          san_names = cert.san_names;
          first_seen_at = now;
          last_seen_at = now;
        })
        (λ r. record r {
          subject_cn = cert.subject_cn;
          issuer_cn = cert.issuer_cn;
          issuer_org = cert.issuer_org;
          not_before = format_time cert.not_before;
          not_after = format_time cert.not_after;
          lifetime_days = cert.lifetime_days;
          sig_algorithm = cert.sig_algorithm;
          key_algorithm = cert.key_algorithm;
          key_bits = cert.key_bits;
          is_self_signed = cert.is_self_signed;
          san_names = cert.san_names;
          last_seen_at = now;
        })
        db.certificates;
}

unfoldable pub put_link : ℕ → String → Bool → Bool → Stamp → Db → Db
put_link host_id fingerprint chain_complete hostname_match now db = record db {
  host_certificates =
      upsert (is_link host_id fingerprint)
        (record {
          host_id = host_id;
          fingerprint = fingerprint;
          observed_at = now;
          chain_complete = chain_complete;
          hostname_match = hostname_match;
          http_status = none;
          automation_class = none;
          automation_reason = none;
        })
        (λ r. record r {
          observed_at = now;
          chain_complete = chain_complete;
          hostname_match = hostname_match;
        })
        db.host_certificates;
}

unfoldable pub put_http_status : ℕ → String → ℕ → Db → Db
put_http_status host_id fingerprint status db = record db {
  host_certificates =
      update_where (is_link host_id fingerprint) (λ r. record r { http_status = some status })
        db.host_certificates;
}

unfoldable pub put_automation : ℕ → String → String → String → Db → Db
put_automation host_id fingerprint class reason db = record db {
  host_certificates =
      update_where (is_link host_id fingerprint)
        (λ r. record r { automation_class = some class; automation_reason = some reason })
        db.host_certificates;
}

unfoldable pub put_state : ℕ → String → String → Stamp → Db → Db
put_state host_id fingerprint state now db = record db {
  certificate_states =
      upsert (is_state host_id fingerprint)
        (record { host_id = host_id; fingerprint = fingerprint; state = state; updated_at = now })
        (λ r. record r { state = state; updated_at = now }) db.certificate_states;
}

-- the text that is scanned, or "" where there is no row
unfoldable pub state_of : ℕ → String → Db → String
state_of host_id fingerprint db = elim (find (is_state host_id fingerprint) db.certificate_states) [
  | some r ↦ r.state
  | none ↦ ""
]

-- a row of the join, for one link
abbrev joined : List CertificateRow → HostCertificateRow → Option (HostCertificateRow × Stamp)
joined certificates link = elim (find (has_fingerprint link.fingerprint) certificates) [
  | some c ↦ some (link, c.not_after)
  | none ↦ none
]

-- ORDER BY observed_at DESC, rowid DESC LIMIT 1, on two rows in the order of their row ids
abbrev later_of :
    Option (HostCertificateRow × Stamp)
    → Option (HostCertificateRow × Stamp)
    → Option (HostCertificateRow × Stamp)
later_of none later = later
later_of (some a) none = some a
later_of (some (a, s)) (some (b, t)) =
    if leb a.observed_at b.observed_at then some (b, t) else some (a, s)

unfoldable pub latest_link :
    ℕ → List CertificateRow → List HostCertificateRow → Option (HostCertificateRow × Stamp)
latest_link host_id certificates [] = none
latest_link host_id certificates (link ∷ links) =
    let rest = latest_link host_id certificates links in
    if nat_eq link.host_id host_id then later_of (joined certificates link) rest else rest

unfoldable pub latest_of : ℕ → Db → HostCertificate
unfolding latest_link
latest_of host_id db = elim (latest_link host_id db.certificates db.host_certificates) [
  | some (link, not_after) ↦ record {
    fingerprint = link.fingerprint;
    not_after = parse_time not_after;
  }
  | none ↦ no_certificate
]

module _ (driver : Driver) where
  unfoldable pub latest_host_certificate : ℕ → Action HostCertificate
  latest_host_certificate host_id = query driver "latest host certificate" (latest_of host_id)

  unfoldable pub upsert_certificate : Metadata → Time → Action (Unit {0})
  upsert_certificate cert now =
      exec driver "upsert certificate" (put_certificate cert (format_time now))

  unfoldable pub link_host_certificate : ℕ → String → Bool → Bool → Time → Action (Unit {0})
  link_host_certificate host_id fingerprint chain_complete hostname_match now =
      exec driver "link host to certificate"
        (put_link host_id fingerprint chain_complete hostname_match (format_time now))

  unfoldable pub set_http_status : ℕ → String → ℕ → Action (Unit {0})
  set_http_status host_id fingerprint status =
      exec driver "set HTTP status" (put_http_status host_id fingerprint status)

  unfoldable pub set_automation_estimate : ℕ → String → String → String → Action (Unit {0})
  set_automation_estimate host_id fingerprint class reason =
      exec driver "set automation estimate" (put_automation host_id fingerprint class reason)

  unfoldable pub get_certificate_state : ℕ → String → Action String
  get_certificate_state host_id fingerprint =
      query driver "get certificate state" (state_of host_id fingerprint)

  unfoldable pub set_certificate_state : ℕ → String → String → Time → Action (Unit {0})
  set_certificate_state host_id fingerprint state now =
      exec driver "set certificate state" (put_state host_id fingerprint state (format_time now))
