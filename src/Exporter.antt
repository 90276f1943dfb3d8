-- ===== src/Exporter.antt =====
-- internal/exporter/exporter.go: what the exporter keeps of scans, and the samples that it gives. The
-- Prometheus client, which writes the samples, is left out.
pub mod Ratio
use certinv.Prelude.{
  ℕ, ◌/◌, ℤ, pos, sub_ℕ, leb_ℤ, String, Bool, true, false, List, [], ◌∷◌, ◌++◌, map, if◌then◌else◌,
}
use certinv.Clock.{Time, Duration, second, sub}
use certinv.Config.{Float64}
use certinv.Result.{Result, ok, err}
use certinv.Store.Snapshots.{CertificateMetric, HostMetric, MetricsSnapshot, flat_map}

-- the operations of `float64` that only the exporter uses; `seconds` is `Duration.Seconds`
pub record Division (float : Float64) : Type 0 where
  pub seconds : Duration → float.F
  pub div : float.F → float.F → float.F

-- The fields under the mutex.
pub record Exporter (F : Type 0) : Type 0 where
  pub last_duration : F
  pub last_success_unix : F

-- the descriptors
pub data Metric : Type 0 where
  cert_not_after cert_lifetime_days cert_remaining_ratio host_reachable scan_duration
        scan_last_success :
      Metric

pub data Label : Type 0 where
  name : String → Label
  port_number : ℤ → Label

pub record Sample (F : Type 0) : Type 0 where
  pub metric : Metric
  pub labels : List Label
  pub value : F

-- `Time.Unix`; the zero time is 62135596800 seconds before 1970
abbrev unix : Time → ℤ
unix t = sub_ℕ (t / second) 62135596800

module _ (float : Float64) (division : Division float) where
  unfoldable pub record_scan :
      Duration → (success : Bool) → (occurred_at : Time) → Exporter float.F → Exporter float.F
  record_scan duration success occurred_at e = record {
    last_duration = division.seconds duration;
    last_success_unix = if success then float.of_int (unix occurred_at) else e.last_success_unix;
  }

  unfoldable pub remaining_ratio : CertificateMetric → Time → float.F
  remaining_ratio cert now =
      let lifetime = sub cert.not_after cert.not_before in
      let remaining = sub cert.not_after now in
      let ratio = division.div (division.seconds remaining) (division.seconds lifetime) in
      if leb_ℤ lifetime (pos 0)
      then float.of_int (pos 0)
      else if leb_ℤ remaining (pos 0)
      then float.of_int (pos 0)
      else if float.lt (float.of_int (pos 1)) ratio
      then float.of_int (pos 1)
      else ratio

  abbrev pub labels_of : CertificateMetric → List Label
  labels_of cert =
      name cert.fingerprint ∷ name cert.issuer ∷ name cert.common_name ∷ name cert.automation ∷ []

  abbrev pub certificate_samples : Time → CertificateMetric → List (Sample float.F)
  certificate_samples now cert =
      record {
        metric = cert_not_after;
        labels = labels_of cert;
        value = float.of_int (unix cert.not_after);
      }
      ∷ record {
        metric = cert_lifetime_days;
        labels = labels_of cert;
        value = float.of_int cert.lifetime_days;
      }
      ∷ record {
        metric = cert_remaining_ratio;
        labels = labels_of cert;
        value = remaining_ratio cert now;
      }
      ∷ []

  abbrev pub host_sample : HostMetric → Sample float.F
  host_sample host = record {
    metric = host_reachable;
    labels = name host.hostname ∷ port_number host.port ∷ [];
    value = if host.reachable then float.of_int (pos 1) else float.of_int (pos 0);
  }

  -- the samples of a snapshot, and none where it could not be read
  abbrev pub snapshot_samples : Time → Result MetricsSnapshot → List (Sample float.F)
  snapshot_samples now (err e) = []
  snapshot_samples now (ok snapshot) =
      flat_map (certificate_samples now) snapshot.certificates ++ map host_sample snapshot.hosts

  -- `Collect`
  unfoldable pub collect : Exporter float.F → Time → Result MetricsSnapshot → List (Sample float.F)
  collect e now snapshot =
      snapshot_samples now snapshot
      ++ record { metric = scan_duration; labels = []; value = e.last_duration }
        ∷ record { metric = scan_last_success; labels = []; value = e.last_success_unix }
        ∷ []
