-- ===== src/Tests/Certificates.antt =====
-- Evaluations of a certificate at concrete inputs.
use certinv.Prelude.{
  pos, ◌*ℤ◌, ◌*◌, ◌≤◌, ◌≤ℤ◌, String, true, false, none, ◌≡◌, ◌≢◌, ◌⊎◌, ◌↔◌, refl, arith,
}
use certinv.Clock.{day, wrap, sub}
use certinv.Cert.{lifetime_days, lifetime_days_no_wrap}
use certinv.Evaluate.{certificate, threshold_window, classify, event_for}
use certinv.Evaluate.Events.{Raises, certificate-Raises, certificate-no_event}
use certinv.Evaluate.Severity.{severity, severity-certificate_mono}
use certinv.Report.{known, estimate_automation, estimate_automation_exact}
use certinv.Tests.Data.{whole, thresholds, cert}

severity-certificate_mono_example :
    severity (certificate whole cert thresholds 0 "" 1).state
    ≤ severity (certificate whole cert thresholds (85 * day) "healthy" 1).state
severity-certificate_mono_example =
    severity-certificate_mono whole cert thresholds 0 (85 * day) "" "healthy" 1 (omega arith)

certificate-Raises_example :
    Raises cert "healthy" 1 (certificate whole cert thresholds (85 * day) "healthy" 1) (record {
      kind = "alert";
      fingerprint = "ab";
      host_id = 1;
      detail = "certificate crossed alert threshold";
    })
unfolding certificate event_for classify sub threshold_window ◌*ℤ◌ wrap
certificate-Raises_example =
    certificate-Raises whole cert thresholds (85 * day) "healthy" 1
      (record {
        kind = "alert";
        fingerprint = "ab";
        host_id = 1;
        detail = "certificate crossed alert threshold";
      })
      refl

certificate-no_event_example :
    ((certificate whole cert thresholds (85 * day) "alert" 1).event ≡ none) ↔ (
      (◌≢◌ {A = String} "alert" "")
      × (((certificate whole cert thresholds (85 * day) "alert" 1).state ≡ "alert")
          ⊎ ((certificate whole cert thresholds (85 * day) "alert" 1).state ≡ "healthy")))
certificate-no_event_example = certificate-no_event whole cert thresholds (85 * day) "alert" 1

estimate_automation_exact_example :
    (((estimate_automation cert).class ≡ "likely_auto")
      ↔ ((cert.lifetime_days ≤ℤ pos 100) × (known cert ≡ true)))
    × (((estimate_automation cert).class ≡ "likely_manual")
        ↔ ((known cert ≡ false) × (pos 200 ≤ℤ cert.lifetime_days)))
estimate_automation_exact_example = estimate_automation_exact cert

lifetime_days_no_wrap_example :
    wrap (lifetime_days 0 (90 * day) *ℤ pos day) ≡ lifetime_days 0 (90 * day) *ℤ pos day
lifetime_days_no_wrap_example = lifetime_days_no_wrap 0 (90 * day)
