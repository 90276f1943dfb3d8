-- ===== src/Evaluate.antt =====
-- internal/evaluate/evaluate.go: the state of a certificate, and the event that a change raises.
-- The kinds of events that stand for states are spelled like the states, as in the source.
pub mod Severity
pub mod Events
use certinv.Prelude.{
  ℕ, ℤ, pos, ◌*ℤ◌, leb_ℤ, ltb_ℤ, String, Bool, not, ◌||◌, ◌&&◌, Option, none, some, ◌==◌,
  if◌then◌else◌,
}
use certinv.Clock.{Time, Duration, day, sub, wrap}
use certinv.Config.{Float64, Threshold, Thresholds}
use certinv.Cert.{Metadata}

pub record Event : Type 0 where
  pub kind : String
  pub fingerprint : String
  pub host_id : ℕ
  pub detail : String

pub record Result : Type 0 where
  pub state : String
  pub remaining : Duration
  pub warn_window : Duration
  pub alert_window : Duration
  pub event : Option Event
  pub misconfigured : Bool

-- `cert` has TLS configuration issues
abbrev pub has_issues : Metadata → Bool
has_issues cert = not cert.chain_complete || not cert.hostname_match || cert.is_self_signed

-- the switch: the state, and the detail of its event
unfoldable pub classify : Metadata → Duration → Duration → Duration → String × String
classify cert remaining warn_window alert_window =
    if leb_ℤ remaining (pos 0)
    then ("expired", "certificate is expired")
    else if has_issues cert
    then ("misconfigured", "certificate has TLS configuration issues")
    else if leb_ℤ remaining alert_window
    then ("alert", "certificate crossed alert threshold")
    else if leb_ℤ remaining warn_window
    then ("warn", "certificate crossed warn threshold")
    else ("healthy", "")

unfoldable pub event_for : String → String → String → String → ℕ → Option Event
event_for previous_state state detail fingerprint host_id =
    if previous_state == ""
    then some (record {
      kind = "discovered";
      fingerprint = fingerprint;
      host_id = host_id;
      detail = "certificate discovered";
    })
    else if not (previous_state == state) && not (state == "healthy")
    then some
        (record { kind = state; fingerprint = fingerprint; host_id = host_id; detail = detail })
    else none

module _ (float : Float64) where
  open float use {F}

  unfoldable pub threshold_window : ℤ → Threshold F → Duration
  threshold_window lifetime_days threshold =
      let ratio_window =
        float.trunc (float.mul (float.of_int (wrap (lifetime_days *ℤ pos day))) threshold.ratio) in
      let floor_window = wrap (threshold.floor_days *ℤ pos day) in
      if ltb_ℤ ratio_window floor_window then floor_window else ratio_window

  unfoldable pub certificate : Metadata → Thresholds F → Time → String → ℕ → Result
  certificate cert thresholds now previous_state host_id =
      let remaining = sub cert.not_after now in
      let warn_window = threshold_window cert.lifetime_days thresholds.warn in
      let alert_window = threshold_window cert.lifetime_days thresholds.alert in
      let (state, detail) = classify cert remaining warn_window alert_window in
      record {
        state = state;
        remaining = remaining;
        warn_window = warn_window;
        alert_window = alert_window;
        event = event_for previous_state state detail cert.fingerprint host_id;
        misconfigured = state == "misconfigured";
      }
