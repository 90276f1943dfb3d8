-- ===== src/Evaluate/Severity.antt =====
-- How the state of a certificate follows from its dates, its flags and the windows.
use certinv.Prelude.{
  ℕ, pos, ◌≤ℤ◌, leb_ℤ, leb_ℤ_mono, ◌≤◌, String, Bool, true, false, ◌==◌, ◌≡◌, refl, arith,
  if◌then◌else◌,
}
use certinv.Clock.{Time, Duration, sub, sub_mono}
use certinv.Config.{Float64, Thresholds}
use certinv.Cert.{Metadata}
use certinv.Evaluate.{has_issues, classify, certificate}

-- the order of the states, the worst last
abbrev pub severity : String → ℕ
severity state =
    if state == "expired"
    then 4
    else if state == "misconfigured"
    then 3
    else if state == "alert"
    then 2
    else if state == "warn"
    then 1
    else 0

-- the rank of the first test that holds
abbrev rank : Bool → Bool → Bool → Bool → ℕ
rank expired issues alert warn =
    if expired then 4 else if issues then 3 else if alert then 2 else if warn then 1 else 0

-- the ladder of `classify`, its tests computed
abbrev verdict :
    Bool → Bool → Bool → Bool → String → String → String → String → String → String × String
verdict a b c d p q r s t =
    if a
    then ("expired", p)
    else if b
    then ("misconfigured", q)
    else if c
    then ("alert", r)
    else if d
    then ("warn", s)
    else ("healthy", t)

severity-verdict :
    (a b c d : Bool) (p q r s t : String) → severity (verdict a b c d p q r s t).0 ≡ rank a b c d
severity-verdict true b c d p q r s t = refl
severity-verdict false true c d p q r s t = refl
severity-verdict false false true d p q r s t = refl
severity-verdict false false false true p q r s t = refl
severity-verdict false false false false p q r s t = refl

severity-classify :
    (cert : Metadata) (left warn alert : Duration)
    → severity (classify cert left warn alert).0
      ≡ rank (leb_ℤ left (pos 0)) (has_issues cert) (leb_ℤ left alert) (leb_ℤ left warn)
unfolding classify
severity-classify cert left warn alert =
    severity-verdict (leb_ℤ left (pos 0)) (has_issues cert) (leb_ℤ left alert) (leb_ℤ left warn) _ _
      _ _ _

rank_mono :
    (a b c d a' c' d' : Bool)
    → (a ≡ true → a' ≡ true)
    → (c ≡ true → c' ≡ true)
    → (d ≡ true → d' ≡ true)
    → rank a b c d ≤ rank a' b c' d'
rank_mono a b c d a' c' d' f g h = ground arith

classify_mono :
    (cert : Metadata) (less more warn alert : Duration)
    → less ≤ℤ more
    → severity (classify cert more warn alert).0 ≤ severity (classify cert less warn alert).0
classify_mono cert less more warn alert h =
    rw (severity-classify cert more warn alert, severity-classify cert less warn alert)
      (rank_mono _ (has_issues cert) _ _ _ _ _ (leb_ℤ_mono less more (pos 0) h)
        (leb_ℤ_mono less more alert h) (leb_ℤ_mono less more warn h))

module _ (float : Float64) (cert : Metadata) (thresholds : Thresholds float.F) where
  -- As time passes a certificate's state never improves: with the same thresholds, a later
  -- evaluation is at least as severe (healthy, warn, alert, misconfigured, expired), whatever
  -- states were stored before.
  pub severity-certificate_mono :
      (now later : Time) (previous previous' : String) (host_id : ℕ)
      → now ≤ later
      → severity (certificate float cert thresholds now previous host_id).state
        ≤ severity (certificate float cert thresholds later previous' host_id).state
  unfolding certificate
  severity-certificate_mono now later previous previous' host_id h =
      classify_mono cert (sub cert.not_after later) (sub cert.not_after now) _ _
        (sub_mono cert.not_after now later h)
