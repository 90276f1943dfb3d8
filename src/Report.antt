-- ===== src/Report.antt =====
-- internal/report/automation.go: how likely a certificate's renewal is automated.
use certinv.Prelude.{
  pos, leb_ℤ, leb→le, le→leb, ◌≤ℤ◌, String, concat, Bool, true, false, not, ◌&&◌, List, [], ◌∷◌,
  eq_iff, ◌≡◌, ◌↔◌, any, arith, if◌then◌else◌,
}
use certinv.Text.{to_lower, trim_space, contains}
use certinv.Cert.{Metadata}

pub record AutomationEstimate : Type 0 where
  pub class : String
  pub reason : String

abbrev known_names : List String
known_names =
    "let's encrypt" ∷ "lets encrypt" ∷ "r10" ∷ "r11" ∷ "r12" ∷ "r13" ∷ "e5" ∷ "e6"
    ∷ "google trust services" ∷ "gts" ∷ "we1" ∷ "we2" ∷ "yr1" ∷ "zerossl" ∷ "buypass" ∷ []

unfoldable pub known_acme_issuer : String → Bool
known_acme_issuer issuer = any (contains issuer) known_names

abbrev pub issuer_text : Metadata → String
issuer_text cert = to_lower (trim_space (concat cert.issuer_cn (concat " " cert.issuer_org)))

unfoldable pub estimate_automation : Metadata → AutomationEstimate
estimate_automation cert =
    let issuer = issuer_text cert in
    if leb_ℤ cert.lifetime_days (pos 100) && known_acme_issuer issuer
    then record {
      class = "likely_auto";
      reason = "short-lived certificate from known ACME-capable issuer";
    }
    else if leb_ℤ (pos 200) cert.lifetime_days && not (known_acme_issuer issuer)
    then record {
      class = "likely_manual";
      reason = "long-lived certificate from issuer not in ACME shortlist";
    }
    else record { class = "unknown"; reason = "insufficient signal" }

-- the ladder of `estimate_automation`, its tests computed
abbrev verdict : Bool → Bool → Bool → String → String → String → AutomationEstimate
verdict short known long p q r =
    if short && known
    then record { class = "likely_auto"; reason = p }
    else if long && not known
    then record { class = "likely_manual"; reason = q }
    else record { class = "unknown"; reason = r }

verdict_auto :
    (short known long : Bool) (p q r : String)
    → ((verdict short known long p q r).class ≡ "likely_auto") ↔ ((short ≡ true) × (known ≡ true))
verdict_auto true true l p q r = ground arith
verdict_auto false true true p q r = ground (arith, eq_iff "unknown" "likely_auto")
verdict_auto false false true p q r = ground (arith, eq_iff "likely_manual" "likely_auto")
verdict_auto false k false p q r = ground (arith, eq_iff "unknown" "likely_auto")
verdict_auto true false true p q r = ground (arith, eq_iff "likely_manual" "likely_auto")
verdict_auto true false false p q r = ground (arith, eq_iff "unknown" "likely_auto")

verdict_manual :
    (short known long : Bool) (p q r : String)
    → ((verdict short known long p q r).class ≡ "likely_manual") ↔ ((known ≡ false) × (long ≡ true))
verdict_manual true true l p q r = ground (arith, eq_iff "likely_auto" "likely_manual")
verdict_manual false true l p q r = ground (arith, eq_iff "unknown" "likely_manual")
verdict_manual true false true p q r = ground arith
verdict_manual true false false p q r = ground (arith, eq_iff "unknown" "likely_manual")
verdict_manual false false true p q r = ground arith
verdict_manual false false false p q r = ground (arith, eq_iff "unknown" "likely_manual")

abbrev pub known : Metadata → Bool
known cert = known_acme_issuer (issuer_text cert)

-- The estimate is "likely_auto" exactly for a lifetime of at most 100 days under a known issuer,
-- and "likely_manual" exactly for a lifetime of at least 200 days under an unknown one.
pub estimate_automation_exact :
    (cert : Metadata)
    → (((estimate_automation cert).class ≡ "likely_auto")
        ↔ ((cert.lifetime_days ≤ℤ pos 100) × (known cert ≡ true)))
      × (((estimate_automation cert).class ≡ "likely_manual")
          ↔ ((known cert ≡ false) × (pos 200 ≤ℤ cert.lifetime_days)))
unfolding estimate_automation
estimate_automation_exact cert =
    let short = leb_ℤ cert.lifetime_days (pos 100) in
    let long = leb_ℤ (pos 200) cert.lifetime_days in
    let a = verdict_auto short (known cert) long _ _ _ in
    let m = verdict_manual short (known cert) long _ _ _ in
    (
      (λ e. (leb→le _ _ (a.0 e).0, (a.0 e).1), λ h. a.1 (le→leb _ _ h.0, h.1)),
      (λ e. ((m.0 e).0, leb→le _ _ (m.0 e).1), λ h. m.1 (h.0, le→leb _ _ h.1)),
    )
