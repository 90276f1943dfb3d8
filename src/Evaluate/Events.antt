-- ===== src/Evaluate/Events.antt =====
-- Which event an evaluation raises.
use certinv.Prelude.{ℕ, String, eq_iff, ◌≡◌, ◌≢◌, ◌⊎◌, ◌↔◌, none, some, arith}
use certinv.Clock.{Time}
use certinv.Config.{Float64, Thresholds}
use certinv.Cert.{Metadata}
use certinv.Evaluate.{Event, Result, event_for, certificate}

-- what an evaluation of `cert` with result `r` and the stored state `previous` may raise
pub record Raises (cert : Metadata) (previous : String) (host_id : ℕ) (r : Result) (e : Event)
    : Type 0 where
  pub fingerprint : e.fingerprint ≡ cert.fingerprint
  pub host : e.host_id ≡ host_id
  pub cause :
      ((previous ≡ "") × (e.kind ≡ "discovered"))
      ⊎ ((previous ≢ "") × (e.kind ≡ r.state) × (r.state ≢ previous) × (r.state ≢ "healthy"))

event_none :
    (previous state detail fp : String) (h : ℕ)
    → event_for previous state detail fp h ≡ none
    → (previous ≢ "") × ((state ≡ previous) ⊎ (state ≡ "healthy"))
unfolding event_for
event_none previous state detail fp h e =
    ground (arith, eq_iff previous "", eq_iff previous state, eq_iff state "healthy")

event_none_of :
    (previous state detail fp : String) (h : ℕ)
    → previous ≢ ""
    → (state ≡ previous) ⊎ (state ≡ "healthy")
    → event_for previous state detail fp h ≡ none
unfolding event_for
event_none_of previous state detail fp h ne c =
    ground (arith, eq_iff previous "", eq_iff previous state, eq_iff state "healthy")

event_some :
    (previous state detail fp : String) (h : ℕ) (e : Event)
    → event_for previous state detail fp h ≡ some e
    → (e.fingerprint ≡ fp)
      × (e.host_id ≡ h)
      × (((previous ≡ "") × (e.kind ≡ "discovered"))
          ⊎ ((previous ≢ "") × (e.kind ≡ state) × (state ≢ previous) × (state ≢ "healthy")))
unfolding event_for
event_some previous state detail fp h e p =
    ground (arith, eq_iff previous "", eq_iff previous state, eq_iff state "healthy")

module _ (float : Float64) (cert : Metadata) (thresholds : Thresholds float.F) (now : Time)
    (previous : String) (host_id : ℕ) where
  abbrev result : Result
  result = certificate float cert thresholds now previous host_id

  -- An evaluation raises no event exactly when a state was stored before and the new state is the
  -- same or healthy.
  pub certificate-no_event :
      (result.event ≡ none)
      ↔ ((previous ≢ "") × ((result.state ≡ previous) ⊎ (result.state ≡ "healthy")))
  unfolding certificate
  certificate-no_event =
      (event_none previous _ _ _ host_id, λ h. event_none_of previous _ _ _ host_id h.0 h.1)

  -- An event that an evaluation raises carries the certificate's fingerprint and the host. Either no
  -- state was stored before and its kind is "discovered", whatever the new state; or one was, and
  -- its kind is the new state, which differs from the stored one and is not healthy.
  pub certificate-Raises :
      (e : Event) → result.event ≡ some e → Raises cert previous host_id result e
  unfolding certificate
  certificate-Raises e h =
      let f = event_some previous _ _ _ host_id e h in
      record { fingerprint = f.0; host = f.1; cause = f.2 }
