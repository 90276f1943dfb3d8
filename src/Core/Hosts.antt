-- ===== src/Core/Hosts.antt =====
-- The work on one host: `processHost`.
pub mod Probing
pub mod Owned
use certinv.Prelude.{
  ℕ, ◌+◌, leb, ltb, ℤ, String, concat, Bool, true, false, not, ◌&&◌, Option, none, some, List, [],
  ◌∷◌, ◌++◌, ◌==◌, if◌then◌else◌,
}
use certinv.Clock.{Time}
use certinv.Cert.{Metadata}
use certinv.Discover.{Host}
use certinv.Evaluate.{Event, Result as Evaluation, certificate}
use certinv.Config.{Float64}
use certinv.Notify.{HttpNotifier}
use certinv.Report.{AutomationEstimate, estimate_automation}
use certinv.Result.{Error, wrap, Result, ok, err}
use certinv.Store.Hosts.{upsert_host, mark_host_resolved, mark_host_probed}
use certinv.Store.Certificates.{
  HostCertificate, latest_host_certificate, upsert_certificate, link_host_certificate,
  set_http_status, set_automation_estimate, get_certificate_state, set_certificate_state,
}
use certinv.Store.Events.{record_event}
use certinv.Core.{Outside, Target, ProbeResult, Runner, World, Step, in_store, ask}
use certinv.Core.Notifying.{Notified, notify_event}

pub record HostResult : Type 0 where
  pub host : Host
  pub resolved : Bool
  pub probed : Bool
  pub evented : Bool
  pub notified : Bool
  pub notify_failed : Bool
  pub likely_auto : Bool
  pub likely_manual : Bool
  pub unknown_auto : Bool
  pub failure : Option Error

-- hostResult{host: host, resolved: ..., probed: ..., err: ...}
abbrev pub stopped : Host → Bool → Bool → Option Error → HostResult
stopped host resolved probed failure = record {
  host = host;
  resolved = resolved;
  probed = probed;
  evented = false;
  notified = false;
  notify_failed = false;
  likely_auto = false;
  likely_manual = false;
  unknown_auto = false;
  failure = failure;
}

-- A step of `processHost` goes on with a value or returns a result early.
pub data Outcome (A : Type 0) : Type 0 where
  go : A → Outcome A
  return : HostResult → Outcome A

abbrev pub Stage : Type 0 → Type 0
Stage A = World → Outcome A × World

abbrev pub continue : {A B : Type 0} → Outcome A → (A → Stage B) → Stage B
continue (go a) f w = f a w
continue (return r) f w = (return r, w)

infixl 5 ◌>>=◌ ◌>>◌
unfoldable pub ◌>>=◌ : {A B : Type 0} → Stage A → (A → Stage B) → Stage B
◌>>=◌ m f w = let (o, w') = m w in continue o f w'

abbrev pub ◌>>◌ : {B : Type 0} → Stage (Unit {0}) → Stage B → Stage B
m >> k = m >>= λ _. k

abbrev pub outcome : {A : Type 0} → (Error → HostResult) → Result A → Outcome A
outcome stop (ok a) = go a
outcome stop (err e) = return (stop e)

-- `if err != nil { return ... }` behind a step
unfoldable pub try : {A : Type 0} → (Error → HostResult) → Step A → Stage A
try stop m w = let (r, w') = m w in (outcome stop r, w')

-- a certificate newer than the one that the host had
abbrev pub is_renewal : HostCertificate → Metadata → Bool
is_renewal previous cert =
    not (previous.fingerprint == "")
    && not (previous.fingerprint == cert.fingerprint)
    && ltb previous.not_after cert.not_after

abbrev pub renewed : Metadata → ℕ → Event
renewed cert host_id = record {
  kind = "renewed";
  fingerprint = cert.fingerprint;
  host_id = host_id;
  detail = "certificate fingerprint changed and not_after increased";
}

-- the event of the evaluation, unless the certificate is a renewal
abbrev pub event_to_record : HostCertificate → Metadata → ℕ → Option Event → Option Event
event_to_record previous cert host_id event =
    if is_renewal previous cert then some (renewed cert host_id) else event

-- the result with the class of the estimate
abbrev pub estimated : Host → String → HostResult
estimated host class =
    let r = stopped host true true none in
    if class == "likely_auto"
    then record r { likely_auto = true }
    else if class == "likely_manual"
    then record r { likely_manual = true }
    else record r { unknown_auto = true }

module _ (out : Outside) where
  -- `Resolver.Resolve`, `Prober.Probe` and `Now`, which change nothing that the scan keeps, but for
  -- the record of the target probed
  abbrev pub now : Stage Time
  now w = (go (out.clock w.calls), record w { calls = w.calls + 1 })

  abbrev pub resolve : Host → Step Bool
  resolve host w = (out.resolve w.calls host.hostname, record w { calls = w.calls + 1 })

  abbrev pub target_of : Host → Target
  target_of host = record { hostname = host.hostname; port = host.port }

  abbrev pub probe : Host → Step ProbeResult
  probe host w = (
    out.probe w.calls (target_of host),
    record w { calls = w.calls + 1; probed = w.probed ++ target_of host ∷ [] },
  )

  -- go on only with a host that resolves
  abbrev pub if_resolved : Host → Bool → Stage (Unit {0})
  if_resolved host true w = (go tt, w)
  if_resolved host false w = (return (stopped host false false none), w)

  abbrev pub with_notified : HostResult → Notified → HostResult
  with_notified r n = record r { evented = true; notified = n.notified; notify_failed = n.failed }

  unfoldable pub emit :
      List HttpNotifier → Host → HostResult → Time → Option Event → Stage HostResult
  emit notifiers host r at none = λ w. (go r, w)
  emit notifiers host r at (some event) = do
    id ← try (λ e. stopped host true true (some e)) (in_store (record_event out.driver event at))
    λ w. let (n, w') = notify_event out notifiers id event at w in (go (with_notified r n), w')

module _ (float : Float64) (out : Outside) (r : Runner float.F) where
  -- the part behind the probe that stores the certificate; the result is what the host had before
  unfoldable pub store_certificate : Host → ℕ → ProbeResult → Time → Stage HostCertificate
  store_certificate host id p at = do
    let stop = λ (e : Error). stopped host true false (some e)
    let cert = p.certificate
    previous ← try stop (in_store (latest_host_certificate out.driver id))
    try stop (in_store (upsert_certificate out.driver cert at))
    try stop (
        in_store (
          link_host_certificate out.driver id cert.fingerprint cert.chain_complete
            cert.hostname_match at))
    try stop (in_store (set_http_status out.driver id cert.fingerprint p.http_status))
    try stop (in_store (mark_host_probed out.driver host.hostname host.port at))
    λ w. (go previous, w)

  -- the part behind it: the state, the estimate, and the event
  unfoldable pub evaluate_certificate :
      Host → ℕ → Metadata → HostCertificate → Time → Stage HostResult
  evaluate_certificate host id cert previous at = do
    let stop = λ (e : Error). stopped host true true (some e)
    state ← try stop (in_store (get_certificate_state out.driver id cert.fingerprint))
    let evaluation = certificate float cert r.config.thresholds at state id
    try stop (in_store (set_certificate_state out.driver id cert.fingerprint evaluation.state at))
    let automation = estimate_automation cert
    try stop (
        in_store (
          set_automation_estimate out.driver id cert.fingerprint automation.class
            automation.reason))
    emit out r.notifiers host (estimated host automation.class) at
        (event_to_record previous cert id evaluation.event)

  unfoldable pub process_host_stages : Host → Stage HostResult
  process_host_stages host = do
    let early = λ (e : Error). stopped host false false (some e)
    at ← now out
    id ← try early (in_store (upsert_host out.driver host "unresolved" at))
    resolved ← try (λ e. early (wrap (concat "resolve " host.hostname) e)) (resolve out host)
    if_resolved out host resolved
    try early (in_store (mark_host_resolved out.driver host.hostname host.port at))
    p ← try (λ e. stopped host true false (some e)) (probe out host)
    previous ← store_certificate host id p at
    evaluate_certificate host id p.certificate previous at

  abbrev pub result_of : Outcome HostResult × World → HostResult × World
  result_of (go r, w) = (r, w)
  result_of (return r, w) = (r, w)

  unfoldable pub process_host : Host → World → HostResult × World
  unfolding process_host_stages
  process_host host w = result_of (process_host_stages host w)
