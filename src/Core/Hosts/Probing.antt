-- ===== src/Core/Hosts/Probing.antt =====
-- Which targets the work on a host connects to.
use certinv.Prelude.{
  ℕ, ◌+◌, Bool, true, false, Option, none, some, List, [], ◌∷◌, All, All-append, ◌≡◌, refl, sym,
  ◌∙◌, subst, inl, inr, Bool-cases, Option-cases,
}
use certinv.Clock.{Time}
use certinv.Config.{Float64}
use certinv.Cert.{Metadata}
use certinv.Discover.{Host}
use certinv.Evaluate.{Event}
use certinv.Notify.{HttpNotifier, handles}
use certinv.Result.{Error, Result, ok, err}
use certinv.Store.Certificates.{HostCertificate}
use certinv.Core.{Outside, World, Target, ProbeResult, Runner, Step}
use certinv.Core.Notifying.{deliver, notify, notify_all, notify_event, mark_if_sent, accepted}
use certinv.Core.Hosts.{
  HostResult, Outcome, go, return, Stage, continue, ◌>>=◌, try, now, probe, target_of, if_resolved,
  emit, store_certificate, evaluate_certificate, process_host_stages, process_host, result_of,
}

deliver-probed :
    (n : HttpNotifier) (event : Event) (r : Result ℕ) (w : World)
    → (deliver n event r w).1.probed ≡ w.probed
deliver-probed n event (err e) w = refl
deliver-probed n event (ok status) w = elim (Bool-cases (accepted status)) [
  | inl y ↦ rw y refl
  | inr z ↦ rw z refl
]

module _ (out : Outside) where
  notify-probed :
      (n : HttpNotifier) (event : Event) (w : World) → (notify out n event w).1.probed ≡ w.probed
  unfolding notify
  notify-probed n event w = elim (Bool-cases (handles n event.kind)) [
    | inl y ↦
        rw y (deliver-probed n event (out.post w.calls n event) (record w { calls = w.calls + 1 }))
    | inr z ↦ rw z refl
  ]

  notify_all-probed :
      (notifiers : List HttpNotifier) (event : Event) (handled : Bool) (w : World)
      → (notify_all out notifiers event handled w).1.probed ≡ w.probed
  unfolding notify_all
  notify_all-probed [] event handled w = refl
  notify_all-probed (n ∷ notifiers) event handled w = elim (Bool-cases (handles n event.kind)) [
    | inl y ↦ elim (Option-cases (notify out n event w).0) [
      | inl fine ↦
          rw (y, fine)
            (notify_all-probed notifiers event true (notify out n event w).1
              ∙ notify-probed n event w)
      | inr (e, failed) ↦ rw (y, failed) (notify-probed n event w)
    ]
    | inr z ↦ rw z (notify_all-probed notifiers event handled w)
  ]

  mark_if_sent-probed :
      (id : ℕ) (at : Time) (sent : Option Bool) (w : World)
      → (mark_if_sent out id at sent w).1.probed ≡ w.probed
  mark_if_sent-probed id at none w = refl
  mark_if_sent-probed id at (some handled) w = refl

  -- a notification probes nothing
  pub notify_event-probed :
      (notifiers : List HttpNotifier) (id : ℕ) (event : Event) (at : Time) (w : World)
      → (notify_event out notifiers id event at w).1.probed ≡ w.probed
  unfolding notify_event
  notify_event-probed notifiers id event at w =
      let after = notify_all out notifiers event false w in
      mark_if_sent-probed id at after.0 after.1 ∙ notify_all-probed notifiers event false w

-- All targets probed before and after have the property.
record Keeps (P : Target → Type 0) {A : Type 0} (m : Stage A) : Type 0 where
  at : (w : World) → All P w.probed → All P (m w).1.probed

module _ (P : Target → Type 0) where
  continue-Keeps :
      {A B : Type 0} (o : Outcome A) (f : A → Stage B)
      → ((a : A) → Keeps P (f a))
      → Keeps P (continue o f)
  continue-Keeps (go a) f h = record { at = (h a).at }
  continue-Keeps (return r) f h = record { at = λ w k. k }

  >>=-Keeps :
      {A B : Type 0} {m : Stage A} {f : A → Stage B}
      → Keeps P m
      → ((a : A) → Keeps P (f a))
      → Keeps P (m >>= f)
  unfolding ◌>>=◌
  >>=-Keeps {m} {f} hm hf = record {
    at = λ w k. (continue-Keeps (m w).0 f hf).at (m w).1 (hm.at w k);
  }

  -- a step that probes nothing
  try-Keeps :
      {A : Type 0} (stop : Error → HostResult) (m : Step A)
      → ((w : World) → (m w).1.probed ≡ w.probed)
      → Keeps P (try stop m)
  unfolding try
  try-Keeps stop m same = record { at = λ w k. subst (All P) (sym (same w)) k }

  module _ (out : Outside) where
    now-Keeps : Keeps P (now out)
    now-Keeps = record { at = λ w k. k }

    if_resolved-Keeps : (host : Host) (b : Bool) → Keeps P (if_resolved out host b)
    if_resolved-Keeps host true = record { at = λ w k. k }
    if_resolved-Keeps host false = record { at = λ w k. k }

    probe-Keeps :
        (stop : Error → HostResult) (host : Host)
        → P (target_of out host)
        → Keeps P (try stop (probe out host))
    unfolding try
    probe-Keeps stop host p = record {
      at = λ w k. All-append P w.probed (target_of out host ∷ []) k (p, tt);
    }

    emit-Keeps :
        (notifiers : List HttpNotifier) (host : Host) (r : HostResult) (at : Time)
        (event : Option Event)
        → Keeps P (emit out notifiers host r at event)
    unfolding emit
    emit-Keeps notifiers host r at none = record { at = λ w k. k }
    emit-Keeps notifiers host r at (some event) = >>=-Keeps (try-Keeps _ _ λ w. refl) (λ id.
        record {
          at = λ w k. subst (All P) (sym (notify_event-probed out notifiers id event at w)) k;
        })

  module _ (float : Float64) (out : Outside) (r : Runner float.F) where
    store_certificate-Keeps :
        (host : Host) (id : ℕ) (p : ProbeResult) (at : Time)
        → Keeps P (store_certificate float out r host id p at)
    unfolding store_certificate
    store_certificate-Keeps host id p at = >>=-Keeps (try-Keeps _ _ λ w. refl) λ previous.
        >>=-Keeps (try-Keeps _ _ λ w. refl) λ _. >>=-Keeps (try-Keeps _ _ λ w. refl) λ _.
          >>=-Keeps (try-Keeps _ _ λ w. refl)
            λ _. >>=-Keeps (try-Keeps _ _ λ w. refl) λ _. record { at = λ w k. k }

    evaluate_certificate-Keeps :
        (host : Host) (id : ℕ) (cert : Metadata) (previous : HostCertificate) (at : Time)
        → Keeps P (evaluate_certificate float out r host id cert previous at)
    unfolding evaluate_certificate
    evaluate_certificate-Keeps host id cert previous at =
        >>=-Keeps (try-Keeps _ _ λ w. refl) λ state.
          >>=-Keeps (try-Keeps _ _ λ w. refl)
            λ _. >>=-Keeps (try-Keeps _ _ λ w. refl) λ _. emit-Keeps out r.notifiers host _ at _

    process_host_stages-Keeps :
        (host : Host) → P (target_of out host) → Keeps P (process_host_stages float out r host)
    unfolding process_host_stages
    process_host_stages-Keeps host p = >>=-Keeps (now-Keeps out) λ at.
        >>=-Keeps (try-Keeps _ _ λ w. refl) λ id. >>=-Keeps (try-Keeps _ _ λ w. refl) λ resolved.
          >>=-Keeps (if_resolved-Keeps out host resolved) λ _.
            >>=-Keeps (try-Keeps _ _ λ w. refl) λ _. >>=-Keeps (probe-Keeps out _ host p) λ probed.
              >>=-Keeps (store_certificate-Keeps host id probed at)
                λ previous. evaluate_certificate-Keeps host id probed.certificate previous at

    result_of-world : (o : Outcome HostResult) (w : World) → (result_of float out r (o, w)).1 ≡ w
    result_of-world (go x) w = refl
    result_of-world (return x) w = refl

    -- The work on a host keeps what holds of every target probed, if it holds of the host's own.
    pub process_host-probes :
        (host : Host) (w : World)
        → P (target_of out host)
        → All P w.probed
        → All P (process_host float out r host w).1.probed
    unfolding process_host
    process_host-probes host w p k =
        let after = process_host_stages float out r host w in
        subst (λ v. All P v.probed) (sym (result_of-world after.0 after.1))
          ((process_host_stages-Keeps host p).at w k)
