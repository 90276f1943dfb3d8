-- ===== src/Core/Hosts/Owned.antt =====
-- The work on a host leaves what users manage.
use certinv.Prelude.{ℕ, Bool, true, false, Option, none, some, List, ◌≡◌, refl, sym, subst}
use certinv.Clock.{Time}
use certinv.Config.{Float64}
use certinv.Cert.{Metadata}
use certinv.Discover.{Host}
use certinv.Evaluate.{Event}
use certinv.Notify.{HttpNotifier}
use certinv.Result.{Error}
use certinv.Store.Schema.{Db}
use certinv.Store.Exec.{Action}
use certinv.Store.Exec.Keeps.{Keeps}
use certinv.Store.Certificates.{HostCertificate}
use certinv.Store.Managed.Owned.{
  SameOwned, upsert_host-Stays, mark_host_resolved-Stays, mark_host_probed-Stays,
  latest_host_certificate-Stays, upsert_certificate-Stays, link_host_certificate-Stays,
  set_http_status-Stays, set_automation_estimate-Stays, get_certificate_state-Stays,
  set_certificate_state-Stays, record_event-Stays,
}
use certinv.Core.{Outside, World, ProbeResult, Runner, Step, in_store}
use certinv.Core.Owned.{Leaves, notify_event-Leaves}
use certinv.Core.Hosts.{
  HostResult, Outcome, go, return, Stage, continue, ◌>>=◌, try, if_resolved, emit,
  store_certificate, evaluate_certificate, process_host_stages, process_host, result_of,
}

module _ (float : Float64) (out : Outside) (r : Runner float.F) where
  result_of-world : (o : Outcome HostResult) (w : World) → (result_of float out r (o, w)).1 ≡ w
  result_of-world (go x) w = refl
  result_of-world (return x) w = refl

module _ {before : Db} where
  continue-Leaves :
      {A B : Type 0} (o : Outcome A) (f : A → Stage B)
      → ((a : A) → Leaves before (f a))
      → Leaves before (continue o f)
  continue-Leaves (go a) f h = record { at = (h a).at }
  continue-Leaves (return r) f h = record { at = λ w p. p }

  >>=-Leaves :
      {A B : Type 0} {m : Stage A} {f : A → Stage B}
      → Leaves before m
      → ((a : A) → Leaves before (f a))
      → Leaves before (m >>= f)
  unfolding ◌>>=◌
  >>=-Leaves {m} {f} hm hf = record {
    at = λ w p. (continue-Leaves (m w).0 f hf).at (m w).1 (hm.at w p);
  }

  -- a method of the store, and a call to the outside
  try-Leaves :
      {A : Type 0} (failed : Error → HostResult) (m : Action A)
      → Keeps (SameOwned before) m
      → Leaves before (try failed (in_store m))
  unfolding try
  try-Leaves failed m h = record { at = λ w p. h.at w.conn p }

  ask-Leaves :
      {A : Type 0} (failed : Error → HostResult) (m : Step A)
      → ((w : World) → (m w).1.conn ≡ w.conn)
      → Leaves before (try failed m)
  unfolding try
  ask-Leaves failed m same = record {
    at = λ w p. subst (λ c. SameOwned before c.db) (sym (same w)) p;
  }

  module _ (out : Outside) where
    if_resolved-Leaves : (host : Host) (b : Bool) → Leaves before (if_resolved out host b)
    if_resolved-Leaves host true = record { at = λ w p. p }
    if_resolved-Leaves host false = record { at = λ w p. p }

    emit-Leaves :
        (notifiers : List HttpNotifier) (host : Host) (r : HostResult) (at : Time)
        (event : Option Event)
        → Leaves before (emit out notifiers host r at event)
    unfolding emit
    emit-Leaves notifiers host r at none = record { at = λ w p. p }
    emit-Leaves notifiers host r at (some event) =
        >>=-Leaves (try-Leaves _ _ (record_event-Stays before out.driver event at)) (λ id. record {
          at = λ w p. (notify_event-Leaves {before = before} out notifiers id event at).at w p;
        })

  module _ (float : Float64) (out : Outside) (r : Runner float.F) where
    store_certificate-Leaves :
        (host : Host) (id : ℕ) (p : ProbeResult) (at : Time)
        → Leaves before (store_certificate float out r host id p at)
    unfolding store_certificate
    store_certificate-Leaves host id p at =
        >>=-Leaves (try-Leaves _ _ (latest_host_certificate-Stays before out.driver id))
          (λ previous.
            >>=-Leaves
              (try-Leaves _ _ (upsert_certificate-Stays before out.driver p.certificate at))
              (λ _.
                >>=-Leaves
                  (try-Leaves _ _ (link_host_certificate-Stays before out.driver id _ _ _ at))
                  (λ _.
                    >>=-Leaves (try-Leaves _ _ (set_http_status-Stays before out.driver id _ _))
                      (λ _.
                        >>=-Leaves
                          (try-Leaves _ _ (mark_host_probed-Stays before out.driver _ _ at))
                          (λ _. record { at = λ w k. k })))))

    evaluate_certificate-Leaves :
        (host : Host) (id : ℕ) (cert : Metadata) (previous : HostCertificate) (at : Time)
        → Leaves before (evaluate_certificate float out r host id cert previous at)
    unfolding evaluate_certificate
    evaluate_certificate-Leaves host id cert previous at =
        >>=-Leaves (try-Leaves _ _ (get_certificate_state-Stays before out.driver id _)) (λ state.
          >>=-Leaves (try-Leaves _ _ (set_certificate_state-Stays before out.driver id _ _ at))
            (λ _.
              >>=-Leaves (try-Leaves _ _ (set_automation_estimate-Stays before out.driver id _ _ _))
                (λ _. emit-Leaves out r.notifiers host _ at _)))

    process_host_stages-Leaves :
        (host : Host) → Leaves before (process_host_stages float out r host)
    unfolding process_host_stages
    process_host_stages-Leaves host =
        >>=-Leaves (record { at = λ w p. p })
          (λ at.
            >>=-Leaves (try-Leaves _ _ (upsert_host-Stays before out.driver host "unresolved" at))
              (λ id. >>=-Leaves (ask-Leaves _ _ (λ w. refl)) (λ resolved.
                >>=-Leaves (if_resolved-Leaves out host resolved) (λ _.
                  >>=-Leaves (try-Leaves _ _ (mark_host_resolved-Stays before out.driver _ _ at))
                    (λ _. >>=-Leaves (ask-Leaves _ _ (λ w. refl)) (λ probed.
                      >>=-Leaves (store_certificate-Leaves host id probed at) (λ previous.
                        evaluate_certificate-Leaves host id probed.certificate previous at)))))))

    pub process_host-Leaves : (host : Host) → Leaves before (process_host float out r host)
    unfolding process_host
    process_host-Leaves host = record {
      at = λ w p.
          let after = process_host_stages float out r host w in
          subst (λ (v : World). SameOwned before v.conn.db)
            (sym (result_of-world float out r after.0 after.1))
            ((process_host_stages-Leaves host).at w p);
    }
