-- ===== src/Core/Owned.antt =====
-- The parts of a scan leave what users manage.
use certinv.Prelude.{
  ℕ, String, Bool, false, not, ◌||◌, Option, none, some, List, [], ◌∷◌, subst, sym, inl, inr,
  Bool-cases,
}
use certinv.Clock.{Time}
use certinv.Config.{ManualHost}
use certinv.Evaluate.{Event}
use certinv.Notify.{HttpNotifier}
use certinv.Result.{Result, ok, err}
use certinv.Store.Schema.{Db}
use certinv.Store.Exec.{Conn, Action}
use certinv.Store.Exec.Keeps.{Keeps}
use certinv.Store.Events.{StoredEvent}
use certinv.Store.Managed.{ManagedDiscovery}
use certinv.Store.Managed.Keeping.{
  managed_targets-Keeps, managed_discovery-Keeps, suppressed_hosts-Keeps,
}
use certinv.Store.Managed.Owned.{SameOwned, pending_events-Stays, mark_event_notified-Stays}
use certinv.Core.{Outside, Source, Runner, World, Step, continue, ◌>>=◌, in_store}
use certinv.Core.Discovery.{
  has, is_empty, crt_name_enabled, discover_sources, effective_apexes, effective_manual_hosts,
  crt_name_sources, effective_sources, manual_group, discover,
}
use certinv.Core.Notifying.{
  notify_all, mark_if_sent, notify_event, retry_events, retry_pending_events,
}
use certinv.Core.Notifying.Delivery.{notify_all-conn}

-- what the program does to a world, also where it fails
pub record Leaves (before : Db) {A : Type 0} (m : World → A × World) : Type 0 where
  pub at : (w : World) → SameOwned before w.conn.db → SameOwned before (m w).1.conn.db

module _ {before : Db} where
  continue-Leaves :
      {A B : Type 0} (x : Result A) (f : A → Step B)
      → ((a : A) → Leaves before (f a))
      → Leaves before (continue x f)
  continue-Leaves (ok a) f h = record { at = (h a).at }
  continue-Leaves (err e) f h = record { at = λ w p. p }

  pub >>=-Leaves :
      {A B : Type 0} {m : Step A} {f : A → Step B}
      → Leaves before m
      → ((a : A) → Leaves before (f a))
      → Leaves before (m >>= f)
  unfolding ◌>>=◌
  >>=-Leaves {m} {f} hm hf = record {
    at = λ w p. (continue-Leaves (m w).0 f hf).at (m w).1 (hm.at w p);
  }

  pub in_store-Leaves :
      {A : Type 0} (m : Action A) → Keeps (SameOwned before) m → Leaves before (in_store m)
  in_store-Leaves m h = record { at = λ w p. h.at w.conn p }

  pub discover_sources-Leaves :
      (sources : List Source) (apexes : List String)
      → Leaves before (discover_sources sources apexes)
  unfolding discover_sources
  discover_sources-Leaves [] apexes = record { at = λ w p. p }
  discover_sources-Leaves (s ∷ sources) apexes =
      >>=-Leaves (record { at = λ w p. p })
        (λ hosts.
          >>=-Leaves (discover_sources-Leaves sources apexes) (λ groups. record { at = λ w p. p }))

  module _ {F : Type 0} (out : Outside) (r : Runner F) where
    pub effective_apexes-Leaves : Leaves before (effective_apexes out r)
    unfolding effective_apexes
    effective_apexes-Leaves =
        >>=-Leaves (in_store-Leaves _ (managed_targets-Keeps (SameOwned before) out.driver))
          (λ managed. record { at = λ w p. p })

    pub effective_manual_hosts-Leaves :
        (apexes : List String) → Leaves before (effective_manual_hosts out r apexes)
    unfolding effective_manual_hosts
    effective_manual_hosts-Leaves apexes =
        >>=-Leaves (in_store-Leaves _ (managed_targets-Keeps (SameOwned before) out.driver))
          (λ managed. record { at = λ w p. p })

    crt_name_sources-Leaves :
        (managed : ManagedDiscovery) → Leaves before (crt_name_sources out r managed)
    unfolding crt_name_sources
    crt_name_sources-Leaves managed =
        elim (Bool-cases (crt_name_enabled managed (has "crtname" r.config.discovery.sources))) [
          | inl on ↦ rw on (>>=-Leaves effective_apexes-Leaves (λ apexes. record { at = λ w p. p }))
          | inr off ↦ rw off (record { at = λ w p. p })
        ]

    pub effective_sources-Leaves : Leaves before (effective_sources out r)
    unfolding effective_sources
    effective_sources-Leaves =
        >>=-Leaves (in_store-Leaves _ (managed_discovery-Keeps (SameOwned before) out.driver))
          (λ managed.
            >>=-Leaves (crt_name_sources-Leaves managed) (λ found. record { at = λ w p. p }))

    pub manual_group-Leaves :
        (hosts : List ManualHost) (apexes : List String)
        → Leaves before (manual_group out r hosts apexes)
    unfolding manual_group
    manual_group-Leaves hosts apexes =
        elim (Bool-cases (has "manual" r.config.discovery.sources || not (is_empty hosts))) [
          | inl on ↦
              rw on (>>=-Leaves (record { at = λ w p. p }) (λ found. record { at = λ w p. p }))
          | inr off ↦ rw off (record { at = λ w p. p })
        ]

    pub discover-Leaves : Leaves before (discover out r)
    unfolding discover
    discover-Leaves = >>=-Leaves effective_apexes-Leaves (λ apexes.
        >>=-Leaves effective_sources-Leaves (λ sources.
          >>=-Leaves (discover_sources-Leaves sources apexes) (λ groups.
            >>=-Leaves (discover_sources-Leaves r.sources apexes) (λ more.
              >>=-Leaves (effective_manual_hosts-Leaves apexes) (λ hosts.
                >>=-Leaves (manual_group-Leaves hosts apexes) (λ manual.
                  >>=-Leaves
                    (record {
                      at =
                          λ w p. (suppressed_hosts-Keeps (SameOwned before) out.driver).at w.conn p;
                    })
                    (λ suppressed. record { at = λ w p. p })))))))

  module _ (out : Outside) where
    mark_if_sent-Leaves :
        (id : ℕ) (now : Time) (sent : Option Bool) → Leaves before (mark_if_sent out id now sent)
    mark_if_sent-Leaves id now none = record { at = λ w p. p }
    mark_if_sent-Leaves id now (some handled) = record {
      at = λ w p. (mark_event_notified-Stays before out.driver id now).at w.conn p;
    }

    pub notify_event-Leaves :
        (notifiers : List HttpNotifier) (id : ℕ) (event : Event) (now : Time)
        → Leaves before (notify_event out notifiers id event now)
    unfolding notify_event
    notify_event-Leaves notifiers id event now = record {
      at = λ w p.
          let after = notify_all out notifiers event false w in
          (mark_if_sent-Leaves id now after.0).at after.1 (
            subst (λ (c : Conn). SameOwned before c.db)
              (sym (notify_all-conn out notifiers event false w)) p);
    }

    retry_events-Leaves :
        (notifiers : List HttpNotifier) (events : List StoredEvent) (now : Time)
        → Leaves before (retry_events out notifiers events now)
    unfolding retry_events
    retry_events-Leaves notifiers [] now = record { at = λ w p. p }
    retry_events-Leaves notifiers (e ∷ events) now = record {
      at = λ w p.
          (retry_events-Leaves notifiers events now).at _
            ((notify_event-Leaves notifiers e.id e.event now).at w p);
    }

    pub retry_pending_events-Leaves :
        (notifiers : List HttpNotifier) (now : Time)
        → Leaves before (retry_pending_events out notifiers now)
    unfolding retry_pending_events
    retry_pending_events-Leaves notifiers now =
        >>=-Leaves (in_store-Leaves _ (pending_events-Stays before out.driver))
          (λ pending. record { at = λ w p. (retry_events-Leaves notifiers pending now).at w p })
