-- ===== src/Core/Run/Frame.antt =====
-- What a scan does before it discovers hosts: it registers the apexes and retries notifications.
-- Neither probes a target nor changes the managed apexes.
use certinv.Prelude.{
  ℕ, String, Bool, false, List, [], ◌∷◌, Option, none, some, ◌≡◌, refl, ap, ◌∙◌, inl, inr,
  Bool-cases,
}
use certinv.Clock.{Time, format_time}
use certinv.Config.{Float64}
use certinv.Evaluate.{Event}
use certinv.Notify.{HttpNotifier}
use certinv.Result.{Result, ok, err}
use certinv.Store.Schema.{Db}
use certinv.Store.Exec.{Conn, Driver, statement}
use certinv.Store.Hosts.{upsert_apex, put_apex}
use certinv.Store.Events.{
  StoredEvent, pending_events, pending_of, mark_event_notified, put_notified,
}
use certinv.Store.Managed.Reading.{managed_targets-db}
use certinv.Core.{Outside, Runner, World, Step, continue, ◌>>=◌}
use certinv.Core.Discovery.{effective_apexes}
use certinv.Core.Notifying.{
  notify_all, mark_if_sent, notify_event, retry_events, retry_pending_events,
}
use certinv.Core.Notifying.Delivery.{notify_all-conn}
use certinv.Core.Hosts.Probing.{notify_event-probed}
use certinv.Core.Run.{upsert_apexes, register}

-- the targets probed and the managed apexes are the same in both worlds
pub record SameFrame (before after : World) : Type 0 where
  pub probed : after.probed ≡ before.probed
  pub managed : after.conn.db.managed_apexes ≡ before.conn.db.managed_apexes

pub SameFrame-refl : (w : World) → SameFrame w w
SameFrame-refl w = record { probed = refl; managed = refl }

pub SameFrame-trans : (u v w : World) → SameFrame u v → SameFrame v w → SameFrame u w
SameFrame-trans u v w f g = record { probed = g.probed ∙ f.probed; managed = g.managed ∙ f.managed }

-- the step keeps the frame, also where it fails
pub record IsCalm {A : Type 0} (m : Step A) : Type 0 where
  pub at : (w : World) → SameFrame w (m w).1

continue-IsCalm :
    {A B : Type 0} (x : Result A) (f : A → Step B)
    → ((a : A) → IsCalm (f a))
    → IsCalm (continue x f)
continue-IsCalm (ok a) f h = record { at = (h a).at }
continue-IsCalm (err e) f h = record { at = SameFrame-refl }

>>=-IsCalm :
    {A B : Type 0} {m : Step A} {f : A → Step B}
    → IsCalm m
    → ((a : A) → IsCalm (f a))
    → IsCalm (m >>= f)
unfolding ◌>>=◌
>>=-IsCalm {m} {f} hm hf = record {
  at = λ w. SameFrame-trans w (m w).1 _ (hm.at w) ((continue-IsCalm (m w).0 f hf).at (m w).1);
}

-- a statement that leaves the managed apexes, in its effect
statement-managed :
    {A : Type 0} (driver : Driver) (text : String) (f : Db → A × Db) (c : Conn)
    → (f c.db).1.managed_apexes ≡ c.db.managed_apexes
    → (statement driver text f c).1.db.managed_apexes ≡ c.db.managed_apexes
unfolding statement
statement-managed driver text f c same = elim (Bool-cases (driver c.calls)) [
  | inl bad ↦ rw bad refl
  | inr good ↦ rw good same
]

upsert_apexes-IsCalm :
    (float : Float64) (out : Outside) (r : Runner float.F) (apexes : List String) (at : Time)
    → IsCalm (upsert_apexes float out r apexes at)
unfolding upsert_apexes upsert_apex put_apex
upsert_apexes-IsCalm float out r [] at = record { at = SameFrame-refl }
upsert_apexes-IsCalm float out r (apex ∷ apexes) at =
    >>=-IsCalm
      (record {
        at = λ w. record {
          probed = refl;
          managed =
              statement-managed out.driver "upsert apex"
                (λ db. (tt, put_apex apex (format_time at) db)) w.conn refl;
        };
      })
      (λ _. upsert_apexes-IsCalm float out r apexes at)

pub register-IsCalm :
    (float : Float64) (out : Outside) (r : Runner float.F) (at : Time)
    → IsCalm (register float out r at)
unfolding effective_apexes
register-IsCalm float out r at =
    >>=-IsCalm
      (>>=-IsCalm
        (record {
          at = λ w. record {
            probed = refl;
            managed = ap (λ (db : Db). db.managed_apexes) (managed_targets-db out.driver w.conn);
          };
        })
        (λ managed. record { at = SameFrame-refl }))
      (λ apexes. upsert_apexes-IsCalm float out r apexes at)

module _ (out : Outside) where
  mark_if_sent-managed :
      (id : ℕ) (now : Time) (sent : Option Bool) (w : World)
      → (mark_if_sent out id now sent w).1.conn.db.managed_apexes ≡ w.conn.db.managed_apexes
  unfolding mark_event_notified put_notified
  mark_if_sent-managed id now none w = refl
  mark_if_sent-managed id now (some handled) w =
      statement-managed out.driver "mark event notified"
        (λ db. (tt, put_notified id (format_time now) db)) w.conn refl

  notify_event-SameFrame :
      (notifiers : List HttpNotifier) (id : ℕ) (event : Event) (now : Time) (w : World)
      → SameFrame w (notify_event out notifiers id event now w).1
  unfolding notify_event
  notify_event-SameFrame notifiers id event now w =
      let after = notify_all out notifiers event false w in
      record {
        probed = notify_event-probed out notifiers id event now w;
        managed =
            mark_if_sent-managed id now after.0 after.1
            ∙ ap (λ (c : Conn). c.db.managed_apexes) (notify_all-conn out notifiers event false w);
      }

  retry_events-SameFrame :
      (notifiers : List HttpNotifier) (events : List StoredEvent) (now : Time) (w : World)
      → SameFrame w (retry_events out notifiers events now w).1
  unfolding retry_events
  retry_events-SameFrame notifiers [] now w = SameFrame-refl w
  retry_events-SameFrame notifiers (e ∷ events) now w =
      let w₁ = (notify_event out notifiers e.id e.event now w).1 in
      SameFrame-trans w w₁ _ (notify_event-SameFrame notifiers e.id e.event now w)
        (retry_events-SameFrame notifiers events now w₁)

  pub retry_pending_events-IsCalm :
      (notifiers : List HttpNotifier) (now : Time) → IsCalm (retry_pending_events out notifiers now)
  unfolding retry_pending_events pending_events
  retry_pending_events-IsCalm notifiers now =
      >>=-IsCalm
        (record {
          at = λ w. record {
            probed = refl;
            managed =
                statement-managed out.driver "select pending events" (λ db. (pending_of db, db))
                  w.conn refl;
          };
        })
        (λ pending. record { at = λ w. retry_events-SameFrame notifiers pending now w })
