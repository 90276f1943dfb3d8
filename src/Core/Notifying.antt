-- ===== src/Core/Notifying.antt =====
-- The notification of an event, and the retries of the events that are still pending.
pub mod Delivery
use certinv.Prelude.{
  ℕ, ◌+◌, leb, String, Bool, true, false, not, ◌&&◌, Option, none, some, List, [], ◌∷◌, ◌++◌,
  if◌then◌else◌,
}
use certinv.Clock.{Time}
use certinv.Evaluate.{Event}
use certinv.Notify.{HttpNotifier, Post, handles}
use certinv.Result.{Error, message, wrap, Result, ok, err}
use certinv.Store.Events.{StoredEvent, pending_events, mark_event_notified}
use certinv.Core.{Outside, World, Step, ◌>>=◌, pure, lift, in_store, ask}

-- whether the status is 2xx
abbrev pub accepted : ℕ → Bool
accepted status = leb 200 status && leb status 299

abbrev pub deliver : HttpNotifier → Event → Result ℕ → World → Option Error × World
deliver n event (err e) w = (some (wrap "send notification" e), w)
deliver n event (ok status) w =
    if accepted status
    then (none, record w { sent = w.sent ++ (n.name, event) ∷ [] })
    else (some (message "notification returned status"), w)

-- the outcome of an event's notification: sent to some notifier, and failed
pub record Notified : Type 0 where
  pub notified : Bool
  pub failed : Bool

module _ (out : Outside) where
  -- `httpNotifier.Notify`: the error, if any
  unfoldable pub notify : HttpNotifier → Event → World → Option Error × World
  notify n event w =
      if not (handles n event.kind)
      then (none, w)
      else deliver n event (out.post w.calls n event) (record w { calls = w.calls + 1 })

  -- the loop over the notifiers: whether one handled the event, or that one failed
  unfoldable pub notify_all : List HttpNotifier → Event → Bool → World → Option Bool × World
  notify_all [] event handled w = (some handled, w)
  notify_all (n ∷ notifiers) event handled w =
      let skip = notify_all notifiers event handled w in
      if not (handles n event.kind)
      then skip
      else let (failure, w') = notify n event w in
        elim failure [ some e ↦ (none, w') | none ↦ notify_all notifiers event true w' ]

  abbrev pub marked : Bool → Result (Unit {0}) → Notified
  marked handled (ok _) = record { notified = handled; failed = false }
  marked handled (err e) = record { notified = false; failed = true }

  abbrev pub mark_if_sent : ℕ → Time → Option Bool → World → Notified × World
  mark_if_sent id now none w = (record { notified = false; failed = true }, w)
  mark_if_sent id now (some handled) w =
      let (r, w') = in_store (mark_event_notified out.driver id now) w in (marked handled r, w')

  unfoldable pub notify_event : List HttpNotifier → ℕ → Event → Time → World → Notified × World
  notify_event notifiers id event now w =
      let (sent, w') = notify_all notifiers event false w in mark_if_sent id now sent w'

  abbrev one : Bool → ℕ
  one true = 1
  one false = 0

  -- the numbers of the events that were notified, and of those that failed
  unfoldable pub retry_events :
      List HttpNotifier → List StoredEvent → Time → World → (ℕ × ℕ) × World
  retry_events notifiers [] now w = ((0, 0), w)
  retry_events notifiers (e ∷ events) now w =
      let (n, w₁) = notify_event notifiers e.id e.event now w in
      let (counts, w₂) = retry_events notifiers events now w₁ in
      ((one n.notified + counts.0, one n.failed + counts.1), w₂)

  unfoldable pub retry_pending_events : List HttpNotifier → Time → Step (ℕ × ℕ)
  retry_pending_events notifiers now = do
    pending ← in_store (pending_events out.driver)
    λ w. let (counts, w') = retry_events notifiers pending now w in (ok counts, w')
