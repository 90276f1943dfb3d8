-- ===== src/Core/Notifying/Delivery.antt =====
-- No event is lost: one whose notification failed waits for the next scan.
use certinv.Prelude.{
  ℕ, ◌+◌, Bool, true, List, [], ◌∷◌, select, ◌≡◌, refl, ◌∙◌, inl, inr, Bool-cases, Option-cases,
}
use certinv.Evaluate.{Event}
use certinv.Notify.{HttpNotifier, handles}
use certinv.Result.{Result, ok, err}
use certinv.Store.Events.{is_pending}
use certinv.Store.Schema.{EventRow}
use certinv.Core.{Outside, World}
use certinv.Core.Notifying.{deliver, notify, notify_all, accepted}

deliver-conn :
    (n : HttpNotifier) (event : Event) (r : Result ℕ) (w : World)
    → (deliver n event r w).1.conn ≡ w.conn
deliver-conn n event (err e) w = refl
deliver-conn n event (ok status) w = elim (Bool-cases (accepted status)) [
  | inl y ↦ rw y refl
  | inr z ↦ rw z refl
]

-- the rows that wait for a notification
abbrev pub waiting : World → List EventRow
waiting w = select is_pending w.conn.db.events

module _ (out : Outside) where
  notify-conn :
      (n : HttpNotifier) (event : Event) (w : World) → (notify out n event w).1.conn ≡ w.conn
  unfolding notify
  notify-conn n event w = elim (Bool-cases (handles n event.kind)) [
    | inl y ↦
        rw y (deliver-conn n event (out.post w.calls n event) (record w { calls = w.calls + 1 }))
    | inr z ↦ rw z refl
  ]

  pub notify_all-conn :
      (notifiers : List HttpNotifier) (event : Event) (handled : Bool) (w : World)
      → (notify_all out notifiers event handled w).1.conn ≡ w.conn
  unfolding notify_all
  notify_all-conn [] event handled w = refl
  notify_all-conn (n ∷ notifiers) event handled w = elim (Bool-cases (handles n event.kind)) [
    | inl y ↦ elim (Option-cases (notify out n event w).0) [
      | inl fine ↦
          rw (y, fine)
            (notify_all-conn notifiers event true (notify out n event w).1 ∙ notify-conn n event w)
      | inr (e, failed) ↦ rw (y, failed) (notify-conn n event w)
    ]
    | inr z ↦ rw z (notify_all-conn notifiers event handled w)
  ]
