-- ===== src/Ui/Events/Sound.antt =====
-- The handlers that acknowledge an event and that start a scan keep the invariant.
use certinv.Prelude.{ℕ, Option, none, some, refl}
use certinv.Store.Events.{put_acknowledged}
use certinv.Store.Managed.Keeping.{acknowledge_event-Keeps}
use certinv.Cmd.SerialScan.{trigger, next}
use certinv.Ui.{Outside, Handler, Request}
use certinv.Ui.Stage.{Stage}
use certinv.Ui.Events
use certinv.Ui.Events.{known_id, acknowledge, scan}
use certinv.Ui.Sound.{IsSound}
use certinv.Ui.Yields.{
  Holds, >>=-Yields, answer-Yields, stop-Yields, try-Holds, stop_if-Holds, now-Holds,
}

module _ (out : Outside) (h : Handler) where
  abbrev Sound : {A : Type 0} → Stage A → Type 0
  Sound m = Holds (IsSound out h) m

  known_id-Sound : (id : Option ℕ) → Sound (known_id out h id)
  known_id-Sound none = stop-Yields
  known_id-Sound (some id) = answer-Yields tt

  pub acknowledge-Sound : (r : Request) → Sound (acknowledge out h r)
  unfolding acknowledge put_acknowledged
  acknowledge-Sound r = >>=-Yields (known_id-Sound _) (λ id _. >>=-Yields (now-Holds out) (λ at _.
      >>=-Yields
        (try-Holds _ _ (λ scans.
          acknowledge_event-Keeps (λ db. IsSound out h db scans) out.driver id _ at (λ db s. s)))
        (λ _ _. answer-Yields tt)))

  trigger-Sound : (r : Request) → Sound (Events.trigger out h r)
  unfolding Events.trigger
  trigger-Sound r = record { at = λ s p. ((p.0, p.1, p.2, next p.3 (trigger refl)), tt) }

  pub scan-Sound : (r : Request) → Sound (scan out h r)
  unfolding scan
  scan-Sound r = >>=-Yields (stop_if-Holds _ _) (λ _ _. trigger-Sound r)
