-- ===== src/Ui/Events.antt =====
-- The handlers that acknowledge an event and that start a scan.
pub mod Sound
use certinv.Prelude.{
  ℕ, zero, suc, ℤ, pos, negsuc, String, Bool, true, false, not, Option, none, some, ◌==◌,
  if◌then◌else◌,
}
use certinv.Text.{trim_space, trim_prefix, trim_suffix, has_suffix, atoi}
use certinv.Result.{Error, message, about, at_line, wrap}
use certinv.Store.Events.{acknowledge_event}
use certinv.Cmd.SerialScan.{try_scan}
use certinv.Ui.{
  Outside, Handler, Request, Response, not_found, server_error, acknowledged, text, Site,
}
use certinv.Ui.Stage.{
  Stage, Outcome, go, reply, ◌>>=◌, ◌>>◌, answer, stop, try, stop_if, active_tab, notice_at,
  error_at, now,
}

-- the number behind the path's prefix, if it is positive
abbrev positive : Option ℤ → Option ℕ
positive (some (pos (suc n))) = some (suc n)
positive (some (pos zero)) = none
positive (some (negsuc n)) = none
positive none = none

-- the id in the path "/ui/events/ID/ack"
unfoldable pub event_id : String → Option ℕ
event_id path =
    let rest = trim_prefix path "/ui/events/" in
    if has_suffix rest "/ack" then positive (atoi (trim_suffix rest "/ack")) else none

-- who acknowledges: the user of the request, or "ui"
unfoldable pub acknowledger : Option (String × String) → String
acknowledger none = "ui"
acknowledger (some (user, password)) = if trim_space user == "" then "ui" else user

-- `errors.Is(err, store.ErrEventNotFound)`
abbrev pub acknowledge_failed : Error → Response
acknowledge_failed (message what) =
    if what == "event not found" then not_found else server_error "failed to acknowledge event"
acknowledge_failed (about what value) = server_error "failed to acknowledge event"
acknowledge_failed (at_line what n e) = server_error "failed to acknowledge event"
acknowledge_failed (wrap what e) = server_error "failed to acknowledge event"

module _ (out : Outside) (h : Handler) where
  abbrev pub known_id : Option ℕ → Stage ℕ
  known_id none = stop not_found
  known_id (some id) = answer id

  unfoldable pub acknowledge : Request → Stage Response
  acknowledge r = do
    id ← known_id (event_id r.path)
    at ← now out
    try acknowledge_failed (acknowledge_event out.driver id (acknowledger r.credentials) at)
    answer acknowledged

  abbrev triggered : Request → Bool → Response
  triggered r true = notice_at (active_tab r) (text "scan accepted")
  triggered r false = error_at (active_tab r) (text "scan is already running")

  unfoldable pub trigger : Request → Stage Response
  trigger r s =
      let (started, scans) = try_scan s.scans in
      (go (triggered r started), record s { scans = scans })

  unfoldable pub scan : Request → Stage Response
  scan r = do
    stop_if (not h.has_scanner) (error_at (active_tab r) (text "scan trigger is not configured"))
    trigger r
