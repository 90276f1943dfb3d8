-- ===== src/Tests/Events.antt =====
-- The store at concrete inputs, and the notification of an event.
use certinv.Prelude.{◌<◌, [], ◌∷◌, ◌++◌, any, select, All, ◌≡◌, refl}
use certinv.Clock.{format_time}
use certinv.Store.Table.{next_id}
use certinv.Store.Exec.{statement}
use certinv.Store.Events.{is_pending, new_event, record_event, mark_event_notified, insert_event}
use certinv.Store.Events.Lifecycle.{waits_beside, record_event-pending, mark_event_notified-pending}
use certinv.Prelude.{if◌then◌else◌, nat_eq, ◌&&◌, ◌==◌}
use certinv.Store.Certificates.{state_of, set_certificate_state, get_certificate_state}
use certinv.Store.Certificates.States.{get-set_certificate_state}
use certinv.Tests.Data.{reliable, conn, event}

record_event-pending_example :
    All (λ r. r.id < 8) conn.db.events
    × (select is_pending (record_event reliable event 0 conn).1.db.events
        ≡ select is_pending conn.db.events ++ new_event 8 event (format_time 0) ∷ [])
unfolding record_event statement insert_event next_id
record_event-pending_example = record_event-pending reliable event 0 conn 8 refl

mark_event_notified-pending_example :
    select is_pending (mark_event_notified reliable 7 0 conn).1.db.events
    ≡ select (waits_beside 7) conn.db.events
unfolding mark_event_notified statement
mark_event_notified-pending_example = mark_event_notified-pending reliable 7 0 conn refl

get-set_certificate_state_example :
    "warn" ≡ (if nat_eq 1 1 && "ab" == "ab" then "warn" else state_of 1 "ab" conn.db)
unfolding set_certificate_state statement get_certificate_state state_of certinv.Prelude.find
    certinv.Store.Certificates.put_state certinv.Store.Table.upsert any
get-set_certificate_state_example =
    get-set_certificate_state reliable 1 1 "ab" "ab" "warn" "warn" 0 conn refl refl
