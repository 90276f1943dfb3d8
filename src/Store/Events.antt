-- ===== src/Store/Events.antt =====
-- The methods of the store on events. An event waits for its notification until it is marked, and
-- for a user until it is acknowledged.
pub mod Lifecycle
use certinv.Prelude.{
  ℕ, leb, nat_eq, String, Bool, true, false, ◌&&◌, ◌||◌, Option, none, some, List, [], ◌∷◌, ◌++◌,
  map, any, select, ◌==◌, if◌then◌else◌,
}
use certinv.Clock.{Time, Stamp, format_time}
use certinv.Evaluate.{Event}
use certinv.Result.{message}
use certinv.Store.Table.{update_where, order_by, next_id}
use certinv.Store.Schema.{Db, EventRow}
use certinv.Store.Exec.{Driver, Action, ◌>>=◌, ◌>>◌, pure, raise, exec, query, statement}

pub record StoredEvent : Type 0 where
  pub id : ℕ
  pub acknowledged_at : Option Stamp
  pub acknowledged_by : String
  pub event : Event

-- `nullableHostID`
abbrev pub nullable_host_id : ℕ → Option ℕ
nullable_host_id id = if nat_eq id 0 then none else some id

-- COALESCE(host_id, 0)
abbrev pub host_id_or_zero : Option ℕ → ℕ
host_id_or_zero none = 0
host_id_or_zero (some id) = id

abbrev text_or_empty : Option String → String
text_or_empty none = ""
text_or_empty (some s) = s

abbrev pub new_event : ℕ → Event → Stamp → EventRow
new_event id event now = record {
  id = id;
  kind = event.kind;
  fingerprint = event.fingerprint;
  host_id = nullable_host_id event.host_id;
  occurred_at = now;
  notified_at = none;
  acknowledged_at = none;
  acknowledged_by = none;
  detail = event.detail;
}

abbrev pub event_of : EventRow → Event
event_of r = record {
  kind = r.kind;
  fingerprint = r.fingerprint;
  host_id = host_id_or_zero r.host_id;
  detail = r.detail;
}

-- the result `LastInsertId`, and the table with the new row
unfoldable pub insert_event : Event → Stamp → Db → ℕ × Db
insert_event event now db =
    let id = next_id (λ r. r.id) db.events in
    (id, record db { events = db.events ++ new_event id event now ∷ [] })

-- notified_at IS NULL
abbrev pub is_pending : EventRow → Bool
is_pending r = elim r.notified_at [ none ↦ true | some _ ↦ false ]

-- acknowledged_at IS NULL AND kind IN ('warn', 'alert')
abbrev pub is_open : EventRow → Bool
is_open r = elim r.acknowledged_at [ none ↦ r.kind == "warn" || r.kind == "alert" | some _ ↦ false ]

abbrev by_id : EventRow → EventRow → Bool
by_id a b = leb a.id b.id

unfoldable pub pending_of : Db → List StoredEvent
pending_of db =
    map
      (λ r. record { id = r.id; acknowledged_at = none; acknowledged_by = ""; event = event_of r })
      (order_by by_id (select is_pending db.events))

unfoldable pub open_of : Db → List StoredEvent
open_of db =
    map
      (λ r. record {
        id = r.id;
        acknowledged_at = r.acknowledged_at;
        acknowledged_by = text_or_empty r.acknowledged_by;
        event = event_of r;
      })
      (order_by (λ a b. by_id b a) (select is_open db.events))

-- the event with this id, if it can be acknowledged
abbrev pub can_acknowledge : ℕ → EventRow → Bool
can_acknowledge id r = nat_eq r.id id && is_open r

-- whether a row was affected, and the table behind the statement
unfoldable pub put_acknowledged : ℕ → String → Stamp → Db → Bool × Db
put_acknowledged id by now db = (
  any (can_acknowledge id) db.events,
  record db {
    events =
        update_where (can_acknowledge id)
          (λ r. record r { acknowledged_at = some now; acknowledged_by = some by }) db.events;
  },
)

unfoldable pub put_notified : ℕ → Stamp → Db → Db
put_notified id now db = record db {
  events = update_where (λ r. nat_eq r.id id) (λ r. record r { notified_at = some now }) db.events;
}

module _ (driver : Driver) where
  unfoldable pub record_event : Event → Time → Action ℕ
  record_event event now = statement driver "record event" (insert_event event (format_time now))

  unfoldable pub pending_events : Action (List StoredEvent)
  pending_events = query driver "select pending events" pending_of

  unfoldable pub unacknowledged_events : Action (List StoredEvent)
  unacknowledged_events = query driver "select unacknowledged events" open_of

  -- `store.ErrEventNotFound` where no row was affected
  unfoldable pub acknowledge_event : ℕ → String → Time → Action (Unit {0})
  acknowledge_event id by now = do
    affected ← statement driver "acknowledge event" (put_acknowledged id by (format_time now))
    if affected then pure tt else raise (message "event not found")

  unfoldable pub mark_event_notified : ℕ → Time → Action (Unit {0})
  mark_event_notified id now = exec driver "mark event notified" (put_notified id (format_time now))
