-- ===== src/Store/Events/Lifecycle.antt =====
-- The life of an event: recorded, pending until it is notified, open until it is acknowledged.
use certinv.Prelude.{
  ℕ, ◌<◌, nat_eq, Bool, true, false, some, List, [], ◌∷◌, All, ◌≡◌, refl, ap, ◌∙◌, subst, inl, inr,
  Bool-cases, select, ◌++◌, if◌then◌else◌,
}
use certinv.Clock.{Time, Stamp, format_time}
use certinv.Evaluate.{Event}
use certinv.Result.{Error, ok, err}
use certinv.Store.Schema.{EventRow}
use certinv.Store.Table.{update_where}
use certinv.Store.Table.Laws.{next_id_fresh}
use certinv.Store.Exec.{Conn, Driver}
use certinv.Store.Exec.Laws.{statement-eq-ok, statement-eq-err}
use certinv.Store.Events.{
  is_pending, put_notified, insert_event, record_event, mark_event_notified, new_event,
}

select-append :
    (p : EventRow → Bool) (rows : List EventRow) (r : EventRow)
    → p r ≡ true
    → select p (rows ++ r ∷ []) ≡ select p rows ++ r ∷ []
unfolding select
select-append p [] r y = rw y refl
select-append p (x ∷ rows) r y = elim (Bool-cases (p x)) [
  | inl z ↦ rw (z, select-append p rows r y) refl
  | inr n ↦ rw n (select-append p rows r y)
]

abbrev pub waits_beside : ℕ → EventRow → Bool
waits_beside id r = if nat_eq r.id id then false else is_pending r

select-put_notified :
    (id : ℕ) (now : Stamp) (rows : List EventRow)
    → select is_pending
        (update_where (λ r. nat_eq r.id id) (λ r. record r { notified_at = some now }) rows)
      ≡ select (waits_beside id) rows
unfolding select update_where
select-put_notified id now [] = refl
select-put_notified id now (r ∷ rows) = elim (Bool-cases (nat_eq r.id id)) [
  | inl y ↦ rw (y, select-put_notified id now rows) refl
  | inr n ↦ rw (n, select-put_notified id now rows) refl
]

-- A successful `RecordEvent` returns an id above that of every event before, and leaves the events
-- that wait for a notification as they were, followed by the new one under that id.
pub record_event-pending :
    (driver : Driver) (event : Event) (now : Time) (c : Conn) (id : ℕ)
    → (record_event driver event now c).0 ≡ ok id
    → All (λ r. r.id < id) c.db.events
      × (select is_pending (record_event driver event now c).1.db.events
          ≡ select is_pending c.db.events ++ new_event id event (format_time now) ∷ [])
unfolding record_event insert_event
record_event-pending driver event now c id h =
    let (same, after) =
      statement-eq-ok driver "record event" (insert_event event (format_time now)) c id h in
    (
      subst (λ i. All (λ r. r.id < i) c.db.events) same (next_id_fresh (λ r. r.id) c.db.events),
      ap (λ db. select is_pending db.events) after
          ∙ select-append is_pending c.db.events _ refl
          ∙ ap (λ i. select is_pending c.db.events ++ new_event i event (format_time now) ∷ [])
              same,
    )

-- After a successful `MarkEventNotified` exactly the events with this id have stopped waiting for a
-- notification.
pub mark_event_notified-pending :
    (driver : Driver) (id : ℕ) (now : Time) (c : Conn)
    → (mark_event_notified driver id now c).0 ≡ ok tt
    → select is_pending (mark_event_notified driver id now c).1.db.events
      ≡ select (waits_beside id) c.db.events
unfolding mark_event_notified put_notified
mark_event_notified-pending driver id now c h =
    let (same, after) =
      statement-eq-ok driver "mark event notified"
        (λ db. (tt, put_notified id (format_time now) db)) c tt h in
    ap (λ db. select is_pending db.events) after
    ∙ select-put_notified id (format_time now) c.db.events

-- a mark that fails changes nothing
pub mark_event_notified-eq-err :
    (driver : Driver) (id : ℕ) (now : Time) (c : Conn) (e : Error)
    → (mark_event_notified driver id now c).0 ≡ err e
    → (mark_event_notified driver id now c).1.db ≡ c.db
unfolding mark_event_notified
mark_event_notified-eq-err driver id now c e h =
    statement-eq-err driver "mark event notified" (λ db. (tt, put_notified id (format_time now) db))
      c e h
