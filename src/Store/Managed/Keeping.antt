-- ===== src/Store/Managed/Keeping.antt =====
-- What the methods of the store keep that the web interface calls.
use certinv.Prelude.{ℕ, ℤ, String, ◌≡◌, Option, none, some, subst, sym, inl, inr, Bool-cases}
use certinv.Clock.{Time, format_time}
use certinv.Store.Schema.{Db}
use certinv.Store.Exec.{Conn, Driver, Action, exec}
use certinv.Store.Exec.Keeps.{
  Keeps, >>=-Keeps, pure-Keeps, raise-Keeps, statement-Keeps, query-Keeps, transaction-Keeps,
}
use certinv.Store.Managed.{managed_targets, managed_discovery}
use certinv.Store.Managed.Reading.{managed_targets-db, managed_discovery-db}
use certinv.Store.Events.{put_acknowledged, acknowledge_event, unacknowledged_events}
use certinv.Store.Hosts.{
  delete_suppressed, delete_host_certificates, delete_states, delete_hosts, suppressed_hosts,
  purge_rows, purge_body, purge_host,
}
use certinv.Store.Snapshots.{inventory_snapshot, metrics_snapshot}

module _ (P : Db → Type 0) (driver : Driver) where
  reading-Keeps : {A : Type 0} (m : Action A) → ((c : Conn) → (m c).1.db ≡ c.db) → Keeps P m
  reading-Keeps m same = record { at = λ c p. subst P (sym (same c)) p }

  pub managed_targets-Keeps : Keeps P (managed_targets driver)
  managed_targets-Keeps = reading-Keeps (managed_targets driver) (managed_targets-db driver)

  pub managed_discovery-Keeps : Keeps P (managed_discovery driver)
  managed_discovery-Keeps = reading-Keeps (managed_discovery driver) (managed_discovery-db driver)

  pub suppressed_hosts-Keeps : Keeps P (suppressed_hosts driver)
  unfolding suppressed_hosts
  suppressed_hosts-Keeps = query-Keeps P driver _ _

  pub inventory_snapshot-Keeps : Keeps P (inventory_snapshot driver)
  unfolding inventory_snapshot
  inventory_snapshot-Keeps = query-Keeps P driver _ _

  pub unacknowledged_events-Keeps : Keeps P (unacknowledged_events driver)
  unfolding unacknowledged_events
  unacknowledged_events-Keeps = query-Keeps P driver _ _

  pub metrics_snapshot-Keeps : Keeps P (metrics_snapshot driver)
  unfolding metrics_snapshot
  metrics_snapshot-Keeps =
      >>=-Keeps P _ _ (query-Keeps P driver _ _)
        (λ certificates. >>=-Keeps P _ _ (query-Keeps P driver _ _) (λ hosts. pure-Keeps P _))

  pub exec-Keeps :
      (text : String) (f : Db → Db) → ((db : Db) → P db → P (f db)) → Keeps P (exec driver text f)
  exec-Keeps text f h = statement-Keeps P driver text (λ db. (tt, f db)) h

  pub acknowledge_event-Keeps :
      (id : ℕ) (by : String) (now : Time)
      → ((db : Db) → P db → P (put_acknowledged id by (format_time now) db).1)
      → Keeps P (acknowledge_event driver id by now)
  unfolding acknowledge_event
  acknowledge_event-Keeps id by now h =
      >>=-Keeps P _ _ (statement-Keeps P driver _ _ h) (λ affected. elim (Bool-cases affected) [
        | inl y ↦ rw y (pure-Keeps P tt)
        | inr n ↦ rw n (raise-Keeps P _)
      ])

  module _ (links : (id : ℕ) (db : Db) → P db → P (delete_host_certificates id db))
      (states : (id : ℕ) (db : Db) → P db → P (delete_states id db))
      (hosts : (id : ℕ) (db : Db) → P db → P (delete_hosts id db))
      (suppressions : (hostname : String) (port : ℤ) (db : Db)
        → P db
        → P (delete_suppressed hostname port db)) where
    purge_rows-Keeps : (found : Option ℕ) → Keeps P (purge_rows driver found)
    purge_rows-Keeps none = pure-Keeps P tt
    purge_rows-Keeps (some id) =
        >>=-Keeps P _ _ (exec-Keeps "purge host" (delete_host_certificates id) (links id)) (λ _.
          >>=-Keeps P _ _ (exec-Keeps "purge host" (delete_states id) (states id))
            (λ _. exec-Keeps "purge host" (delete_hosts id) (hosts id)))

    pub purge_host-Keeps :
        (hostname : String) (port : ℤ) → Keeps P (purge_host driver hostname port)
    unfolding purge_host
    purge_host-Keeps hostname port = transaction-Keeps P driver (purge_body driver hostname port) (
        >>=-Keeps P _ _ (query-Keeps P driver _ _) (λ found.
          >>=-Keeps P _ _ (purge_rows-Keeps found) (λ _.
            exec-Keeps "purge suppressed host" (delete_suppressed hostname port)
              (suppressions hostname port))))
