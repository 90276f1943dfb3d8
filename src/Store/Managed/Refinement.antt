-- ===== src/Store/Managed/Refinement.antt =====
-- What the store promises of managed targets and sources, and that its methods do it: the tables are
-- finite maps, and a method that succeeds is the operation on those maps.
use certinv.Prelude.{
  String, ℤ, int_eq, int_eq_iff, Bool, true, false, ◌&&◌, Option, none, some, ◌==◌, ◌≡◌, ◌⊎◌, refl,
  ap, ◌∙◌, inl, inr, eq_iff, eq_refl, arith,
}
use std.Path.{fun_ext}
use certinv.Clock.{Time, format_time}
use certinv.Discover.{Host}
use certinv.Result.{Error, ok, err, Result-cases}
use certinv.Store.Schema.{
  Db, ManagedApexRow, ManagedHostRow, CrtNameRow, ApexCrtNameRow, ZoneFileRow,
}
use certinv.Store.Table.Lookup.{insert, remove, lookup, lookup-upsert, lookup-delete_where}
use certinv.Store.Exec.{Conn, Driver, Action, exec}
use certinv.Store.Exec.Laws.{statement-eq-ok, statement-eq-err}
use certinv.Store.Managed.{
  put_managed_apex, delete_apex, is_managed_host, put_managed_host, delete_managed_host,
  put_crt_name, put_apex_crt_name, put_zone_file, delete_zone_file, add_managed_apex,
  delete_managed_apex, add_managed_manual_host, delete_managed_manual_host, save_managed_crt_name,
  save_managed_apex_crt_name, add_managed_zone_file, delete_managed_zone_file,
}

-- the view of the clients: sets of apexes and of files, the apex of each host by name and port, and the
-- settings of the search
pub record View : Type 0 where
  pub apexes : String → Option (Unit {0})
  pub manual_hosts : String × ℤ → Option String
  pub crt_name : Option (Bool × String)
  pub apex_crt_name : String → Option Bool
  pub zone_files : String → Option (Unit {0})

-- the methods, with their arguments
pub data Command : Type 0 where
  add_apex remove_apex : String → Command
  add_host : Host → Command
  remove_host : String → ℤ → Command
  save_crt_name : Bool → String → Command
  save_apex : String → Bool → Command
  add_file remove_file : String → Command

abbrev same_text : String → String → Bool
same_text a b = a == b

abbrev same_target : String × ℤ → String × ℤ → Bool
same_target a b = a.0 == b.0 && int_eq a.1 b.1

-- what a method promises
unfoldable pub apply : Command → View → View
apply (add_apex apex) v = record v { apexes = insert same_text apex tt v.apexes }
apply (remove_apex apex) v = record v { apexes = remove same_text apex v.apexes }
apply (add_host host) v = record v {
  manual_hosts = insert same_target (host.hostname, host.port) host.apex v.manual_hosts;
}
apply (remove_host hostname port) v = record v {
  manual_hosts = remove same_target (hostname, port) v.manual_hosts;
}
apply (save_crt_name enabled endpoint) v = record v { crt_name = some (enabled, endpoint) }
apply (save_apex apex enabled) v = record v {
  apex_crt_name = insert same_text apex enabled v.apex_crt_name;
}
apply (add_file path) v = record v { zone_files = insert same_text path tt v.zone_files }
apply (remove_file path) v = record v { zone_files = remove same_text path v.zone_files }

-- the method itself
unfoldable pub perform : Driver → Time → Command → Action (Unit {0})
perform driver now (add_apex apex) = add_managed_apex driver apex now
perform driver now (remove_apex apex) = delete_managed_apex driver apex
perform driver now (add_host host) = add_managed_manual_host driver host now
perform driver now (remove_host hostname port) = delete_managed_manual_host driver hostname port
perform driver now (save_crt_name enabled endpoint) =
    save_managed_crt_name driver enabled endpoint now
perform driver now (save_apex apex enabled) = save_managed_apex_crt_name driver apex enabled now
perform driver now (add_file path) = add_managed_zone_file driver path now
perform driver now (remove_file path) = delete_managed_zone_file driver path

abbrev setting : Option CrtNameRow → Option (Bool × String)
setting none = none
setting (some r) = some (r.enabled, r.endpoint)

abbrev unit_of : {R : Type 0} → R → Unit {0}
unit_of r = tt

abbrev host_at : String × ℤ → ManagedHostRow → Bool
host_at k r = is_managed_host k.0 k.1 r

-- the database, seen by the clients
unfoldable pub view : Db → View
view db = record {
  apexes = λ k. lookup (λ a (r : ManagedApexRow). r.apex == a) unit_of k db.managed_apexes;
  manual_hosts = λ k. lookup host_at (λ r. r.apex) k db.managed_manual_hosts;
  crt_name = setting db.managed_crtname;
  apex_crt_name = λ k.
      lookup (λ a (r : ApexCrtNameRow). r.apex == a) (λ r. r.enabled) k db.managed_apex_crtname;
  zone_files = λ k. lookup (λ a (r : ZoneFileRow). r.path == a) unit_of k db.managed_zone_files;
}

text_eq : (k j : String) → same_text k j ≡ true → k ≡ j
text_eq k j = (eq_iff k j).0

target_eq : (k j : String × ℤ) → same_target k j ≡ true → k ≡ j
target_eq (a, p) (b, q) h =
    let name : a ≡ b = (eq_iff a b).0 (ground arith) in
    let port : p ≡ q = (int_eq_iff p q).0 (ground arith) in
    ap (λ x. (x, p)) name ∙ ap (λ x. (b, x)) port

text_apart : (x k j : String) → (x == k) ≡ true → same_text k j ≡ false → (x == j) ≡ false
text_apart x k j h n = ground (arith, eq_iff x k, eq_iff k j, eq_iff x j)

target_apart :
    (k j : String × ℤ) (r : ManagedHostRow)
    → host_at k r ≡ true
    → same_target k j ≡ false
    → host_at j r ≡ false
target_apart (a, p) (b, q) r h n = ground (
  arith,
  eq_iff r.hostname a,
  eq_iff a b,
  eq_iff r.hostname b,
  int_eq_iff r.port p,
  int_eq_iff p q,
  int_eq_iff r.port q,
)

-- the statement of each method
abbrev effect : Time → Command → Db → Db
effect now (add_apex apex) db = put_managed_apex apex (format_time now) db
effect now (remove_apex apex) db = delete_apex apex db
effect now (add_host host) db = put_managed_host host (format_time now) db
effect now (remove_host hostname port) db = delete_managed_host hostname port db
effect now (save_crt_name enabled endpoint) db = put_crt_name enabled endpoint (format_time now) db
effect now (save_apex apex enabled) db = put_apex_crt_name apex enabled (format_time now) db
effect now (add_file path) db = put_zone_file path (format_time now) db
effect now (remove_file path) db = delete_zone_file path db

module _ (now : Time) (db : Db) where
  effect-apply : (k : Command) → view (effect now k db) ≡ apply k (view db)
  unfolding view apply put_managed_apex delete_apex put_managed_host delete_managed_host
      put_crt_name put_apex_crt_name put_zone_file delete_zone_file
  effect-apply (add_apex apex) =
      ap (λ m. record (view db) { apexes = m })
        (fun_ext (λ j.
          lookup-upsert _ unit_of same_text text_eq (λ k j r. text_apart r.apex k j) apex j tt _ _
            db.managed_apexes (eq_refl apex) (λ r h. h) refl (λ r. refl)))
  effect-apply (remove_apex apex) =
      ap (λ m. record (view db) { apexes = m })
        (fun_ext (λ j.
          lookup-delete_where _ unit_of same_text text_eq (λ k j r. text_apart r.apex k j) apex j
            db.managed_apexes))
  effect-apply (add_host host) =
      ap (λ m. record (view db) { manual_hosts = m })
        (fun_ext (λ j.
          lookup-upsert host_at (λ r. r.apex) same_target target_eq target_apart
            (host.hostname, host.port) j host.apex _ _ db.managed_manual_hosts
            (rw (eq_refl host.hostname, (int_eq_iff host.port host.port).1 refl) refl) (λ r h. h)
            refl (λ r. refl)))
  effect-apply (remove_host hostname port) =
      ap (λ m. record (view db) { manual_hosts = m })
        (fun_ext (λ j.
          lookup-delete_where host_at (λ r. r.apex) same_target target_eq target_apart
            (hostname, port) j db.managed_manual_hosts))
  effect-apply (save_crt_name enabled endpoint) = refl
  effect-apply (save_apex apex enabled) =
      ap (λ m. record (view db) { apex_crt_name = m })
        (fun_ext (λ j.
          lookup-upsert _ (λ r. r.enabled) same_text text_eq (λ k j r. text_apart r.apex k j) apex j
            enabled _ _ db.managed_apex_crtname (eq_refl apex) (λ r h. h) refl (λ r. refl)))
  effect-apply (add_file path) =
      ap (λ m. record (view db) { zone_files = m })
        (fun_ext (λ j.
          lookup-upsert _ unit_of same_text text_eq (λ k j r. text_apart r.path k j) path j tt _ _
            db.managed_zone_files (eq_refl path) (λ r h. h) refl (λ r. refl)))
  effect-apply (remove_file path) =
      ap (λ m. record (view db) { zone_files = m })
        (fun_ext (λ j.
          lookup-delete_where _ unit_of same_text text_eq (λ k j r. text_apart r.path k j) path j
            db.managed_zone_files))

-- an action takes effect as a whole, or fails and changes nothing
abbrev DoesOrFails : Action (Unit {0}) → (Db → Db) → Conn → Type 0
DoesOrFails m f c =
    (((m c).0 ≡ ok tt) × ((m c).1.db ≡ f c.db))
    ⊎ ((e : Error) × ((m c).0 ≡ err e) × ((m c).1.db ≡ c.db))

exec-DoesOrFails :
    (driver : Driver) (text : String) (f : Db → Db) (c : Conn)
    → DoesOrFails (exec driver text f) f c
exec-DoesOrFails driver text f c = elim (Result-cases (exec driver text f c).0) [
  | inl (e, failed) ↦ inr (e, failed, statement-eq-err driver text (λ db. (tt, f db)) c e failed)
  | inr (u, done) ↦ inl (done, (statement-eq-ok driver text (λ db. (tt, f db)) c tt done).1)
]

perform-DoesOrFails :
    (driver : Driver) (now : Time) (k : Command) (c : Conn)
    → DoesOrFails (perform driver now k) (effect now k) c
unfolding perform add_managed_apex delete_managed_apex add_managed_manual_host
    delete_managed_manual_host save_managed_crt_name save_managed_apex_crt_name
    add_managed_zone_file delete_managed_zone_file
perform-DoesOrFails driver now (add_apex apex) c = exec-DoesOrFails driver _ _ c
perform-DoesOrFails driver now (remove_apex apex) c = exec-DoesOrFails driver _ _ c
perform-DoesOrFails driver now (add_host host) c = exec-DoesOrFails driver _ _ c
perform-DoesOrFails driver now (remove_host hostname port) c = exec-DoesOrFails driver _ _ c
perform-DoesOrFails driver now (save_crt_name enabled endpoint) c = exec-DoesOrFails driver _ _ c
perform-DoesOrFails driver now (save_apex apex enabled) c = exec-DoesOrFails driver _ _ c
perform-DoesOrFails driver now (add_file path) c = exec-DoesOrFails driver _ _ c
perform-DoesOrFails driver now (remove_file path) c = exec-DoesOrFails driver _ _ c

-- Each of the eight methods of the store that change managed targets and sources, on any database and
-- whatever the driver does, either succeeds, and then the clients' view of the database is what the
-- method promises of the view before, or fails and leaves the database as it was. The view has the
-- managed apexes and zone files as sets, the apex of each managed host by name and port, the search's
-- settings, and those of each apex.
pub perform-refines :
    (driver : Driver) (now : Time) (k : Command) (c : Conn)
    → (((perform driver now k c).0 ≡ ok tt)
        × (view (perform driver now k c).1.db ≡ apply k (view c.db)))
      ⊎ ((e : Error) × ((perform driver now k c).0 ≡ err e)
          × ((perform driver now k c).1.db ≡ c.db))
perform-refines driver now k c = elim (perform-DoesOrFails driver now k c) [
  | inl (done, after) ↦ inl (done, ap view after ∙ effect-apply now c.db k)
  | inr failed ↦ inr failed
]
