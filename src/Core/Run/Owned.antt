-- ===== src/Core/Run/Owned.antt =====
-- A scan leaves what users manage.
use certinv.Prelude.{ℕ, ◌+◌, String, Option, none, some, List, [], ◌∷◌, refl, inl, inr, Bool-cases}
use certinv.Clock.{Time}
use certinv.Config.{Float64}
use certinv.Discover.{Host}
use certinv.Result.{Result, ok, err}
use certinv.Store.Schema.{Db}
use certinv.Store.Managed.Owned.{SameOwned, upsert_apex-Stays}
use certinv.Core.{Outside, Runner, World, Summary}
use certinv.Core.Owned.{
  Leaves, >>=-Leaves, in_store-Leaves, effective_apexes-Leaves, discover-Leaves,
  retry_pending_events-Leaves,
}
use certinv.Core.Hosts.Owned.{process_host-Leaves}
use certinv.Core.Discovery.{discover}
use certinv.Core.Notifying.{retry_pending_events}
use certinv.Core.Run.{
  process_hosts, handed_out, upsert_apexes, scanned, scan_hosts, after_retries, after_apexes,
  register, record_scan, run_from, run,
}

module _ (before : Db) (float : Float64) (out : Outside) (r : Runner float.F) where
  process_hosts-Leaves : (hosts : List Host) → Leaves before (process_hosts float out r hosts)
  unfolding process_hosts
  process_hosts-Leaves [] = record { at = λ w p. p }
  process_hosts-Leaves (h ∷ hosts) = record {
    at = λ w p.
        (process_hosts-Leaves hosts).at _
          ((process_host-Leaves {before = before} float out r h).at w p);
  }

  upsert_apexes-Leaves :
      (apexes : List String) (at : Time) → Leaves before (upsert_apexes float out r apexes at)
  unfolding upsert_apexes
  upsert_apexes-Leaves [] at = record { at = λ w p. p }
  upsert_apexes-Leaves (apex ∷ apexes) at =
      >>=-Leaves (in_store-Leaves _ (upsert_apex-Stays before out.driver apex at))
        (λ _. upsert_apexes-Leaves apexes at)

  pub register-Leaves : (at : Time) → Leaves before (register float out r at)
  register-Leaves at =
      >>=-Leaves (effective_apexes-Leaves out r) (λ apexes. upsert_apexes-Leaves apexes at)

  scanned-Leaves : (limit : Option ℕ) (s : Summary) → Leaves before (scanned float out r limit s)
  scanned-Leaves none s = record { at = λ w p. p }
  scanned-Leaves (some n) s = record { at = λ w p. p }

  scan_hosts-Leaves :
      (limit : Option ℕ) (s : Summary) (found : Result (List Host)) (w : World)
      → SameOwned before w.conn.db
      → SameOwned before (scan_hosts float out r limit s (found, w)).1.conn.db
  unfolding scan_hosts
  scan_hosts-Leaves limit s (err e) w p = p
  scan_hosts-Leaves limit s (ok hosts) w p =
      (scanned-Leaves limit _).at _ ((process_hosts-Leaves (handed_out limit hosts)).at w p)

  after_retries-Leaves :
      (limit : Option ℕ) (counts : Result (ℕ × ℕ)) (w : World)
      → SameOwned before w.conn.db
      → SameOwned before (after_retries float out r limit (counts, w)).1.conn.db
  after_retries-Leaves limit (err e) w p = p
  after_retries-Leaves limit (ok counts) w p =
      let found = discover out r w in
      scan_hosts-Leaves limit _ found.0 found.1 ((discover-Leaves {before = before} out r).at w p)

  after_apexes-Leaves :
      (limit : Option ℕ) (at : Time) (registered : Result (Unit {0})) (w : World)
      → SameOwned before w.conn.db
      → SameOwned before (after_apexes float out r limit at (registered, w)).1.conn.db
  after_apexes-Leaves limit at (err e) w p = p
  after_apexes-Leaves limit at (ok _) w p =
      let retried = retry_pending_events out r.notifiers at w in
      after_retries-Leaves limit retried.0 retried.1
        ((retry_pending_events-Leaves {before = before} out r.notifiers at).at w p)

  record_scan-Leaves :
      (started : Time) (e : Result (Unit {0})) (s : Summary)
      → Leaves before (λ w. record_scan float out r started ((e, s), w))
  record_scan-Leaves started e s = elim (Bool-cases r.record_scans) [
    | inl y ↦ record { at = λ w p. rw y p }
    | inr n ↦ record { at = λ w p. rw n p }
  ]

-- A scan, whatever its configuration, whatever the world outside answers and whatever fails, leaves all
-- that users manage as it was: the managed apexes, the managed hosts, the suppressed hosts, the settings
-- of the search and those of each apex, and the zone files.
pub run-SameOwned :
    (float : Float64) (out : Outside) (r : Runner float.F) (limit : Option ℕ) (w : World)
    → SameOwned w.conn.db (run float out r limit w).1.conn.db
unfolding run run_from
run-SameOwned float out r limit w =
    let started = out.clock w.calls in
    let begun : World = record w { calls = w.calls + 1 } in
    let registered = register float out r started begun in
    let body = after_apexes float out r limit started registered in
    (record_scan-Leaves w.conn.db float out r started body.0.0 body.0.1).at body.1 (
      after_apexes-Leaves w.conn.db float out r limit started registered.0 registered.1 (
        (register-Leaves w.conn.db float out r started).at begun
          (refl, refl, refl, refl, refl, refl)))
