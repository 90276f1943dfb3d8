-- ===== src/Core/Run/Suppressed.antt =====
-- A scan probes no suppressed host.
use certinv.Prelude.{
  ℕ, ◌+◌, ℤ, int_eq, String, Bool, true, false, not, ◌&&◌, Option, List, map, any, select, All,
  All-map, ◌++◌, ◌==◌, ◌≡◌, refl, sym, ◌∙◌, subst, inl, inr, Bool-cases,
}
use certinv.Clock.{Time}
use certinv.Config.{Float64}
use certinv.Discover.{Host, normalize_hostname, merge}
use certinv.Result.{Result, ok, err}
use certinv.Store.Schema.{Db, SuppressedRow}
use certinv.Store.Table.{order_by}
use certinv.Store.Exec.{query}
use certinv.Store.Hosts.{SuppressedHost, suppressed_hosts}
use certinv.Store.Snapshots.Inventory.{any-order_by, any-map, select_passes}
use certinv.Store.Managed.Owned.{SameOwned}
use certinv.Core.{Outside, Runner, World, Target, no_summary, Step, continue, ◌>>=◌, in_store}
use certinv.Core.Owned.{
  Leaves, effective_apexes-Leaves, effective_sources-Leaves, effective_manual_hosts-Leaves,
  discover_sources-Leaves, manual_group-Leaves, retry_pending_events-Leaves,
}
use certinv.Core.Discovery.{is_suppressed, in_context, discover}
use certinv.Core.Discovery.Probing.{discover-IsQuiet}
use certinv.Core.Notifying.{retry_pending_events}
use certinv.Core.Run.{run, register, after_apexes, after_retries}
use certinv.Core.Run.Frame.{register-IsCalm, retry_pending_events-IsCalm}
use certinv.Core.Run.Owned.{register-Leaves}
use certinv.Core.Run.Scope.{scan_hosts-keeps, record_scan-probed}

-- no row suppresses this name, normalized, and port
abbrev pub IsUnsuppressed : List SuppressedRow → String → ℤ → Type 0
IsUnsuppressed rows hostname port =
    any (λ r. normalize_hostname r.hostname == normalize_hostname hostname && int_eq r.port port)
      rows
    ≡ false

abbrev AllOk : {A : Type 0} → (A → Type 0) → Result A → Type 0
AllOk Q (ok a) = Q a
AllOk Q (err e) = Unit {0}

-- what a step gives where it succeeds, in a world whose managed tables are these
record Gives (before : Db) {A : Type 0} (Q : A → Type 0) (m : Step A) : Type 0 where
  at : (w : World) → SameOwned before w.conn.db → AllOk Q (m w).0

module _ {before : Db} where
  continue-Gives :
      {A B : Type 0} {Q : B → Type 0} (x : Result A) (f : A → Step B)
      → ((a : A) → Gives before Q (f a))
      → (w : World) → SameOwned before w.conn.db
      → AllOk Q (continue x f w).0
  continue-Gives (ok a) f h w p = (h a).at w p
  continue-Gives (err e) f h w p = tt

  >>=-Gives :
      {A B : Type 0} {Q : B → Type 0} {m : Step A} {f : A → Step B}
      → Leaves before m
      → ((a : A) → Gives before Q (f a))
      → Gives before Q (m >>= f)
  unfolding ◌>>=◌
  >>=-Gives {m} {f} hm hf = record { at = λ w p. continue-Gives (m w).0 f hf (m w).1 (hm.at w p) }

module _ (before : Db) (out : Outside) where
  abbrev AreUnsuppressed : List Host → Type 0
  AreUnsuppressed = All (λ h. IsUnsuppressed before.suppressed_hosts h.hostname h.port)

  not-true : (b : Bool) → not b ≡ true → b ≡ false
  not-true true h = absurd (cc h)
  not-true false h = refl

  not_suppressed :
      (rows : List SuppressedRow) (le : SuppressedRow → SuppressedRow → Bool) (h : Host)
      → not (
          is_suppressed
            (map {B = SuppressedHost}
              (λ r. record { hostname = r.hostname; port = r.port })
              (order_by le rows))
            h)
        ≡ true
      → IsUnsuppressed rows h.hostname h.port
  not_suppressed rows le h passed =
      let test = λ (r : SuppressedRow).
        normalize_hostname r.hostname == normalize_hostname h.hostname && int_eq r.port h.port in
      sym (any-order_by test le rows)
      ∙ sym (
          any-map
            (λ (s : SuppressedHost).
              normalize_hostname s.hostname == normalize_hostname h.hostname
              && int_eq s.port h.port)
            (λ (r : SuppressedRow). record { hostname = r.hostname; port = r.port })
            (order_by le rows))
      ∙ not-true _ passed

  -- the last step of the discovery
  abbrev filtered : List Host → Step (List Host)
  filtered found =
      in_context "load suppressed hosts" (in_store (suppressed_hosts out.driver))
      >>= λ suppressed w. (ok (select (λ h. not (is_suppressed suppressed h)) found), w)

  filtered-Gives : (found : List Host) → Gives before AreUnsuppressed (filtered found)
  unfolding ◌>>=◌ suppressed_hosts certinv.Store.Exec.statement
  filtered-Gives found = record {
    at = λ w p. elim (Bool-cases (out.driver w.conn.calls)) [
      | inl bad ↦ rw bad tt
      | inr good ↦ rw good (
          All-map _ (λ h. IsUnsuppressed before.suppressed_hosts h.hostname h.port)
            (λ h passed.
              subst (λ rows. IsUnsuppressed rows h.hostname h.port) p.2
                (not_suppressed w.conn.db.suppressed_hosts _ h passed))
            _ (select_passes _ found))
    ];
  }

module _ (before : Db) (float : Float64) (out : Outside) (r : Runner float.F) where
  discover-Gives : Gives before (AreUnsuppressed before out) (discover out r)
  unfolding discover
  discover-Gives = >>=-Gives (effective_apexes-Leaves out r) (λ apexes.
      >>=-Gives (effective_sources-Leaves out r) (λ sources.
        >>=-Gives (discover_sources-Leaves sources apexes) (λ groups.
          >>=-Gives (discover_sources-Leaves r.sources apexes) (λ more.
            >>=-Gives (effective_manual_hosts-Leaves out r apexes) (λ hosts.
              >>=-Gives (manual_group-Leaves out r hosts apexes)
                (λ manual. filtered-Gives before out (merge (groups ++ (more ++ manual)))))))))

  -- the target is not suppressed
  abbrev IsFree : Target → Type 0
  IsFree t = IsUnsuppressed before.suppressed_hosts t.hostname t.port

  of_ok :
      (x : Result (List Host)) (hosts : List Host)
      → AllOk (AreUnsuppressed before out) x
      → x ≡ ok hosts
      → AreUnsuppressed before out hosts
  of_ok x hosts all e = subst (AllOk (AreUnsuppressed before out)) e all

  after_retries-IsFree :
      (limit : Option ℕ) (x : Result (ℕ × ℕ)) (w : World)
      → SameOwned before w.conn.db
      → All IsFree w.probed
      → All IsFree (after_retries float out r limit (x, w)).1.probed
  after_retries-IsFree limit (err e) w p k = k
  after_retries-IsFree limit (ok counts) w p k =
      let found = discover out r w in
      let s = record no_summary { notified = counts.0; notify_failed = counts.1 } in
      scan_hosts-keeps float out r IsFree limit s found.0 found.1
        (λ hosts e. of_ok found.0 hosts (discover-Gives.at w p) e)
        (subst (All IsFree) (sym ((discover-IsQuiet out r).at w)) k)

  after_apexes-IsFree :
      (limit : Option ℕ) (at : Time) (x : Result (Unit {0})) (w : World)
      → SameOwned before w.conn.db
      → All IsFree w.probed
      → All IsFree (after_apexes float out r limit at (x, w)).1.probed
  after_apexes-IsFree limit at (err e) w p k = k
  after_apexes-IsFree limit at (ok u) w p k =
      let retried = retry_pending_events out r.notifiers at w in
      after_retries-IsFree limit retried.0 retried.1
        ((retry_pending_events-Leaves {before = before} out r.notifiers at).at w p)
        (subst (All IsFree) (sym ((retry_pending_events-IsCalm out r.notifiers at).at w).probed) k)

-- A scan probes no host that is suppressed when it begins: no target probed has the name, normalized,
-- and the port of a row of suppressed hosts, if none probed before has. This holds whatever the world
-- outside answers, whatever fails, and wherever the context ends the scan.
pub run-IsUnsuppressed :
    (float : Float64) (out : Outside) (r : Runner float.F) (limit : Option ℕ) (w : World)
    → All (λ (t : Target). IsUnsuppressed w.conn.db.suppressed_hosts t.hostname t.port) w.probed
    → All
        (λ (t : Target). IsUnsuppressed w.conn.db.suppressed_hosts t.hostname t.port)
        (run float out r limit w).1.probed
unfolding run
run-IsUnsuppressed float out r limit w k =
    let before = w.conn.db in
    let free = λ (t : Target). IsUnsuppressed before.suppressed_hosts t.hostname t.port in
    let at = out.clock w.calls in
    let begun : World = record w { calls = w.calls + 1 } in
    let registered = register float out r at begun in
    let done = after_apexes float out r limit at registered in
    subst (All free) (sym (record_scan-probed float out r at done.0 done.1)) (
      after_apexes-IsFree before float out r limit at registered.0 registered.1
        ((register-Leaves before float out r at).at begun (refl, refl, refl, refl, refl, refl))
        (subst (All free) (sym ((register-IsCalm float out r at).at begun).probed) k))
