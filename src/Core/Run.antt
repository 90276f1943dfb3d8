-- ===== src/Core/Run.antt =====
-- One scan: `Runner.run`. The workers are one here: the hosts are processed one after another, in
-- the order in which they are handed out. The runner has its configuration, resolver, prober and
-- store, so that the tests for nil pass.
pub mod Probing
pub mod Owned
pub mod Suppressed
pub mod Frame
pub mod Scope
use certinv.Prelude.{
  ℕ, zero, suc, ◌+◌, leb, ltb, ℤ, String, Bool, true, false, not, ◌&&◌, Option, none, some, List,
  [], ◌∷◌, ◌++◌, length, ◌==◌, if◌then◌else◌,
}
use certinv.Clock.{Time, Duration, sub}
use certinv.Config.{Float64}
use certinv.Discover.{Host}
use certinv.Result.{Error, message, Result, ok, err}
use certinv.Store.Hosts.{upsert_apex}
use certinv.Core.{
  Summary, no_summary, Outside, Runner, Recorded, World, Step, ◌>>=◌, ◌>>◌, pure, lift, in_store,
}
use certinv.Core.Notifying.{retry_pending_events}
use certinv.Core.Discovery.{effective_apexes, discover}
use certinv.Core.Hosts.{HostResult, process_host}

abbrev pub one : Bool → ℕ
one true = 1
one false = 0

abbrev has_failed : Option Error → Bool
has_failed none = false
has_failed (some e) = true

-- one round of the loop over the results
unfoldable pub count_result : Summary → HostResult → Summary
count_result s r = record s {
  resolved = s.resolved + one r.resolved;
  probed = s.probed + one r.probed;
  events = s.events + one r.evented;
  notified = s.notified + one r.notified;
  notify_failed = s.notify_failed + one r.notify_failed;
  likely_auto = s.likely_auto + one r.likely_auto;
  likely_manual = s.likely_manual + one r.likely_manual;
  unknown_auto = s.unknown_auto + one r.unknown_auto;
  failed = s.failed + one (has_failed r.failure);
}

unfoldable pub count_results : Summary → List HostResult → Summary
count_results s [] = s
count_results s (r ∷ results) = count_results (count_result s r) results

-- the hosts that are handed out before the context is done, if it is
abbrev pub handed_out : Option ℕ → List Host → List Host
handed_out none hosts = hosts
handed_out (some zero) hosts = []
handed_out (some (suc n)) [] = []
handed_out (some (suc n)) (h ∷ hosts) = h ∷ handed_out (some n) hosts

abbrev canceled : Error
canceled = message "context canceled"

module _ (float : Float64) (out : Outside) (r : Runner float.F) where
  unfoldable pub process_hosts : List Host → World → List HostResult × World
  process_hosts [] w = ([], w)
  process_hosts (h ∷ hosts) w =
      let (x, w₁) = process_host float out r h w in
      let (xs, w₂) = process_hosts hosts w₁ in (x ∷ xs, w₂)

  unfoldable pub upsert_apexes : List String → Time → Step (Unit {0})
  upsert_apexes [] at = pure tt
  upsert_apexes (apex ∷ apexes) at = do
    in_store (upsert_apex out.driver apex at)
    upsert_apexes apexes at

  -- The summary that comes back beside an error is empty, but for an error of the retries or of the
  -- context. `limit` says after how many hosts the context was done.
  abbrev pub scanned : Option ℕ → Summary → World → (Result (Unit {0}) × Summary) × World
  scanned limit s w = elim limit [ none ↦ ((ok tt, s), w) | some n ↦ ((err canceled, s), w) ]

  unfoldable pub scan_hosts :
      Option ℕ → Summary → Result (List Host) × World → (Result (Unit {0}) × Summary) × World
  scan_hosts limit s (err e, w) = ((err e, no_summary), w)
  scan_hosts limit s (ok hosts, w) =
      let (results, w') = process_hosts (handed_out limit hosts) w in
      scanned limit (count_results (record s { discovered = length hosts }) results) w'

  abbrev pub after_retries :
      Option ℕ → Result (ℕ × ℕ) × World → (Result (Unit {0}) × Summary) × World
  after_retries limit (err e, w) = ((err e, no_summary), w)
  after_retries limit (ok counts, w) =
      scan_hosts limit (record no_summary { notified = counts.0; notify_failed = counts.1 })
        (discover out r w)

  abbrev pub after_apexes :
      Option ℕ → Time → Result (Unit {0}) × World → (Result (Unit {0}) × Summary) × World
  after_apexes limit at (err e, w) = ((err e, no_summary), w)
  after_apexes limit at (ok _, w) = after_retries limit (retry_pending_events out r.notifiers at w)

  abbrev pub register : Time → Step (Unit {0})
  register at = do apexes ← effective_apexes out r; upsert_apexes apexes at

  abbrev is_ok : Result (Unit {0}) → Bool
  is_ok (ok _) = true
  is_ok (err e) = false

  -- the deferred `RecordScan`, which asks for the time twice
  abbrev pub record_scan :
      Time → (Result (Unit {0}) × Summary) × World → (Result (Unit {0}) × Summary) × World
  record_scan started ((e, s), w) =
      if r.record_scans
      then (
        (e, s),
        record w {
          calls = w.calls + 2;
          recorded =
              w.recorded
              ++ record {
                summary = s;
                duration = sub (out.clock w.calls) started;
                success = is_ok e;
                occurred_at = out.clock (w.calls + 1);
              }
                ∷ [];
        },
      )
      else ((e, s), w)

  -- the body of a scan that began at this time
  unfoldable pub run_from : Option ℕ → Time → World → (Result (Unit {0}) × Summary) × World
  run_from limit started w = after_apexes limit started (register started w)

  unfoldable pub run : Option ℕ → World → (Result (Unit {0}) × Summary) × World
  unfolding run_from
  run limit w =
      let started = out.clock w.calls in
      record_scan started (run_from limit started (record w { calls = w.calls + 1 }))
