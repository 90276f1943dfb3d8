-- ===== src/Core.antt =====
-- internal/core/core.go: what a scan is given, what it keeps, and its actions.
pub mod Laws
pub mod Owned
pub mod Notifying
pub mod Discovery
pub mod Hosts
pub mod Run
pub mod Scheduler
use certinv.Prelude.{
  ℕ, ◌+◌, ◌≤◌, ℤ, pos, String, concat, Bool, true, false, Option, none, some, List, [], ◌∷◌, ◌++◌,
  if◌then◌else◌,
}
use certinv.Clock.{Time, Duration}
use certinv.Config.{Float64, Config}
use certinv.Cert.{Metadata}
use certinv.Discover.{Host}
use certinv.Discover.CrtName.{ParseTime, Fetch}
use certinv.Discover.ZoneFile.{Open}
use certinv.Evaluate.{Event}
use certinv.Notify.{HttpNotifier, Post}
use certinv.Result.{Error, message, Result, ok, err}
use certinv.Store.Exec.{Driver, Conn, Action}

pub record Summary : Type 0 where
  pub discovered : ℕ
  pub resolved : ℕ
  pub probed : ℕ
  pub events : ℕ
  pub notified : ℕ
  pub notify_failed : ℕ
  pub failed : ℕ
  pub likely_auto : ℕ
  pub likely_manual : ℕ
  pub unknown_auto : ℕ

abbrev pub no_summary : Summary
no_summary = record {
  discovered = 0;
  resolved = 0;
  probed = 0;
  events = 0;
  notified = 0;
  notify_failed = 0;
  failed = 0;
  likely_auto = 0;
  likely_manual = 0;
  unknown_auto = 0;
}

-- probe.Target
pub record Target : Type 0 where
  pub hostname : String
  pub port : ℤ

-- probe.Result, as far as a scan reads it
pub record ProbeResult : Type 0 where
  pub certificate : Metadata
  pub http_status : ℕ

-- What a scan asks of the world outside. Each call is numbered, so that an answer may differ from
-- call to call: the driver's calls by the connection, the others by the scan.
pub record Outside : Type 0 where
  pub driver : Driver
  pub clock : ℕ → Time
  pub resolve : ℕ → String → Result Bool
  pub probe : ℕ → Target → Result ProbeResult
  pub post : Post
  pub parse_time : ParseTime
  pub fetch : Fetch
  pub open_file : Open
  pub cancelled : ℕ → Bool

-- discover.Source, for the sources that a caller adds
pub record Source : Type 0 where
  pub name : String
  pub discover : List String → Result (List Host)

-- The fields that a scan reads. `record_scans` says whether there is a recorder.
pub record Runner (F : Type 0) : Type 0 where
  pub config : Config F
  pub sources : List Source
  pub notifiers : List HttpNotifier
  pub record_scans : Bool

pub record Recorded : Type 0 where
  pub summary : Summary
  pub duration : Duration
  pub success : Bool
  pub occurred_at : Time

-- The state that a scan changes: the database, the number of calls made to the outside, the targets
-- probed, the notifications sent and the scans recorded, the latest last.
pub record World : Type 0 where
  pub conn : Conn
  pub calls : ℕ
  pub probed : List Target
  pub sent : List (String × Event)
  pub recorded : List Recorded

abbrev pub Step : Type 0 → Type 0
Step A = World → Result A × World

abbrev pub continue :
    {A B : Type 0} → Result A → (A → World → Result B × World) → World → Result B × World
continue (ok a) f w = f a w
continue (err e) f w = (err e, w)

infixl 5 ◌>>=◌ ◌>>◌
unfoldable pub ◌>>=◌ : {A B : Type 0} → Step A → (A → Step B) → Step B
◌>>=◌ m f w = let (r, w') = m w in continue r f w'

abbrev pub ◌>>◌ : {B : Type 0} → Step (Unit {0}) → Step B → Step B
m >> k = m >>= λ _. k

abbrev pub pure : {A : Type 0} → A → Step A
pure a w = (ok a, w)

abbrev pub lift : {A : Type 0} → Result A → Step A
lift r w = (r, w)

-- a method of the store
abbrev pub in_store : {A : Type 0} → Action A → Step A
in_store m w = let (r, c) = m w.conn in (r, record w { conn = c })

-- a call to the outside, with its number
unfoldable pub ask : {A : Type 0} → (ℕ → A) → Step A
ask f w = (ok (f w.calls), record w { calls = w.calls + 1 })
