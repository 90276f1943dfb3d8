-- ===== src/Ui.antt =====
-- internal/ui/ui.go: the web interface. A handler works on the store and the trigger of scans; what it
-- writes is its response. The values of a form, the library of public suffixes, the file system and
-- the clock are given from outside.
pub mod Stage
pub mod Forms
pub mod Labels
pub mod Lookups
pub mod Pages
pub mod Targets
pub mod Hosts
pub mod Events
pub mod Routes
pub mod Yields
pub mod Sound
use certinv.Prelude.{
  ℕ, ◌+◌, String, Bool, true, false, Option, none, some, List, [], ◌∷◌, ◌==◌, if◌then◌else◌, ℤ, any,
  find,
}
use certinv.Clock.{Time, Stamp}
use certinv.Config.{ManualHost, Discovery, CrtNameSource}
use certinv.Discover.CrtName.{ParseTime, Fetch}
use certinv.Result.{Error, Result, ok, err}
use certinv.Store.Exec.{Driver, Conn, Action}
use certinv.Store.Snapshots.{InventoryRow}
use certinv.Store.Events.{StoredEvent}
use certinv.Store.Hosts.{SuppressedHost}
use certinv.Store.Schema.{ZoneFileRow}
use certinv.Cmd.SerialScan.{Runner}

-- path/filepath and os.Stat; `walk` gives the files below a directory that were visited before an
-- error, as paths relative to it with slashes
pub record Paths : Type 0 where
  pub is_abs : String → Bool
  pub abs : String → Result String
  pub join : String → String → String
  pub clean : String → String
  pub rel : String → String → Result String
  pub stat_is_dir : String → Result Bool
  pub walk : String → List String

-- what a handler asks of the world outside; the clock answers by the number of the call
pub record Outside : Type 0 where
  pub driver : Driver
  pub clock : ℕ → Time
  pub etld_plus_one : String → Result String
  pub paths : Paths
  pub parse_time : ParseTime
  pub fetch : Fetch

pub record ConfigTargets : Type 0 where
  pub apexes : List String
  pub manual_hosts : List ManualHost

pub record SourceConfig : Type 0 where
  pub crt_name_enabled : Bool
  pub crt_name_endpoint : String
  pub zone_allowed_dir : String
  pub zone_files : List String

-- The fields of `Handler` that do not change; `has_scanner` says whether there is a trigger.
pub record Handler : Type 0 where
  pub config : ConfigTargets
  pub sources : SourceConfig
  pub has_scanner : Bool

-- `WithSourceConfig`
unfoldable pub source_config : Discovery → SourceConfig
source_config discovery = record {
  crt_name_enabled = any (λ s. s == "crtname") discovery.sources;
  crt_name_endpoint = discovery.crt_name.endpoint;
  zone_allowed_dir = discovery.zone.allowed_dir;
  zone_files = discovery.zone.files;
}

-- The store, the number of times that the clock was asked, and the runner of scans.
pub record Site : Type 0 where
  pub conn : Conn
  pub asked : ℕ
  pub scans : Runner

-- A request: `form` is none where `ParseForm` fails, and `tab`, `notice` and `problem` are the values
-- of the query's keys tab, notice and error.
pub record Request : Type 0 where
  pub method : String
  pub path : String
  pub tab : String
  pub notice : String
  pub problem : String
  pub form : Option (List (String × String))
  pub credentials : Option (String × String)

-- a text of a response: fixed, with a number at its %d, or that of an error
pub data Message : Type 0 where
  text : String → Message
  counted : String → ℕ → Message
  error_text : Error → Message

pub record TargetApex : Type 0 where
  pub apex : String
  pub origin : String
  pub can_delete : Bool
  pub crt_name_enabled : Bool

pub record TargetManualHost : Type 0 where
  pub hostname : String
  pub port : ℤ
  pub apex : String
  pub origin : String
  pub can_delete : Bool

pub record TargetRows : Type 0 where
  pub apexes : List TargetApex
  pub manual_hosts : List TargetManualHost

pub record CrtNameRow : Type 0 where
  pub enabled : Bool
  pub endpoint : String
  pub origin : String

pub record ZoneRows : Type 0 where
  pub allowed_dir : String
  pub enabled : Bool
  pub config_files : List String
  pub managed_files : List ZoneFileRow
  pub available_files : List String

pub record SourceRows : Type 0 where
  pub crt_name : CrtNameRow
  pub saved_crt_name : CrtNameRow
  pub zone : ZoneRows

pub record CrtNameCandidate : Type 0 where
  pub hostname : String
  pub apex : String

pub record CrtNameLookup : Type 0 where
  pub apexes : List String
  pub selected_apex : String
  pub candidates : List CrtNameCandidate

pub record CrtNameScope : Type 0 where
  pub enabled : Bool
  pub apexes : List String

pub record PageData : Type 0 where
  pub generated_at : Time
  pub tab : String
  pub inventory_tab : Bool
  pub sources_tab : Bool
  pub rows : List InventoryRow
  pub targets : TargetRows
  pub events : List StoredEvent
  pub suppressed : List SuppressedHost
  pub sources : SourceRows
  pub lookup : CrtNameLookup
  pub crt_name_scope : CrtNameScope
  pub notice : String
  pub problem : Message
  pub poll_scan : Bool

-- a cell of the exported table, whose text is that of the value
pub data Cell : Type 0 where
  words : String → Cell
  number : ℤ → Cell
  moment : Option Stamp → Cell
  truth : Bool → Cell
  joined : List String → Cell

-- `redirect` goes back to /ui with a tab and a message under a key; `found` is the redirect of "/".
pub data Response : Type 0 where
  not_allowed : (allow : String) → Response
  not_found : Response
  server_error : String → Response
  found : Response
  acknowledged : Response
  redirect : (tab key : String) → Message → Response
  page : PageData → Response
  csv : List (List Cell) → Response
  scan_status : Bool → Response
