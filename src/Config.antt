-- ===== src/Config.antt =====
-- internal/config/config.go: the configuration's types.
pub mod Loading
pub mod Checked
pub mod ManualHosts
use certinv.Prelude.{ℤ, String, Bool, List}
use certinv.Clock.{Duration}

-- Go's `float64` as far as the program uses it: the type and its operations are taken as given.
pub record Float64 : Type 1 where
  pub F : Type 0
  pub of_int : ℤ → F
  pub mul : F → F → F
  pub trunc : F → ℤ
  pub le : F → F → Bool
  pub lt : F → F → Bool
  pub literal : String → F

pub record Threshold (F : Type 0) : Type 0 where
  pub ratio : F
  pub floor_days : ℤ

pub record Thresholds (F : Type 0) : Type 0 where
  pub warn : Threshold F
  pub alert : Threshold F

pub record ManualHost : Type 0 where
  pub hostname : String
  pub port : ℤ

pub record CrtNameSource : Type 0 where
  pub endpoint : String

pub record ZoneSource : Type 0 where
  pub files : List String
  pub allowed_dir : String

pub record Discovery : Type 0 where
  pub sources : List String
  pub crt_name : CrtNameSource
  pub zone : ZoneSource

pub record Probe : Type 0 where
  pub concurrency : ℤ
  pub connect_timeout : Duration
  pub handshake_timeout : Duration
  pub http_check : Bool
  pub retire_after_days : ℤ

pub record Storage : Type 0 where
  pub driver : String
  pub dsn : String

pub record Schedule : Type 0 where
  pub interval : Duration

pub record Notifier : Type 0 where
  pub kind : String
  pub webhook_url_env : String
  pub url : String
  pub events : List String

pub record ExporterAuth : Type 0 where
  pub username : String
  pub password : String

pub record Exporter : Type 0 where
  pub listen : String
  pub basic_auth : ExporterAuth

pub record Config (F : Type 0) : Type 0 where
  pub apexes : List String
  pub manual_hosts : List ManualHost
  pub discovery : Discovery
  pub probe : Probe
  pub thresholds : Thresholds F
  pub storage : Storage
  pub schedule : Schedule
  pub notifiers : List Notifier
  pub exporter : Exporter
