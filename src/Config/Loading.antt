-- ===== src/Config/Loading.antt =====
-- `Load`: the defaults, the values of the file over them, `normalize` and `Validate`. Reading the file,
-- the YAML decoder, the library of public suffixes and `net.ParseIP` are parameters.
use certinv.Prelude.{
  ℤ, pos, ◌*ℤ◌, int_eq, ltb_ℤ, String, concat, Bool, true, false, not, ◌&&◌, ◌||◌, List, [], ◌∷◌,
  map, any, ◌==◌, if◌then◌else◌,
}
use certinv.Clock.{Duration}
use certinv.Text.{trim_space, to_lower, trim_suffix, has_suffix}
use certinv.Result.{Error, message, about, wrap, Result, ok, err, fail_if, ◌>>=◌, ◌>>◌}
use certinv.Config.{Float64, Threshold, ManualHost, Config}

-- what the check of names asks of libraries
pub record NameLibrary : Type 0 where
  pub is_ip : String → Bool
  pub etld_plus_one : String → Result String

abbrev seconds : ℤ → Duration
seconds n = n *ℤ pos 1000000000

unfoldable pub default_config : (float : Float64) → Config float.F
default_config float = record {
  apexes = [];
  manual_hosts = [];
  discovery = record {
    sources = "crtname" ∷ "manual" ∷ [];
    crt_name = record { endpoint = "https://crt.name/v1/search" };
    zone = record { files = []; allowed_dir = "" };
  };
  probe = record {
    concurrency = pos 5;
    connect_timeout = seconds (pos 5);
    handshake_timeout = seconds (pos 5);
    http_check = false;
    retire_after_days = pos 30;
  };
  thresholds = record {
    warn = record { ratio = float.literal "0.25"; floor_days = pos 3 };
    alert = record { ratio = float.literal "0.10"; floor_days = pos 1 };
  };
  storage = record { driver = "sqlite"; dsn = "./certinv.db" };
  schedule = record { interval = seconds (pos 21600) };
  notifiers = [];
  exporter = record { listen = ":9101"; basic_auth = record { username = ""; password = "" } };
}

abbrev pub normalize_name : String → String
normalize_name name = trim_suffix (to_lower (trim_space name)) "."

abbrev pub normalize_manual_host : ManualHost → ManualHost
normalize_manual_host m = record {
  hostname = normalize_name m.hostname;
  port = if int_eq m.port (pos 0) then pos 443 else m.port;
}

unfoldable pub normalize : {F : Type 0} → Config F → Config F
normalize c = record c {
  apexes = map normalize_name c.apexes;
  manual_hosts = map normalize_manual_host c.manual_hosts;
}

abbrev is_positive : ℤ → Bool
is_positive n = ltb_ℤ (pos 0) n

-- `if test { return error }`, for a test that has to hold
abbrev pub require : Bool → Error → Result (Unit {0})
require holds e = fail_if (not holds) e

abbrev pub is_empty : {A : Type 0} → List A → Bool
is_empty [] = true
is_empty (_ ∷ _) = false

abbrev pub etld_matches : String → Result String → Result (Unit {0})
etld_matches apex (err e) = err (wrap "apex is not a registrable domain" e)
etld_matches apex (ok etld1) = require (etld1 == apex) (about "apex must be eTLD+1" apex)

-- whether the name is an apex or ends with one behind a dot
abbrev pub is_below : String → String → Bool
is_below hostname apex = hostname == apex || has_suffix hostname (concat "." apex)

module _ (library : NameLibrary) where
  unfoldable pub validate_apex : String → Result (Unit {0})
  validate_apex apex = do
    fail_if (apex == "") (message "apex must not be empty")
    fail_if (library.is_ip apex) (about "apex must be a domain name" apex)
    etld_matches apex (library.etld_plus_one apex)

  -- the loop over the apexes, with those that were seen
  unfoldable pub validate_apexes : List String → List String → Result (Unit {0})
  validate_apexes seen [] = ok tt
  validate_apexes seen (apex ∷ apexes) = do
    validate_apex apex
    fail_if (any (λ s. s == apex) seen) (about "duplicate apex" apex)
    validate_apexes (apex ∷ seen) apexes

  unfoldable pub validate_manual_host : List String → ManualHost → Result (Unit {0})
  validate_manual_host apexes host = do
    fail_if (host.hostname == "") (message "manual host hostname is required")
    fail_if (library.is_ip host.hostname) (about "manual host must be a domain name" host.hostname)
    fail_if (ltb_ℤ host.port (pos 1) || ltb_ℤ (pos 65535) host.port)
        (about "manual host has invalid port" host.hostname)
    require (any (is_below host.hostname) apexes)
        (about "manual host is outside configured apexes" host.hostname)

  unfoldable pub validate_manual_hosts : List String → List ManualHost → Result (Unit {0})
  validate_manual_hosts apexes [] = ok tt
  validate_manual_hosts apexes (host ∷ hosts) = do
    validate_manual_host apexes host
    validate_manual_hosts apexes hosts

unfoldable pub validate_sources : List String → Result (Unit {0})
validate_sources [] = ok tt
validate_sources (source ∷ sources) = do
  require (source == "crtname" || source == "manual" || source == "zone")
      (about "unsupported discovery source" source)
  validate_sources sources

abbrev has_source : String → List String → Bool
has_source name sources = any (λ s. s == name) sources

-- the settings of the sources that are switched on
unfoldable pub validate_discovery : {F : Type 0} → Config F → Result (Unit {0})
validate_discovery c = do
  validate_sources c.discovery.sources
  fail_if
      (has_source "crtname" c.discovery.sources && trim_space c.discovery.crt_name.endpoint == "")
      (message "discovery.crtname.endpoint is required")
  fail_if (has_source "zone" c.discovery.sources && is_empty c.discovery.zone.files)
      (message "discovery.zone.files is required when zone source is enabled")

module _ (float : Float64) where
  unfoldable pub validate_threshold : String → Threshold float.F → Result (Unit {0})
  validate_threshold name t = do
    fail_if (float.le t.ratio (float.of_int (pos 0)) || float.lt (float.of_int (pos 1)) t.ratio)
        (about "ratio must be greater than 0 and at most 1" name)
    fail_if (ltb_ℤ t.floor_days (pos 0)) (about "floor_days must not be negative" name)

  -- what stands behind the manual hosts
  unfoldable pub validate_rest : Config float.F → Result (Unit {0})
  validate_rest c = do
    require (is_positive c.probe.concurrency) (message "probe.concurrency must be positive")
    require (is_positive c.probe.connect_timeout) (message "probe.connect_timeout must be positive")
    require (is_positive c.probe.handshake_timeout)
        (message "probe.handshake_timeout must be positive")
    require (is_positive c.probe.retire_after_days)
        (message "probe.retire_after_days must be positive")
    validate_threshold "thresholds.warn" c.thresholds.warn
    validate_threshold "thresholds.alert" c.thresholds.alert
    require (c.storage.driver == "sqlite") (about "unsupported storage driver" c.storage.driver)
    fail_if (trim_space c.storage.dsn == "") (message "storage.dsn is required")
    require (is_positive c.schedule.interval) (message "schedule.interval must be positive")
    fail_if (trim_space c.exporter.listen == "") (message "exporter.listen is required")
    fail_if
        (trim_space c.exporter.basic_auth.username == ""
          && not (trim_space c.exporter.basic_auth.password == ""))
        (message "exporter.basic_auth.username is required when password is set")
    fail_if
        (not (trim_space c.exporter.basic_auth.username == "")
          && trim_space c.exporter.basic_auth.password == "")
        (message "exporter.basic_auth.password is required when username is set")

  unfoldable pub validate : NameLibrary → Config float.F → Result (Unit {0})
  validate library c = do
    fail_if (is_empty c.apexes) (message "at least one apex is required")
    validate_apexes library [] c.apexes
    validate_discovery c
    validate_manual_hosts library c.apexes c.manual_hosts
    validate_rest c

  abbrev pub in_front : {A : Type 0} → String → Result A → Result A
  in_front what (ok a) = ok a
  in_front what (err e) = err (wrap what e)

  -- the rest of `Load`, with the values of the file over the defaults
  unfoldable pub checked : NameLibrary → Config float.F → Result (Config float.F)
  checked library decoded = do validate library (normalize decoded); ok (normalize decoded)

  unfoldable pub load :
      {Data : Type 0}
      → NameLibrary
      → (read_file : String → Result Data)
      → (unmarshal : Data → Config float.F → Result (Config float.F)) → String
      → Result (Config float.F)
  load library read_file unmarshal path = do
    fail_if (trim_space path == "") (message "config path is required")
    data_read ← in_front "read config" (read_file path)
    decoded ← in_front "parse config" (unmarshal data_read (default_config float))
    checked library decoded
