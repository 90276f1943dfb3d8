-- ===== src/Tests/Data.antt =====
-- The inputs: an apex with one host, one certificate, one event, and a world that answers.
use certinv.Prelude.{
  ℤ, pos, ◌*ℤ◌, ◌*◌, leb_ℤ, ltb_ℤ, String, true, false, none, some, List, [], ◌∷◌,
}
use certinv.Clock.{day}
use certinv.Config.{Float64, Thresholds, ManualHost, Config}
use certinv.Cert.{Metadata}
use certinv.Discover.{Host}
use certinv.Discover.CrtName
use certinv.Discover.CrtName.{crt_name-InScope}
use certinv.Discover.ZoneFile
use certinv.Evaluate.{Event}
use certinv.Result.{ok}
use certinv.Notify.{HttpNotifier, slack}
use certinv.Store.Schema.{EventRow, empty_db}
use certinv.Store.Exec.{Conn, Driver}
use certinv.Core.{Outside, Runner, World}
use certinv.Cmd.SerialScan
use certinv.Cmd.SerialScan.{Reach-IsExclusive, scan_after_return, new, next, run}

abbrev pub apexes : List String
apexes = "example.com" ∷ []

abbrev pub www : Host
www = record {
  hostname = "www.example.com";
  port = pos 443;
  apex = "example.com";
  source = "zone";
  first_seen = none;
}

abbrev pub known_row : EventRow
known_row = record {
  id = 7;
  kind = "warn";
  fingerprint = "ab";
  host_id = some 1;
  occurred_at = 100;
  notified_at = none;
  acknowledged_at = none;
  acknowledged_by = none;
  detail = "certificate crossed warn threshold";
}

abbrev pub reliable : Driver
reliable _ = false

abbrev pub conn : Conn
conn = record { db = record empty_db { events = known_row ∷ [] }; calls = 0 }

abbrev pub event : Event
event = record { kind = "alert"; fingerprint = "ab"; host_id = 1; detail = "" }

-- a type of numbers for the thresholds' ratios
abbrev pub whole : Float64
whole = record {
  F = ℤ;
  of_int = λ n. n;
  mul = λ a b. a *ℤ b;
  trunc = λ n. n;
  le = leb_ℤ;
  lt = ltb_ℤ;
  literal = λ text. pos 0;
}

abbrev pub thresholds : Thresholds ℤ
thresholds = record {
  warn = record { ratio = pos 0; floor_days = pos 30 };
  alert = record { ratio = pos 0; floor_days = pos 7 };
}

abbrev pub cert : Metadata
cert = record {
  fingerprint = "ab";
  subject_cn = "www.example.com";
  issuer_cn = "R11";
  issuer_org = "Let's Encrypt";
  not_before = 0;
  not_after = 90 * day;
  lifetime_days = pos 90;
  sig_algorithm = "SHA256-RSA";
  key_algorithm = "RSA";
  key_bits = 2048;
  is_self_signed = false;
  san_names = "www.example.com" ∷ [];
  chain_complete = true;
  hostname_match = true;
}

abbrev pub manual_hosts : List ManualHost
manual_hosts = record { hostname = "WWW.example.com"; port = pos 0 } ∷ []

-- a service that answers with one name of the apex and one of another
abbrev pub answer : CrtName.Fetch
answer endpoint apex = ok (
    record {
      sub = "";
      subdomain = "www.example.com";
      name_value = "www.other.com";
      first_seen = "";
      not_before = "";
    }
    ∷ [])

abbrev pub zone : ZoneFile.Open
zone path =
    ok (record { lines = "$ORIGIN example.com." ∷ "www IN A 192.0.2.1" ∷ []; failure = none })

abbrev pub busy : SerialScan.Runner
busy = record { running = true; active = 0 ∷ []; begun = 1 }

-- the world outside: every name resolves, and every host presents the certificate
abbrev pub outside : Outside
outside = record {
  driver = reliable;
  clock = λ n. n;
  resolve = λ n name. ok true;
  probe = λ n target. ok (record { certificate = cert; http_status = 200 });
  post = λ n notifier e. ok 200;
  parse_time = λ layout text. none;
  fetch = answer;
  open_file = zone;
  cancelled = λ n. false;
}

abbrev pub notifier : HttpNotifier
notifier = record { name = "slack"; url = "https://example.com/hook"; events = []; build = slack }

abbrev pub config : Config ℤ
config = record {
  apexes = apexes;
  manual_hosts = manual_hosts;
  discovery = record {
    sources = "manual" ∷ [];
    crt_name = record { endpoint = "" };
    zone = record { files = []; allowed_dir = "" };
  };
  probe = record {
    concurrency = pos 1;
    connect_timeout = pos 0;
    handshake_timeout = pos 0;
    http_check = false;
    retire_after_days = pos 30;
  };
  thresholds = thresholds;
  storage = record { driver = "sqlite"; dsn = "" };
  schedule = record { interval = pos day };
  notifiers = [];
  exporter = record { listen = ""; basic_auth = record { username = ""; password = "" } };
}

abbrev pub runner : Runner ℤ
runner = record { config = config; sources = []; notifiers = notifier ∷ []; record_scans = false }

abbrev pub world : World
world = record { conn = conn; calls = 0; probed = []; sent = []; recorded = [] }
