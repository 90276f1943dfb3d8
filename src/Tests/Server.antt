-- ===== src/Tests/Server.antt =====
-- The configuration that is loaded, the server and a scan at concrete inputs.
use certinv.Prelude.{
  select, leb_ℤ, if◌then◌else◌, Bool-cases, inl, inr, ℤ, pos, ◌≤ℤ◌, String, Bool, true, false,
  Option, none, some, List, [], ◌∷◌, length, All, ◌==◌, ◌≡◌, ◌⊎◌, refl, any,
}
use certinv.Config.{Config, Float64, ExporterAuth}
use certinv.Config.Loading.{NameLibrary, default_config, load, normalize, is_empty, is_below}
use certinv.Config.Checked.{AreFresh, IsCheckedHost, load-IsChecked}
use certinv.Config.ManualHosts.{load-manual_total}
use certinv.Discover.{Host}
use certinv.Discover.Manual
use certinv.Exporter.{Division, Exporter, Sample, collect}
use certinv.Exporter.Ratio.{is_ratio, InUnit, IsOrdered, collect-InUnit}
use certinv.Store.Snapshots.{CertificateMetric}
use certinv.Result.{Result, ok}
use certinv.Cmd.SerialScan.{IsExclusive, new}
use certinv.Cmd.Serve.{serve_http, unauthorized, serve_http_guarded}
use certinv.Ui.{Request}
use certinv.Ui.Sound.{IsSound}
use certinv.Store.Managed.Owned.{SameOwned}
use certinv.Core.Run.{run}
use certinv.Core.{World, Target}
use certinv.Core.Run.Owned.{run-SameOwned}
use certinv.Core.Run.Suppressed.{IsUnsuppressed, run-IsUnsuppressed}
use certinv.Tests.Data.{outside, runner, world, whole, manual_hosts}
use certinv.Tests.Web.{web, ui, site, add_www}

abbrev library : NameLibrary
library = record { is_ip = λ name. false; etld_plus_one = λ name. ok name }

abbrev unmarshal : Unit {0} → Config ℤ → Result (Config ℤ)
unmarshal text defaults = ok (record defaults {
  apexes = "Example.com." ∷ [];
  manual_hosts = manual_hosts;
  thresholds = record {
    warn = record { ratio = pos 1; floor_days = pos 3 };
    alert = record { ratio = pos 1; floor_days = pos 1 };
  };
})

-- the defaults, with what the file says, normalized
abbrev loaded : Config ℤ
loaded = normalize (record (default_config whole) {
  apexes = "Example.com." ∷ [];
  manual_hosts = manual_hosts;
  thresholds = record {
    warn = record { ratio = pos 1; floor_days = pos 3 };
    alert = record { ratio = pos 1; floor_days = pos 1 };
  };
})

load_test : load whole library (λ path. ok tt) unmarshal "config.yaml" ≡ ok loaded
unfolding load certinv.Text.trim_space certinv.Config.Loading.checked
    certinv.Config.Loading.validate normalize certinv.Config.Loading.validate_apexes
    certinv.Config.Loading.validate_apex certinv.Text.trim_suffix certinv.Text.to_lower any
    certinv.Config.Loading.validate_discovery certinv.Config.Loading.validate_sources default_config
    certinv.Config.Loading.validate_manual_hosts certinv.Config.Loading.validate_manual_host
    certinv.Prelude.int_eq certinv.Text.has_suffix certinv.Config.Loading.validate_rest
    certinv.Config.Loading.validate_threshold certinv.Prelude.◌*ℤ◌
load_test = refl

load-IsChecked_example :
    (is_empty loaded.apexes ≡ false)
    × All (λ a. library.etld_plus_one a ≡ ok a) loaded.apexes
    × AreFresh [] loaded.apexes
    × All (IsCheckedHost loaded.apexes) loaded.manual_hosts
load-IsChecked_example =
    load-IsChecked whole library (λ path. ok tt) unmarshal "config.yaml" loaded load_test

load-manual_total_example :
    (found : List Host) × (Manual.discover loaded.manual_hosts loaded.apexes ≡ ok found)
    × (length found ≡ length loaded.manual_hosts)
unfolding normalize certinv.Text.Trim.ends_clean certinv.Text.trim_suffix certinv.Text.to_lower
    certinv.Text.trim_space
load-manual_total_example =
    load-manual_total whole library (λ path. ok tt) unmarshal "config.yaml" loaded load_test
      (refl, tt)

abbrev auth : ExporterAuth
auth = record { username = "admin"; password = "secret" }

abbrev signed : Request
signed = record add_www { credentials = some ("admin", "secret") }

serve_http_guarded_example :
    ((signed.credentials ≡ some (auth.username, auth.password))
      × IsSound web ui
          (serve_http web ui auth signed site).1.conn.db
          (serve_http web ui auth signed site).1.scans
      × IsExclusive (serve_http web ui auth signed site).1.scans)
    ⊎ (serve_http web ui auth signed site ≡ (unauthorized, site))
serve_http_guarded_example =
    serve_http_guarded web ui auth signed site refl ((refl, tt), tt, tt, new)

run-SameOwned_example : SameOwned world.conn.db (run whole outside runner none world).1.conn.db
run-SameOwned_example = run-SameOwned whole outside runner none world

abbrev hiding : World
hiding = record world {
  conn = record world.conn {
    db = record world.conn.db {
      suppressed_hosts =
          record { hostname = "www.example.com"; port = pos 443; suppressed_at = 0 } ∷ [];
    };
  };
}

run-IsUnsuppressed_example :
    All
      (λ (t : Target). IsUnsuppressed hiding.conn.db.suppressed_hosts t.hostname t.port)
      (run whole outside runner none hiding).1.probed
run-IsUnsuppressed_example = run-IsUnsuppressed whole outside runner none hiding tt

abbrev whole_division : Division whole
whole_division = record { seconds = λ d. d; div = λ a b. if leb_ℤ b a then pos 1 else pos 0 }

whole_division-IsOrdered : IsOrdered whole whole_division
whole_division-IsOrdered = record {
  zero = (refl, refl);
  one = (refl, refl);
  quotient = λ a b positive_a positive_b bounded. elim (Bool-cases (leb_ℤ b a)) [
    | inl y ↦ rw y (refl, refl)
    | inr n ↦ rw n (refl, refl)
  ];
}

abbrev expired : CertificateMetric
expired = record {
  fingerprint = "ab";
  issuer = "R11";
  common_name = "www.example.com";
  automation = "likely_auto";
  not_before = 5;
  not_after = 9;
  lifetime_days = pos 0;
}

abbrev exporter : Exporter ℤ
exporter = record { last_duration = pos 0; last_success_unix = pos 0 }

collect-InUnit_example :
    All
      (λ (s : Sample ℤ). InUnit whole s.value)
      (select is_ratio (
        collect whole whole_division exporter 7
          (ok (record { certificates = expired ∷ []; hosts = [] }))))
collect-InUnit_example =
    collect-InUnit whole whole_division whole_division-IsOrdered exporter 7
      (ok (record { certificates = expired ∷ []; hosts = [] }))
