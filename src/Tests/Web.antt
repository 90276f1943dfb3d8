-- ===== src/Tests/Web.antt =====
-- The web interface and the tables behind it at concrete inputs.
use certinv.Prelude.{
  pos, String, true, false, none, some, List, [], ◌∷◌, ◌≡◌, ◌⊎◌, ◌↔◌, ◌==◌, refl, All, any,
}
use certinv.Discover.{normalize_hostname}
use certinv.Result.{Error, ok, err, Result}
use certinv.Store.Schema.{Db, HostRow, ApexCrtNameRow, empty_db}
use certinv.Store.Managed.Refinement.{add_host, view, perform, apply, perform-refines}
use certinv.Store.Snapshots.{is_shown, inventory_of}
use certinv.Store.Snapshots.Inventory.{is_row_of, inventory_exact}
use certinv.Cmd.SerialScan.{IsExclusive, new}
use certinv.Ui.{Paths, Outside, Handler, Site, Request}
use certinv.Ui.Forms.{parse_port, validate_apex, resolve_allowed_zone_file}
use certinv.Ui.Forms.Checks.{
  InPortRange, IsBelow, parse_port-InPortRange, validate_apex_exact,
  resolve_allowed_zone_file-eq-ok,
}
use certinv.Ui.Routes.{serve}
use certinv.Ui.Routes.Reading.{serve-reads}
use certinv.Ui.Routes.Sound.{serve-IsSound}
use certinv.Ui.Sound.{IsSound}
use certinv.Tests.Data.{www, reliable, answer}

abbrev paths : Paths
paths = record {
  is_abs = λ p. false;
  abs = λ p. ok p;
  join = λ a b. b;
  clean = λ p. p;
  rel = λ root p. ok p;
  stat_is_dir = λ p. ok false;
  walk = λ root. [];
}

abbrev pub web : Outside
web = record {
  driver = reliable;
  clock = λ n. n;
  etld_plus_one = λ name. ok name;
  paths = paths;
  parse_time = λ layout text. none;
  fetch = answer;
}

abbrev pub ui : Handler
ui = record {
  config = record { apexes = "example.com" ∷ []; manual_hosts = [] };
  sources = record {
    crt_name_enabled = true;
    crt_name_endpoint = "";
    zone_allowed_dir = "zones";
    zone_files = [];
  };
  has_scanner = true;
}

abbrev pub add_www : Request
add_www = record {
  method = "POST";
  path = "/ui/manual-hosts";
  tab = "";
  notice = "";
  problem = "";
  form = some (("hostname", "WWW.example.com") ∷ ("port", "8443") ∷ []);
  credentials = none;
}

abbrev pub site : Site
site = record {
  conn = record {
    db = record empty_db { managed_apexes = record { apex = "example.org"; added_at = 0 } ∷ [] };
    calls = 0;
  };
  asked = 5;
  scans = record { running = false; active = []; begun = 0 };
}

serve-reads_example :
    ((serve web ui (record add_www { method = "PUT" }) site).1.conn.db ≡ site.conn.db)
    × ((serve web ui (record add_www { method = "PUT" }) site).1.scans ≡ site.scans)
serve-reads_example = serve-reads web ui (record add_www { method = "PUT" }) site refl

serve-IsSound_example :
    IsSound web ui (serve web ui add_www site).1.conn.db (serve web ui add_www site).1.scans
    × IsExclusive (serve web ui add_www site).1.scans
serve-IsSound_example = serve-IsSound web ui add_www site ((refl, tt), tt, tt, new)

parse_port-InPortRange_example : InPortRange (pos 8443)
unfolding parse_port certinv.Text.trim_space certinv.Text.atoi
parse_port-InPortRange_example = parse_port-InPortRange "8443" (pos 8443) refl

validate_apex_exact_example :
    (validate_apex (λ name. ok name) " Example.com. " ≡ ok "example.com") ↔ (
      (◌≡◌ {A = String} "example.com" (normalize_hostname " Example.com. "))
      × (("example.com" == "") ≡ false)
      × (◌≡◌ {A = Result String} (ok "example.com") (ok "example.com")))
validate_apex_exact_example = validate_apex_exact (λ name. ok name) " Example.com. " "example.com"

resolve_allowed_zone_file-eq-ok_example : IsBelow paths "zones" "a.zone"
unfolding resolve_allowed_zone_file certinv.Text.trim_space certinv.Ui.Forms.below_root
    certinv.Text.has_prefix
resolve_allowed_zone_file-eq-ok_example =
    resolve_allowed_zone_file-eq-ok paths "zones" "a.zone" "a.zone" refl

perform-refines_example :
    (((perform reliable 5 (add_host www) site.conn).0 ≡ ok tt)
      × (view (perform reliable 5 (add_host www) site.conn).1.db
          ≡ apply (add_host www) (view site.conn.db)))
    ⊎ ((e : Error) × ((perform reliable 5 (add_host www) site.conn).0 ≡ err e)
        × ((perform reliable 5 (add_host www) site.conn).1.db ≡ site.conn.db))
perform-refines_example = perform-refines reliable 5 (add_host www) site.conn

abbrev shown_host : HostRow
shown_host = record {
  id = 1;
  hostname = "www.example.com";
  port = pos 443;
  apex = "example.com";
  source = "zone";
  first_seen_at = 0;
  last_resolved_at = none;
  last_probed_at = none;
  status = "active";
}

abbrev two_hosts : Db
two_hosts = record empty_db {
  hosts = shown_host ∷ record shown_host { id = 2; port = pos 8443 } ∷ [];
  suppressed_hosts =
      record { hostname = "www.example.com"; port = pos 8443; suppressed_at = 0 } ∷ [];
}

inventory_exact_example :
    All (λ h. any (is_row_of h) (inventory_of two_hosts) ≡ is_shown two_hosts h) two_hosts.hosts
inventory_exact_example = inventory_exact two_hosts

abbrev settings : List ApexCrtNameRow
settings = record { apex = "example.com"; enabled = false; updated_at = 0 } ∷ []
