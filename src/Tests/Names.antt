-- ===== src/Tests/Names.antt =====
-- Host names, sources and targets at concrete inputs.
use certinv.Prelude.{
  ℕ, ℤ, pos, ◌*ℤ◌, ◌*◌, ◌+◌, ◌%◌, ◌≤◌, ◌<◌, ◌≤ℤ◌, leb_ℤ, String, Bool, true, false, Option, none,
  some, [], ◌∷◌, ◌++◌, any, nat_eq, select, All, ◌≡◌, ◌≢◌, ◌⊎◌, ◌↔◌, inl, inr, refl, arith, eq_iff,
}
use certinv.Text.{contains}
use certinv.Discover.{normalize_host, normalize_hostname, within_apex, apex_for, merge}
use certinv.Discover.Merge.{HasDistinctKeys, has_key, merge_exact}
use certinv.Discover.Scope.{InScope}
use certinv.Discover.Manual
use certinv.Discover.Manual.{manual-InScope, manual_outside}
use certinv.Discover.CrtName
use certinv.Discover.CrtName.{crt_name-InScope}
use certinv.Discover.ZoneFile
use certinv.Discover.ZoneFile.Scope.{zone_file-InScope}
use certinv.Result.{Error, ok, err}
use certinv.Cmd.Check.{scoped_check_target, scoped_check_target_exact}
use certinv.Tests.Data.{apexes, www, manual_hosts, answer, zone}

merge_exact_example :
    HasDistinctKeys (merge ((www ∷ www ∷ []) ∷ []))
    × All
        (All (λ h. has_key (normalize_host h) (merge ((www ∷ www ∷ []) ∷ [])) ≡ true))
        ((www ∷ www ∷ []) ∷ [])
merge_exact_example = merge_exact ((www ∷ www ∷ []) ∷ [])

manual-InScope_example : All (InScope apexes) (record www { source = "manual" } ∷ [])
unfolding Manual.discover apex_for within_apex normalize_hostname certinv.Text.has_suffix
    certinv.Prelude.int_eq
manual-InScope_example =
    manual-InScope manual_hosts apexes (record www { source = "manual" } ∷ []) refl

manual_outside_example :
    (e : Error) × (Manual.discover
        (manual_hosts ++ record { hostname = "www.other.com"; port = pos 0 } ∷ [])
        apexes
      ≡ err e)
unfolding apex_for within_apex normalize_hostname certinv.Text.has_suffix
manual_outside_example =
    manual_outside manual_hosts [] (record { hostname = "www.other.com"; port = pos 0 }) apexes refl

crt_name-InScope_example : All (InScope apexes) (record www { source = "crtname" } ∷ [])
unfolding CrtName.discover certinv.Text.Trim.ends_clean normalize_hostname CrtName.discover_apex
    merge certinv.Discover.merge_groups certinv.Discover.merge_hosts CrtName.hostnames
    certinv.Text.fields_func certinv.Text.trim_prefix within_apex certinv.Text.has_suffix
    certinv.Discover.merge_host certinv.Prelude.int_eq CrtName.first_seen_time
crt_name-InScope_example =
    crt_name-InScope (λ layout text. none) answer apexes (refl, tt) "https://crt.name/"
      (record www { source = "crtname" } ∷ []) refl

zone_file-InScope_example : All (InScope apexes) (www ∷ [])
unfolding ZoneFile.discover certinv.Text.Trim.ends_clean normalize_hostname ZoneFile.discover_file
    ZoneFile.parse_line merge certinv.Discover.merge_groups certinv.Discover.merge_hosts apex_for
    within_apex certinv.Text.has_suffix certinv.Discover.merge_host certinv.Prelude.int_eq
zone_file-InScope_example =
    zone_file-InScope zone (λ n. false) apexes (refl, tt) ("example.zone" ∷ []) (www ∷ []) refl

scoped_check_target_exact_example :
    (scoped_check_target "WWW.example.com." apexes ≡ ok ("www.example.com", "example.com")) ↔ (
      ("www.example.com" ≡ normalize_hostname "WWW.example.com.")
      × (◌≢◌ {A = String} "www.example.com" "")
      × (contains "www.example.com" ":" ≡ false)
      × (apex_for "www.example.com" apexes ≡ some "example.com"))
scoped_check_target_exact_example =
    scoped_check_target_exact "WWW.example.com." apexes "www.example.com" "example.com"
