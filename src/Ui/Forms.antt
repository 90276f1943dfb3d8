-- ===== src/Ui/Forms.antt =====
-- The checks of what a form holds.
pub mod Checks
use certinv.Prelude.{
  ℕ, ℤ, pos, int_eq, leb_ℤ, String, concat, Bool, true, false, not, ◌&&◌, ◌||◌, Option, none, some,
  List, [], ◌∷◌, ◌++◌, map, any, length, nat_eq, ◌==◌, if◌then◌else◌,
}
use certinv.Config.{ManualHost}
use certinv.Text.{trim_space, atoi, has_prefix}
use certinv.Discover.{Host, default_port, normalize_hostname, apex_for}
use certinv.Result.{Error, message, wrap, Result, ok, err, ◌>>=◌, ◌>>◌}
use certinv.Store.Managed.{ManagedApex, ManagedManualHost, ManagedTargets}
use certinv.Core.Discovery.{unique_strings}
use certinv.Ui.{Paths}

-- `parsePort`
abbrev port_in_range : Option ℤ → Result ℤ
port_in_range none = err (message "port must be between 1 and 65535")
port_in_range (some p) =
    if leb_ℤ (pos 1) p && leb_ℤ p (pos 65535)
    then ok p
    else err (message "port must be between 1 and 65535")

unfoldable pub parse_port : String → Result ℤ
parse_port value = if trim_space value == "" then ok default_port else port_in_range (atoi value)

-- the public suffix's answer about a name
abbrev registrable : String → Result String → Result String
registrable apex (err e) = err (message "apex must be a registrable eTLD+1 domain")
registrable apex (ok etld1) =
    if etld1 == apex then ok apex else err (message "apex must be a registrable eTLD+1 domain")

-- `validateApex`
unfoldable pub validate_apex : (String → Result String) → String → Result String
validate_apex etld_plus_one value =
    let apex = normalize_hostname value in
    if apex == "" then err (message "apex is required") else registrable apex (etld_plus_one apex)

-- the apex that is meant where the form names none and there is one only
abbrev only_apex : String → List String → String
only_apex apex (a ∷ []) = if apex == "" then normalize_hostname a else apex
only_apex apex _ = apex

candidate_of : String → List String → Option String
candidate_of apex [] = none
candidate_of apex (c ∷ candidates) =
    let rest = candidate_of apex candidates in
    if apex == normalize_hostname c then some (normalize_hostname c) else rest

-- `selectedLookupApex`
unfoldable pub selected_lookup_apex : String → List String → Option String
unfolding candidate_of
selected_lookup_apex value apexes =
    candidate_of (only_apex (normalize_hostname value) apexes) apexes

abbrev outside_dir : Error
outside_dir = message "zone file must be under allowed_dir"

-- whether the path, relative to the root, leaves the directory or is the directory itself
abbrev pub leaves : String → Bool
leaves rel = rel == "." || has_prefix rel "../" || rel == ".."

abbrev relabel : {A : Type 0} → Error → Result A → Result A
relabel e (ok a) = ok a
relabel e (err _) = err e

abbrev fail_if_true : Bool → Error → Result (Unit {0})
fail_if_true true e = err e
fail_if_true false e = ok tt

-- the file's path, where it is a file that lies below the root
unfoldable pub below_root : Paths → (root path : String) → Result String
below_root paths root path = do
  rel ← relabel outside_dir (paths.rel root path)
  fail_if_true (leaves rel) outside_dir
  is_dir ← relabel (message "zone file must exist under allowed_dir") (paths.stat_is_dir path)
  fail_if_true is_dir (message "zone file must exist under allowed_dir")
  ok path

-- `resolveAllowedZoneFile`
unfoldable pub resolve_allowed_zone_file : Paths → String → String → Result String
resolve_allowed_zone_file paths allowed_dir raw = do
  fail_if_true (trim_space allowed_dir == "") (message "zone allowed_dir is not configured")
  fail_if_true (trim_space raw == "") (message "zone file is required")
  fail_if_true (paths.is_abs (trim_space raw)) outside_dir
  root ← relabel (message "invalid zone allowed_dir") (paths.abs (trim_space allowed_dir))
  path ←
      relabel (message "invalid zone file")
        (paths.abs (paths.join root (paths.clean (trim_space raw))))
  below_root paths root path

-- `availableZoneFiles`, whose error its caller drops
unfoldable pub available_zone_files : Paths → String → List String
available_zone_files paths allowed_dir =
    if trim_space allowed_dir == ""
    then []
    else elim (paths.abs (trim_space allowed_dir)) [ ok root ↦ paths.walk root | err e ↦ [] ]

abbrev pub managed_names : ManagedTargets → List String
managed_names managed = map (λ a. a.apex) managed.apexes

-- the host that a form names, within the apexes
abbrev pub in_apexes : String → ℤ → Option String → Result Host
in_apexes hostname port none = err (message "hostname is outside configured or managed apexes")
in_apexes hostname port (some apex) = ok (record {
  hostname = hostname;
  port = port;
  apex = apex;
  source = "managed";
  first_seen = none;
})

abbrev pub hostname_given : String → Result (Unit {0})
hostname_given hostname = fail_if_true (hostname == "") (message "hostname is required")

-- whether some managed host has this name and port
abbrev pub is_managed : String → ℤ → ManagedTargets → Bool
is_managed hostname port managed =
    any (λ h. normalize_hostname h.hostname == hostname && int_eq h.port port) managed.manual_hosts

abbrev pub found_managed : String → ℤ → Result ManagedTargets → Bool
found_managed hostname port (ok managed) = is_managed hostname port managed
found_managed hostname port (err e) = false

-- the names, normalized, that are not empty
unfoldable pub names_of : List String → List String
names_of [] = []
names_of (n ∷ names) =
    let rest = names_of names in
    if normalize_hostname n == "" then rest else normalize_hostname n ∷ rest
