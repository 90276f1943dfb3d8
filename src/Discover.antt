-- ===== src/Discover.antt =====
-- internal/discover/discover.go: hosts, host names and apexes, and the merge of what the sources
-- found. Go's map is an association list here, in the order of insertion; Go visits a map in any
-- order, so a statement about the merged hosts speaks of members only.
pub mod Names
pub mod Merge
pub mod Scope
pub mod Manual
pub mod CrtName
pub mod ZoneFile
use certinv.Prelude.{
  ℕ, ℤ, pos, int_eq, String, concat, Bool, true, false, ◌&&◌, ◌||◌, Option, none, some, List, [],
  ◌∷◌, ◌++◌, ◌==◌, if◌then◌else◌,
}
use certinv.Clock.{Time}
use certinv.Text.{trim_space, to_lower, trim_suffix, has_suffix}

pub record Host : Type 0 where
  pub hostname : String
  pub port : ℤ
  pub apex : String
  pub source : String
  pub first_seen : Option Time

abbrev pub default_port : ℤ
default_port = pos 443

unfoldable pub normalize_hostname : String → String
unfolding trim_space to_lower trim_suffix
normalize_hostname hostname = trim_suffix (to_lower (trim_space hostname)) "."

unfoldable pub within_apex : String → String → Bool
within_apex hostname apex =
    let h = normalize_hostname hostname in
    let a = normalize_hostname apex in h == a || has_suffix h (concat "." a)

-- `none` is the result `"", false`
unfoldable pub apex_for : String → List String → Option String
apex_for hostname [] = none
apex_for hostname (apex ∷ apexes) =
    if within_apex hostname apex then some (normalize_hostname apex) else apex_for hostname apexes

-- The map key "hostname:port" determines both, as a port's numeral holds no colon.
abbrev pub same_key : Host → Host → Bool
same_key a b = a.hostname == b.hostname && int_eq a.port b.port

-- `if host.Port == 0`
abbrev pub normalized_port : ℤ → ℤ
normalized_port port = if int_eq port (pos 0) then default_port else port

abbrev pub normalize_host : Host → Host
normalize_host host = record host {
  hostname = normalize_hostname host.hostname;
  port = normalized_port host.port;
}

-- the host of a key that is seen again
abbrev pub join_source : Host → Host → Host
join_source existing host =
    if existing.source == host.source
    then existing
    else record existing { source = concat existing.source (concat "," host.source) }

-- one round of the loop, on a host that is normalized already
unfoldable pub merge_host : Host → List Host → List Host
merge_host host [] = host ∷ []
merge_host host (existing ∷ seen) =
    if same_key existing host
    then join_source existing host ∷ seen
    else existing ∷ merge_host host seen

unfoldable pub merge_hosts : List Host → List Host → List Host
merge_hosts seen [] = seen
merge_hosts seen (host ∷ hosts) = merge_hosts (merge_host (normalize_host host) seen) hosts

unfoldable pub merge_groups : List Host → List (List Host) → List Host
merge_groups seen [] = seen
merge_groups seen (hosts ∷ groups) = merge_groups (merge_hosts seen hosts) groups

unfoldable pub merge : List (List Host) → List Host
merge groups = merge_groups [] groups
