-- ===== src/Core/Discovery.antt =====
-- What a scan looks at: the effective apexes, sources and hosts, and their merge without the
-- hosts that are suppressed.
pub mod Sources
pub mod Probing
pub mod Scope
use certinv.Prelude.{
  int_eq, String, concat, Bool, true, false, not, ◌&&◌, ◌||◌, none, some, List, [], ◌∷◌, ◌++◌, map,
  any, select, ◌==◌, if◌then◌else◌,
}
use certinv.Config.{ManualHost}
use certinv.Discover.{Host, normalize_hostname, apex_for, merge}
use certinv.Discover.Manual
use certinv.Discover.CrtName
use certinv.Discover.ZoneFile
use certinv.Result.{wrap, Result, ok, err}
use certinv.Store.Schema.{ApexCrtNameRow}
use certinv.Store.Hosts.{SuppressedHost, suppressed_hosts}
use certinv.Store.Managed.{ManagedManualHost, ManagedDiscovery, managed_targets, managed_discovery}
use certinv.Core.{Outside, Source, Runner, Step, ◌>>=◌, pure, lift, in_store}

abbrev pub has : String → List String → Bool
has s = any (λ x. x == s)

-- the loop of `uniqueStrings`, with the values that are seen
unfoldable pub unique_from : List String → List String → List String
unique_from seen [] = []
unique_from seen (value ∷ values) =
    let v = normalize_hostname value in
    let skip = unique_from seen values in
    let keep = v ∷ unique_from (v ∷ seen) values in
    if v == "" then skip else if has v seen then skip else keep

unfoldable pub unique_strings : List String → List String
unfolding unique_from
unique_strings values = unique_from [] values

-- the apexes whose search is switched off, normalized
unfoldable pub disabled_apexes : List ApexCrtNameRow → List String
disabled_apexes [] = []
disabled_apexes (s ∷ settings) =
    let rest = disabled_apexes settings in
    if s.enabled then rest else normalize_hostname s.apex ∷ rest

unfoldable pub enabled_from : List String → List String → List String
enabled_from disabled [] = []
enabled_from disabled (apex ∷ apexes) =
    let a = normalize_hostname apex in
    let rest = enabled_from disabled apexes in
    if a == "" then rest else if has a disabled then rest else a ∷ rest

unfoldable pub enabled_crt_name_apexes : List String → List ApexCrtNameRow → List String
unfolding enabled_from disabled_apexes
enabled_crt_name_apexes apexes settings = enabled_from (disabled_apexes settings) apexes

-- the hosts of the database that lie within the apexes
unfoldable pub managed_in_scope : List String → List ManagedManualHost → List ManualHost
managed_in_scope apexes [] = []
managed_in_scope apexes (h ∷ hosts) =
    let rest = managed_in_scope apexes hosts in
    elim (apex_for h.hostname apexes) [
      | some _ ↦ record { hostname = h.hostname; port = h.port } ∷ rest
      | none ↦ rest
    ]

-- the key of a host that is suppressed
abbrev suppressed_key : SuppressedHost → Host → Bool
suppressed_key s h =
    normalize_hostname s.hostname == normalize_hostname h.hostname && int_eq s.port h.port

abbrev pub is_suppressed : List SuppressedHost → Host → Bool
is_suppressed suppressed h = any (λ s. suppressed_key s h) suppressed

-- the managed switch and endpoint of the search, or those of the configuration
abbrev pub crt_name_enabled : ManagedDiscovery → Bool → Bool
crt_name_enabled managed enabled =
    if managed.crt_name_set then managed.crt_name_enabled else enabled

abbrev pub crt_name_endpoint : ManagedDiscovery → String → String
crt_name_endpoint managed endpoint =
    if managed.crt_name_set && not (managed.crt_name_endpoint == "")
    then managed.crt_name_endpoint
    else endpoint

abbrev pub is_empty {ℓ} : {A : Type ℓ} → List A → Bool
is_empty [] = true
is_empty (_ ∷ _) = false

abbrev pub wrap_err : {A : Type 0} → String → Result A → Result A
wrap_err text (ok a) = ok a
wrap_err text (err e) = err (wrap text e)

abbrev pub in_source : {A : Type 0} → String → Result A → Result A
in_source name = wrap_err (concat "discover via " name)

-- a loop over sources
unfoldable pub discover_sources : List Source → List String → Step (List (List Host))
discover_sources [] apexes = pure []
discover_sources (s ∷ sources) apexes = do
  hosts ← lift (in_source s.name (s.discover apexes))
  groups ← discover_sources sources apexes
  pure (hosts ∷ groups)

-- the error of a store's method, behind a text
abbrev pub in_context : {A : Type 0} → String → Step A → Step A
in_context text m w = let (r, w') = m w in (wrap_err text r, w')

module _ {F : Type 0} (out : Outside) (r : Runner F) where
  unfoldable pub effective_apexes : Step (List String)
  effective_apexes = do
    managed ← in_store (managed_targets out.driver)
    pure (unique_strings (r.config.apexes ++ map (λ a. a.apex) managed.apexes))

  unfoldable pub effective_manual_hosts : List String → Step (List ManualHost)
  effective_manual_hosts apexes = do
    managed ← in_store (managed_targets out.driver)
    pure (r.config.manual_hosts ++ managed_in_scope apexes managed.manual_hosts)

  -- `scopedSource` around the crt.name source: it keeps to its own apexes
  abbrev pub crt_name_source : String → List String → Source
  crt_name_source endpoint apexes = record {
    name = "crtname";
    discover = λ _. CrtName.discover out.parse_time out.fetch endpoint apexes;
  }

  abbrev pub zone_source : List String → Source
  zone_source files = record {
    name = "zone";
    discover = ZoneFile.discover out.open_file out.cancelled files;
  }

  unfoldable pub crt_name_sources : ManagedDiscovery → Step (List Source)
  crt_name_sources managed =
      if crt_name_enabled managed (has "crtname" r.config.discovery.sources)
      then (do
        apexes ← effective_apexes
        pure (
            crt_name_source (crt_name_endpoint managed r.config.discovery.crt_name.endpoint)
              (enabled_crt_name_apexes apexes managed.apex_crt_name)
            ∷ []))
      else pure []

  -- the zone source, if the configuration names it or a file is managed
  unfoldable pub zone_sources : ManagedDiscovery → List Source
  zone_sources managed =
      let files = map (λ f. f.path) managed.zone_files in
      if has "zone" r.config.discovery.sources || not (is_empty files)
      then zone_source (r.config.discovery.zone.files ++ files) ∷ []
      else []

  unfoldable pub effective_sources : Step (List Source)
  effective_sources = do
    managed ← in_store (managed_discovery out.driver)
    crt_name ← crt_name_sources managed
    pure (crt_name ++ zone_sources managed)

  unfoldable pub manual_group : List ManualHost → List String → Step (List (List Host))
  manual_group hosts apexes =
      if has "manual" r.config.discovery.sources || not (is_empty hosts)
      then (do found ← lift (in_source "manual" (Manual.discover hosts apexes)); pure (found ∷ []))
      else pure []

  unfoldable pub discover : Step (List Host)
  discover = do
    apexes ← effective_apexes
    sources ← effective_sources
    groups ← discover_sources sources apexes
    more ← discover_sources r.sources apexes
    manual_hosts ← effective_manual_hosts apexes
    manual ← manual_group manual_hosts apexes
    suppressed ← in_context "load suppressed hosts" (in_store (suppressed_hosts out.driver))
    pure (select (λ h. not (is_suppressed suppressed h)) (merge (groups ++ (more ++ manual))))
