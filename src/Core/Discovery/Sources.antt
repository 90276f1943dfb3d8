-- ===== src/Core/Discovery/Sources.antt =====
-- The sources of a scan return hosts within its apexes.
use certinv.Prelude.{
  String, not, ◌||◌, List, [], ◌∷◌, ◌++◌, map, All, All-append, All-map, ◌==◌, ◌≡◌, sym, ap, ◌∙◌,
  subst, inl, inr, Bool-cases,
}
use certinv.Config.{ManualHost}
use certinv.Discover.{Host, normalize_hostname, within_apex, apex_for}
use certinv.Discover.Names.{
  IsSettled, AreSettled, normalize_hostname_idem, within_apex-apex, apex_for_of_within,
}
use certinv.Discover.Scope.{InScope, InScopeName, InScopeName-cons}
use certinv.Discover.Manual
use certinv.Discover.Manual.{manual-InScope}
use certinv.Discover.CrtName.{crt_name-InScope}
use certinv.Discover.ZoneFile.Scope.{zone_file-InScope}
use certinv.Result.{Result, ok, err, ok-injective, err-ne-ok}
use certinv.Store.Schema.{Db}
use certinv.Store.Managed.{
  ManagedApex, ManagedTargets, ManagedDiscovery, targets_apexes, managed_targets, managed_discovery,
}
use certinv.Store.Managed.Reading.{managed_targets-eq-ok, managed_discovery-db}
use certinv.Core.{Outside, Source, Runner, World, ◌>>=◌, pure, lift, in_store}
use certinv.Core.Discovery.{
  unique_strings, enabled_from, enabled_crt_name_apexes, has, is_empty, wrap_err, in_source,
  crt_name_enabled, crt_name_endpoint, discover_sources, effective_apexes, crt_name_source,
  crt_name_sources, zone_sources, effective_sources, manual_group,
}
use certinv.Core.Laws.{step-eq-ok}

wrap_err-eq-ok :
    {A : Type 0} (text : String) (r : Result A) (a : A) → wrap_err text r ≡ ok a → r ≡ ok a
wrap_err-eq-ok text (ok b) a h = h
wrap_err-eq-ok text (err e) a h = absurd (err-ne-ok h)

-- the apexes of a scan: those of the configuration and of the database
unfoldable pub apexes_of : {F : Type 0} → Runner F → Db → List String
apexes_of r db = unique_strings (r.config.apexes ++ map (λ a. a.apex) (targets_apexes db))

module _ {F : Type 0} (out : Outside) (r : Runner F) where
  pub effective_apexes-eq-ok :
      (w : World) (apexes : List String)
      → (effective_apexes out r w).0 ≡ ok apexes
      → (apexes ≡ apexes_of r w.conn.db) × ((effective_apexes out r w).1.conn.db ≡ w.conn.db)
  unfolding effective_apexes apexes_of
  effective_apexes-eq-ok w apexes h =
      let of =
        λ (t : ManagedTargets). unique_strings (r.config.apexes ++ map (λ a. a.apex) t.apexes) in
      let (t, e, e₂, s) =
        step-eq-ok (in_store (managed_targets out.driver)) (λ t. pure (of t)) w h in
      let (same, kept) = managed_targets-eq-ok out.driver w.conn t e in
      (
        sym (ok-injective e₂)
            ∙ ap
                (λ (rows : List ManagedApex).
                  unique_strings (r.config.apexes ++ map (λ a. a.apex) rows))
                same,
        ap (λ (v : World). v.conn.db) s ∙ kept,
      )

-- what the source returns for the apexes lies within them
pub record IsScoped (apexes : List String) (s : Source) : Type 0 where
  pub at : (found : List Host) → s.discover apexes ≡ ok found → All (InScope apexes) found

pub discover_sources-InScope :
    (sources : List Source) (apexes : List String) (w : World) (groups : List (List Host))
    → All (IsScoped apexes) sources
    → (discover_sources sources apexes w).0 ≡ ok groups
    → All (All (InScope apexes)) groups
unfolding discover_sources
discover_sources-InScope [] apexes w groups s h =
    subst (All (All (InScope apexes))) (ok-injective h) tt
discover_sources-InScope (x ∷ sources) apexes w groups s h =
    let first = lift (in_source x.name (x.discover apexes)) in
    let rest = λ (hosts : List Host). discover_sources sources apexes >>= λ gs. pure (hosts ∷ gs) in
    let (hosts, e, e₂, _) = step-eq-ok first rest w h in
    let (gs, e₃, e₄, _) =
      step-eq-ok (discover_sources sources apexes) (λ gs. pure (hosts ∷ gs)) w e₂ in
    subst (All (All (InScope apexes))) (ok-injective e₄) (
      s.0.at hosts (wrap_err-eq-ok _ (x.discover apexes) hosts e),
      discover_sources-InScope sources apexes w gs s.1 e₃,
    )

-- the apexes whose search is switched on
enabled-InScopeName :
    (disabled apexes : List String) (name : String)
    → AreSettled apexes
    → InScopeName (enabled_from disabled apexes) name
    → InScopeName apexes name
unfolding enabled_from apex_for
enabled-InScopeName disabled [] name s i = i
enabled-InScopeName disabled (a ∷ apexes) name s i =
    let skip = λ (j : InScopeName (enabled_from disabled apexes) name).
      InScopeName-cons a apexes name (enabled-InScopeName disabled apexes name s.1 j) in
    elim (Bool-cases (normalize_hostname a == "")) [
      | inl empty ↦ skip (i.0, rw empty at i.1)
      | inr named ↦ elim (Bool-cases (has (normalize_hostname a) disabled)) [
        | inl off ↦ skip (i.0, rw (named, off) at i.1)
        | inr kept ↦ elim (Bool-cases (within_apex name (normalize_hostname a))) [
          | inl here ↦
              apex_for_of_within name a [] apexes (rw (within_apex-apex name a s.0) at here)
          | inr there ↦ skip (i.0, rw (named, kept, there) at i.1)
        ]
      ]
    ]

enabled-AreSettled :
    (disabled apexes : List String) → AreSettled apexes → AreSettled (enabled_from disabled apexes)
unfolding enabled_from
enabled-AreSettled disabled [] s = tt
enabled-AreSettled disabled (a ∷ apexes) s =
    let rest = enabled-AreSettled disabled apexes s.1 in
    elim (Bool-cases (normalize_hostname a == "")) [
      | inl empty ↦ rw empty rest
      | inr named ↦ elim (Bool-cases (has (normalize_hostname a) disabled)) [
        | inl off ↦ rw (named, off) rest
        | inr kept ↦
            rw (named, kept) (subst IsSettled (sym (normalize_hostname_idem a s.0)) s.0, rest)
      ]
    ]

module _ {F : Type 0} (out : Outside) (r : Runner F) where
  crt_name_source-IsScoped :
      (endpoint : String) (disabled apexes : List String)
      → AreSettled apexes
      → IsScoped apexes (crt_name_source out r endpoint (enabled_from disabled apexes))
  crt_name_source-IsScoped endpoint disabled apexes s = record {
    at = λ found h.
        All-map (InScope (enabled_from disabled apexes)) (InScope apexes)
          (λ x. enabled-InScopeName disabled apexes x.hostname s) found
          (crt_name-InScope out.parse_time out.fetch (enabled_from disabled apexes)
            (enabled-AreSettled disabled apexes s) endpoint found h);
  }

  crt_name_sources-IsScoped :
      (managed : ManagedDiscovery) (w : World) (sources : List Source)
      → AreSettled (apexes_of r w.conn.db)
      → (crt_name_sources out r managed w).0 ≡ ok sources
      → All (IsScoped (apexes_of r w.conn.db)) sources
  unfolding crt_name_sources enabled_crt_name_apexes
  crt_name_sources-IsScoped managed w sources s h =
      let endpoint = crt_name_endpoint managed r.config.discovery.crt_name.endpoint in
      let of = λ (apexes : List String).
        crt_name_source out r endpoint (enabled_crt_name_apexes apexes managed.apex_crt_name)
        ∷ [] in
      elim (Bool-cases (crt_name_enabled managed (has "crtname" r.config.discovery.sources))) [
        | inl on ↦
            let (apexes, e, e₂, _) =
              step-eq-ok (effective_apexes out r) (λ a. pure (of a)) w (rw on at h) in
            let (same, _) = effective_apexes-eq-ok out r w apexes e in
            subst (All (IsScoped (apexes_of r w.conn.db))) (ap of (sym same) ∙ ok-injective e₂)
              (crt_name_source-IsScoped endpoint _ (apexes_of r w.conn.db) s, tt)
        | inr off ↦ subst (All (IsScoped (apexes_of r w.conn.db))) (ok-injective (rw off at h)) tt
      ]

  zone_sources-IsScoped :
      (managed : ManagedDiscovery) (apexes : List String)
      → AreSettled apexes
      → All (IsScoped apexes) (zone_sources out r managed)
  unfolding zone_sources
  zone_sources-IsScoped managed apexes s =
      let files = map (λ f. f.path) managed.zone_files in
      elim (Bool-cases (has "zone" r.config.discovery.sources || not (is_empty files))) [
        | inl on ↦
            rw on (record { at = zone_file-InScope out.open_file out.cancelled apexes s _ }, tt)
        | inr off ↦ rw off tt
      ]

  pub effective_sources-IsScoped :
      (w : World) (sources : List Source)
      → AreSettled (apexes_of r w.conn.db)
      → (effective_sources out r w).0 ≡ ok sources
      → All (IsScoped (apexes_of r w.conn.db)) sources
  unfolding effective_sources
  effective_sources-IsScoped w sources s h =
      let read = in_store (managed_discovery out.driver) in
      let rest = λ (managed : ManagedDiscovery).
        crt_name_sources out r managed >>= λ found. pure (found ++ zone_sources out r managed) in
      let (managed, e, e₂, _) = step-eq-ok read rest w h in
      let (found, e₃, e₄, _) =
        step-eq-ok (crt_name_sources out r managed) (λ x. pure (x ++ zone_sources out r managed))
          (read w).1 e₂ in
      let kept = ap (apexes_of r) (managed_discovery-db out.driver w.conn) in
      subst (All (IsScoped (apexes_of r w.conn.db))) (ok-injective e₄) (
        All-append (IsScoped (apexes_of r w.conn.db)) found (zone_sources out r managed)
          (subst (λ a. All (IsScoped a) found) kept
            (crt_name_sources-IsScoped managed (read w).1 found (subst AreSettled (sym kept) s) e₃))
          (zone_sources-IsScoped managed (apexes_of r w.conn.db) s))

  pub manual_group-InScope :
      (hosts : List ManualHost) (apexes : List String) (w : World) (groups : List (List Host))
      → (manual_group out r hosts apexes w).0 ≡ ok groups
      → All (All (InScope apexes)) groups
  unfolding manual_group
  manual_group-InScope hosts apexes w groups h =
      elim (Bool-cases (has "manual" r.config.discovery.sources || not (is_empty hosts))) [
        | inl on ↦
            let (found, e, e₂, _) =
              step-eq-ok (lift (in_source "manual" (Manual.discover hosts apexes)))
                (λ f. pure (f ∷ [])) w (rw on at h) in
            subst (All (All (InScope apexes))) (ok-injective e₂) (
              manual-InScope hosts apexes found
                  (wrap_err-eq-ok _ (Manual.discover hosts apexes) found e),
              tt,
            )
        | inr off ↦ subst (All (All (InScope apexes))) (ok-injective (rw off at h)) tt
      ]
