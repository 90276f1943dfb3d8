-- ===== src/Core/Discovery/Scope.antt =====
-- A scan looks at hosts within its apexes only.
use certinv.Prelude.{
  String, not, List, ◌++◌, select, All, All-append, All-select, ◌≡◌, sym, ap, ◌∙◌, subst,
}
use certinv.Config.{ManualHost}
use certinv.Discover.{Host, merge}
use certinv.Discover.Names.{AreSettled}
use certinv.Discover.Scope.{InScope, merge-InScope}
use certinv.Result.{ok, ok-injective}
use certinv.Store.Hosts.{SuppressedHost, suppressed_hosts}
use certinv.Core.{Outside, Source, Runner, World, ◌>>=◌, pure, in_store}
use certinv.Core.Discovery.{
  in_context, discover_sources, effective_apexes, effective_manual_hosts, effective_sources,
  manual_group, discover, is_suppressed,
}
use certinv.Core.Laws.{step-eq-ok}
use certinv.Core.Discovery.Sources.{
  apexes_of, IsScoped, effective_apexes-eq-ok, discover_sources-InScope, effective_sources-IsScoped,
  manual_group-InScope,
}

-- what is merged and filtered stays within the apexes
kept-InScope :
    (apexes : List String) (groups more manual : List (List Host))
    (suppressed : List SuppressedHost)
    → AreSettled apexes
    → All (All (InScope apexes)) groups
    → All (All (InScope apexes)) more
    → All (All (InScope apexes)) manual
    → All
        (InScope apexes)
        (select (λ h. not (is_suppressed suppressed h)) (merge (groups ++ (more ++ manual))))
kept-InScope apexes groups more manual suppressed s found added named =
    All-select (InScope apexes) (λ h. not (is_suppressed suppressed h))
      (merge (groups ++ (more ++ manual)))
      (merge-InScope apexes (groups ++ (more ++ manual)) s (
        All-append (All (InScope apexes)) groups (more ++ manual) found
          (All-append (All (InScope apexes)) more manual added named)))

module _ {F : Type 0} (out : Outside) (r : Runner F) where
  -- Where the apexes of the configuration and the database are settled, and the sources that a
  -- caller adds keep to the apexes that they are given, every host that the discovery of a scan
  -- returns lies within these apexes: whatever the services answer, the zone files hold and the
  -- managed hosts and sources are.
  pub discover-InScope :
      (w : World) (hosts : List Host)
      → AreSettled (apexes_of r w.conn.db)
      → All (IsScoped (apexes_of r w.conn.db)) r.sources
      → (discover out r w).0 ≡ ok hosts
      → All (InScope (apexes_of r w.conn.db)) hosts
  unfolding discover
  discover-InScope w hosts s more_scoped h =
      let keep = λ (groups : List (List Host)) (suppressed : List SuppressedHost).
        select (λ x. not (is_suppressed suppressed x)) (merge groups) in
      let read = in_context "load suppressed hosts" (in_store (suppressed_hosts out.driver)) in
      let k₆ = λ (g m x : List (List Host)). read >>= λ q. pure (keep (g ++ (m ++ x)) q) in
      let k₅ = λ (a : List String) (g m : List (List Host)) (hs : List ManualHost).
        manual_group out r hs a >>= k₆ g m in
      let k₄ =
        λ (a : List String) (g m : List (List Host)). effective_manual_hosts out r a >>= k₅ a g m in
      let k₃ =
        λ (a : List String) (g : List (List Host)). discover_sources r.sources a >>= k₄ a g in
      let k₂ = λ (a : List String) (x : List Source). discover_sources x a >>= k₃ a in
      let k₁ = λ (a : List String). effective_sources out r >>= k₂ a in
      let (a, e₁, h₁, _) = step-eq-ok (effective_apexes out r) k₁ w h in
      let w₁ = (effective_apexes out r w).1 in
      let (same, kept) = effective_apexes-eq-ok out r w a e₁ in
      let (x, e₂, h₂, _) = step-eq-ok (effective_sources out r) (k₂ a) w₁ h₁ in
      let w₂ = (effective_sources out r w₁).1 in
      let (g, e₃, h₃, _) = step-eq-ok (discover_sources x a) (k₃ a) w₂ h₂ in
      let w₃ = (discover_sources x a w₂).1 in
      let (m, e₄, h₄, _) = step-eq-ok (discover_sources r.sources a) (k₄ a g) w₃ h₃ in
      let w₄ = (discover_sources r.sources a w₃).1 in
      let (hs, e₅, h₅, _) = step-eq-ok (effective_manual_hosts out r a) (k₅ a g m) w₄ h₄ in
      let w₅ = (effective_manual_hosts out r a w₄).1 in
      let (y, e₆, h₆, _) = step-eq-ok (manual_group out r hs a) (k₆ g m) w₅ h₅ in
      let w₆ = (manual_group out r hs a w₅).1 in
      let (q, e₇, h₇, _) = step-eq-ok read (λ q. pure (keep (g ++ (m ++ y)) q)) w₆ h₆ in
      let here = ap (apexes_of r) kept in
      let sources_scoped =
        subst (λ z. All (IsScoped z) x) (here ∙ sym same)
          (effective_sources-IsScoped out r w₁ x (subst AreSettled (sym here) s) e₂) in
      let found = discover_sources-InScope x a w₂ g sources_scoped e₃ in
      let added =
        discover_sources-InScope r.sources a w₃ m
          (subst (λ z. All (IsScoped z) r.sources) (sym same) more_scoped) e₄ in
      let named = manual_group-InScope out r hs a w₅ y e₆ in
      subst (λ z. All (InScope z) hosts) same
        (subst (All (InScope a)) (ok-injective h₇)
          (kept-InScope a g m y q (subst AreSettled (sym same) s) found added named))
