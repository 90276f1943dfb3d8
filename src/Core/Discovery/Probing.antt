-- ===== src/Core/Discovery/Probing.antt =====
-- The discovery of a scan probes nothing.
use certinv.Prelude.{String, ◌||◌, not, List, [], ◌∷◌, ◌≡◌, refl, ◌∙◌, inl, inr, Bool-cases}
use certinv.Config.{ManualHost}
use certinv.Result.{Result, ok, err}
use certinv.Store.Managed.{ManagedDiscovery}
use certinv.Core.{Outside, Source, Runner, World, Step, continue, ◌>>=◌}
use certinv.Core.Discovery.{
  has, is_empty, crt_name_enabled, discover_sources, effective_apexes, effective_manual_hosts,
  crt_name_sources, effective_sources, manual_group, discover,
}

-- the step leaves the targets probed as they are, also where it fails
pub record IsQuiet {A : Type 0} (m : Step A) : Type 0 where
  pub at : (w : World) → (m w).1.probed ≡ w.probed

continue-IsQuiet :
    {A B : Type 0} (x : Result A) (f : A → Step B)
    → ((a : A) → IsQuiet (f a))
    → IsQuiet (continue x f)
continue-IsQuiet (ok a) f h = record { at = (h a).at }
continue-IsQuiet (err e) f h = record { at = λ w. refl }

pub >>=-IsQuiet :
    {A B : Type 0} {m : Step A} {f : A → Step B}
    → IsQuiet m
    → ((a : A) → IsQuiet (f a))
    → IsQuiet (m >>= f)
unfolding ◌>>=◌
>>=-IsQuiet {m} {f} hm hf = record {
  at = λ w. (continue-IsQuiet (m w).0 f hf).at (m w).1 ∙ hm.at w;
}

discover_sources-IsQuiet :
    (sources : List Source) (apexes : List String) → IsQuiet (discover_sources sources apexes)
unfolding discover_sources
discover_sources-IsQuiet [] apexes = record { at = λ w. refl }
discover_sources-IsQuiet (s ∷ sources) apexes =
    >>=-IsQuiet (record { at = λ w. refl })
      (λ hosts.
        >>=-IsQuiet (discover_sources-IsQuiet sources apexes) (λ groups. record { at = λ w. refl }))

module _ {F : Type 0} (out : Outside) (r : Runner F) where
  pub effective_apexes-IsQuiet : IsQuiet (effective_apexes out r)
  unfolding effective_apexes
  effective_apexes-IsQuiet =
      >>=-IsQuiet (record { at = λ w. refl }) (λ managed. record { at = λ w. refl })

  effective_manual_hosts-IsQuiet :
      (apexes : List String) → IsQuiet (effective_manual_hosts out r apexes)
  unfolding effective_manual_hosts
  effective_manual_hosts-IsQuiet apexes =
      >>=-IsQuiet (record { at = λ w. refl }) (λ managed. record { at = λ w. refl })

  crt_name_sources-IsQuiet : (managed : ManagedDiscovery) → IsQuiet (crt_name_sources out r managed)
  unfolding crt_name_sources
  crt_name_sources-IsQuiet managed =
      elim (Bool-cases (crt_name_enabled managed (has "crtname" r.config.discovery.sources))) [
        | inl on ↦
            rw on (>>=-IsQuiet effective_apexes-IsQuiet (λ apexes. record { at = λ w. refl }))
        | inr off ↦ rw off (record { at = λ w. refl })
      ]

  effective_sources-IsQuiet : IsQuiet (effective_sources out r)
  unfolding effective_sources
  effective_sources-IsQuiet =
      >>=-IsQuiet (record { at = λ w. refl })
        (λ managed.
          >>=-IsQuiet (crt_name_sources-IsQuiet managed) (λ found. record { at = λ w. refl }))

  manual_group-IsQuiet :
      (hosts : List ManualHost) (apexes : List String) → IsQuiet (manual_group out r hosts apexes)
  unfolding manual_group
  manual_group-IsQuiet hosts apexes =
      elim (Bool-cases (has "manual" r.config.discovery.sources || not (is_empty hosts))) [
        | inl on ↦
            rw on (>>=-IsQuiet (record { at = λ w. refl }) (λ found. record { at = λ w. refl }))
        | inr off ↦ rw off (record { at = λ w. refl })
      ]

  pub discover-IsQuiet : IsQuiet (discover out r)
  unfolding discover
  discover-IsQuiet = >>=-IsQuiet effective_apexes-IsQuiet (λ apexes.
      >>=-IsQuiet effective_sources-IsQuiet (λ sources.
        >>=-IsQuiet (discover_sources-IsQuiet sources apexes) (λ groups.
          >>=-IsQuiet (discover_sources-IsQuiet r.sources apexes) (λ more.
            >>=-IsQuiet (effective_manual_hosts-IsQuiet apexes) (λ hosts.
              >>=-IsQuiet (manual_group-IsQuiet hosts apexes) (λ manual.
                >>=-IsQuiet (record { at = λ w. refl })
                  (λ suppressed. record { at = λ w. refl })))))))
