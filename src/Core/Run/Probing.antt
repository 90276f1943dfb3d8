-- ===== src/Core/Run/Probing.antt =====
-- Which targets the workers of a scan connect to.
use certinv.Prelude.{List, [], ◌∷◌, All, ◌≡◌, refl, ap, suc, length, Option, none, some, zero, ℕ}
use certinv.Config.{Float64}
use certinv.Discover.{Host}
use certinv.Core.{Outside, World, Target, Runner}
use certinv.Core.Hosts.{target_of, process_host}
use certinv.Core.Hosts.Probing.{process_host-probes}
use certinv.Core.Run.{process_hosts, handed_out}

handed_out-All :
    (P : Host → Type 0) (limit : Option ℕ) (hosts : List Host)
    → All P hosts
    → All P (handed_out limit hosts)
handed_out-All P none hosts h = h
handed_out-All P (some zero) hosts h = tt
handed_out-All P (some (suc n)) [] h = tt
handed_out-All P (some (suc n)) (x ∷ hosts) h = (h.0, handed_out-All P (some n) hosts h.1)

module _ (P : Target → Type 0) (float : Float64) (out : Outside) (r : Runner float.F) where
  process_hosts-All :
      (hosts : List Host) (w : World)
      → All (λ h. P (target_of out h)) hosts
      → All P w.probed
      → All P (process_hosts float out r hosts w).1.probed
  unfolding process_hosts
  process_hosts-All [] w hs k = k
  process_hosts-All (h ∷ hosts) w hs k =
      process_hosts-All hosts (process_host float out r h w).1 hs.1
        (process_host-probes P float out r h w hs.0 k)

  process_hosts-length :
      (hosts : List Host) (w : World) → length (process_hosts float out r hosts w).0 ≡ length hosts
  unfolding process_hosts
  process_hosts-length [] w = refl
  process_hosts-length (h ∷ hosts) w =
      ap suc (process_hosts-length hosts (process_host float out r h w).1)

  pub process_hosts-probes :
      (limit : Option ℕ) (hosts : List Host) (w : World)
      → All (λ h. P (target_of out h)) hosts
      → All P w.probed
      → All P (process_hosts float out r (handed_out limit hosts) w).1.probed
        × (length (process_hosts float out r (handed_out limit hosts) w).0
            ≡ length (handed_out limit hosts))
  process_hosts-probes limit hosts w hs k = (
    process_hosts-All (handed_out limit hosts) w
        (handed_out-All (λ h. P (target_of out h)) limit hosts hs) k,
    process_hosts-length (handed_out limit hosts) w,
  )
