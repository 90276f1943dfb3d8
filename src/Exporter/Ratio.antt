-- ===== src/Exporter/Ratio.antt =====
-- The remaining lifetime that the exporter gives is a ratio.
use certinv.Prelude.{
  pos, leb_ℤ, Bool, true, false, List, [], ◌∷◌, ◌++◌, map, select, All, ◌≡◌, inl, inr, Bool-cases,
}
use certinv.Clock.{Time, Duration, sub}
use certinv.Config.{Float64}
use certinv.Result.{Result, ok, err}
use certinv.Store.Snapshots.{CertificateMetric, HostMetric, MetricsSnapshot, flat_map}
use certinv.Exporter.{
  Division, Exporter, cert_not_after, cert_lifetime_days, cert_remaining_ratio, host_reachable,
  scan_duration, scan_last_success, Sample, remaining_ratio, certificate_samples, host_sample,
  snapshot_samples, collect,
}

abbrev pub is_ratio : {F : Type 0} → Sample F → Bool
is_ratio s = elim s.metric [
  | cert_remaining_ratio ↦ true
  | cert_not_after ↦ false
  | cert_lifetime_days ↦ false
  | host_reachable ↦ false
  | scan_duration ↦ false
  | scan_last_success ↦ false
]

-- the number lies between 0 and 1
abbrev pub InUnit : (float : Float64) → float.F → Type 0
InUnit float x =
    (float.le (float.of_int (pos 0)) x ≡ true) × (float.le x (float.of_int (pos 1)) ≡ true)

-- What is used of `float64`: 0 and 1 lie between 0 and 1; and the quotient of two positive durations is
-- not below 0, and, since it is a number, is not above 1 where 1 is not below it.
pub record IsOrdered (float : Float64) (division : Division float) : Type 0 where
  pub zero : InUnit float (float.of_int (pos 0))
  pub one : InUnit float (float.of_int (pos 1))
  pub quotient :
      (a b : Duration)
      → leb_ℤ a (pos 0) ≡ false
      → leb_ℤ b (pos 0) ≡ false
      → float.lt (float.of_int (pos 1)) (division.div (division.seconds a) (division.seconds b))
        ≡ false
      → InUnit float (division.div (division.seconds a) (division.seconds b))

module _ (float : Float64) (division : Division float) (ordered : IsOrdered float division) where
  remaining_ratio-InUnit :
      (cert : CertificateMetric) (now : Time)
      → InUnit float (remaining_ratio float division cert now)
  unfolding remaining_ratio
  remaining_ratio-InUnit cert now =
      let lifetime = sub cert.not_after cert.not_before in
      let remaining = sub cert.not_after now in
      elim (Bool-cases (leb_ℤ lifetime (pos 0))) [
        | inl y ↦ rw y ordered.zero
        | inr n ↦ elim (Bool-cases (leb_ℤ remaining (pos 0))) [
          | inl y ↦ rw (n, y) ordered.zero
          | inr m ↦
              elim (Bool-cases (
                float.lt (float.of_int (pos 1))
                  (division.div (division.seconds remaining) (division.seconds lifetime)))) [
                    | inl y ↦ rw (n, m, y) ordered.one
                    | inr k ↦ rw (n, m, k) (ordered.quotient remaining lifetime m n k)
                  ]
        ]
      ]

  -- a sample that is a ratio lies between 0 and 1
  abbrev Ratios : List (Sample float.F) → Type 0
  Ratios samples = All (λ s. InUnit float s.value) (select is_ratio samples)

  Ratios-append : (xs ys : List (Sample float.F)) → Ratios xs → Ratios ys → Ratios (xs ++ ys)
  unfolding select
  Ratios-append [] ys hx hy = hy
  Ratios-append (x ∷ xs) ys hx hy = elim (Bool-cases (is_ratio x)) [
    | inl y ↦ rw y ((rw y at hx).0, Ratios-append xs ys (rw y at hx).1 hy)
    | inr n ↦ rw n (Ratios-append xs ys (rw n at hx) hy)
  ]

  certificates-Ratios :
      (now : Time) (certs : List CertificateMetric)
      → Ratios (flat_map (certificate_samples float division now) certs)
  unfolding flat_map select
  certificates-Ratios now [] = tt
  certificates-Ratios now (c ∷ certs) =
      (remaining_ratio-InUnit c now, certificates-Ratios now certs)

  hosts-Ratios : (hosts : List HostMetric) → Ratios (map (host_sample float division) hosts)
  unfolding select
  hosts-Ratios [] = tt
  hosts-Ratios (h ∷ hosts) = hosts-Ratios hosts

  snapshot-Ratios :
      (now : Time) (snapshot : Result MetricsSnapshot)
      → Ratios (snapshot_samples float division now snapshot)
  unfolding select
  snapshot-Ratios now (err e) = tt
  snapshot-Ratios now (ok s) =
      Ratios-append (flat_map (certificate_samples float division now) s.certificates)
        (map (host_sample float division) s.hosts) (certificates-Ratios now s.certificates)
        (hosts-Ratios s.hosts)

  -- Every ratio of the remaining lifetime that the exporter gives lies between 0 and 1, at any time,
  -- also for a certificate that has expired, is not yet valid or ends before it begins, and whether or
  -- not the store could be read. Of `float64`, the theorem asks that 0 and 1 lie between 0 and 1, and
  -- that the quotient of two positive durations is not below 0, nor above 1 unless 1 is below it.
  pub collect-InUnit :
      (e : Exporter float.F) (now : Time) (snapshot : Result MetricsSnapshot)
      → All
          (λ (s : Sample float.F). InUnit float s.value)
          (select is_ratio (collect float division e now snapshot))
  unfolding collect select
  collect-InUnit e now snapshot =
      Ratios-append (snapshot_samples float division now snapshot) _ (snapshot-Ratios now snapshot)
        tt
