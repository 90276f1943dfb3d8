-- ===== src/Ui/Sound.antt =====
-- What the database holds of managed targets and of zone files, and what the runner of scans does: an
-- invariant of the web interface, and the statements that keep it.
use certinv.Prelude.{
  ◌==◌, String, true, List, [], ◌∷◌, ◌++◌, map, any, ℤ, All, All-append, ◌≡◌, ◌≢◌, ◌⊎◌, refl, sym,
  subst, inl, inr, eq_iff, eq_refl, arith,
}
use certinv.Clock.{Stamp}
use certinv.Result.{ok}
use certinv.Discover.{Host, normalize_hostname, within_apex}
use certinv.Store.Schema.{Db, ManagedApexRow}
use certinv.Store.Table.Members.{All-upsert, All-delete_where, All-order_by}
use certinv.Store.Managed.{
  ManagedApex, targets_apexes, put_managed_apex, delete_apex, put_managed_host, delete_managed_host,
  put_zone_file, delete_zone_file,
}
use certinv.Cmd.SerialScan.{Runner, Reach}
use certinv.Ui.{Outside, Handler}
use certinv.Ui.Forms.Checks.{InPortRange, IsBelow}

module _ (out : Outside) (h : Handler) where
  -- an apex of the configuration, or one that the library of public suffixes takes for registrable
  abbrev pub IsApex : String → Type 0
  IsApex a = (any (λ c. c == a) h.config.apexes ≡ true) ⊎ (out.etld_plus_one a ≡ ok a)

  -- the name lies within an apex, and `apex` is that one
  abbrev pub HasApex : (hostname apex : String) → Type 0
  HasApex hostname apex =
      (a : String) × IsApex a × (within_apex hostname a ≡ true) × (apex ≡ normalize_hostname a)

  abbrev pub IsTarget : String → ℤ → String → Type 0
  IsTarget hostname port apex = (hostname ≢ "") × InPortRange port × HasApex hostname apex

  -- Managed apexes are registrable; managed hosts have a name, a port and an apex that they lie within;
  -- managed zone files lie below the directory that is allowed; and the runner's flag and its scans are
  -- those of some sequence of requests and ends of scans.
  abbrev pub IsSound : Db → Runner → Type 0
  IsSound db scans =
      All (λ r. out.etld_plus_one r.apex ≡ ok r.apex) db.managed_apexes
      × All (λ r. IsTarget r.hostname r.port r.apex) db.managed_manual_hosts
      × All (λ r. IsBelow out.paths h.sources.zone_allowed_dir r.path) db.managed_zone_files
      × Reach scans

  module _ (db : Db) (scans : Runner) (sound : IsSound db scans) where
    pub put_managed_apex-IsSound :
        (apex : String) (now : Stamp)
        → out.etld_plus_one apex ≡ ok apex
        → IsSound (put_managed_apex apex now db) scans
    unfolding put_managed_apex
    put_managed_apex-IsSound apex now good = (
      All-upsert (λ r. out.etld_plus_one r.apex ≡ ok r.apex) _ _ _ good (λ r same old. old)
          db.managed_apexes sound.0,
      sound.1,
      sound.2,
      sound.3,
    )

    pub delete_apex-IsSound : (apex : String) → IsSound (delete_apex apex db) scans
    unfolding delete_apex
    delete_apex-IsSound apex = (
      All-delete_where (λ r. out.etld_plus_one r.apex ≡ ok r.apex) _ db.managed_apexes sound.0,
      sound.1,
      sound.2,
      sound.3,
    )

    pub put_managed_host-IsSound :
        (host : Host) (now : Stamp)
        → IsTarget host.hostname host.port host.apex
        → IsSound (put_managed_host host now db) scans
    unfolding put_managed_host
    put_managed_host-IsSound host now good = (
      sound.0,
      All-upsert (λ r. IsTarget r.hostname r.port r.apex) _ _ _ good
          (λ r same old.
            let name : r.hostname ≡ host.hostname =
              (eq_iff r.hostname host.hostname).0
                (ground (arith, eq_iff r.hostname host.hostname)) in
            (old.0, old.1, subst (λ n. HasApex n host.apex) (sym name) good.2))
          db.managed_manual_hosts sound.1,
      sound.2,
      sound.3,
    )

    pub delete_managed_host-IsSound :
        (hostname : String) (port : ℤ) → IsSound (delete_managed_host hostname port db) scans
    unfolding delete_managed_host
    delete_managed_host-IsSound hostname port = (
      sound.0,
      All-delete_where (λ r. IsTarget r.hostname r.port r.apex) _ db.managed_manual_hosts sound.1,
      sound.2,
      sound.3,
    )

    pub put_zone_file-IsSound :
        (path : String) (now : Stamp)
        → IsBelow out.paths h.sources.zone_allowed_dir path
        → IsSound (put_zone_file path now db) scans
    unfolding put_zone_file
    put_zone_file-IsSound path now good = (
      sound.0,
      sound.1,
      All-upsert (λ r. IsBelow out.paths h.sources.zone_allowed_dir r.path) _ _ _ good
          (λ r same old. old) db.managed_zone_files sound.2,
      sound.3,
    )

    pub delete_zone_file-IsSound : (path : String) → IsSound (delete_zone_file path db) scans
    unfolding delete_zone_file
    delete_zone_file-IsSound path = (
      sound.0,
      sound.1,
      All-delete_where (λ r. IsBelow out.paths h.sources.zone_allowed_dir r.path) _
          db.managed_zone_files sound.2,
      sound.3,
    )

  configured :
      (P : String → Type 0) (cs : List String)
      → ((c : String) → any (λ x. x == c) cs ≡ true → P c)
      → All P cs
  unfolding any
  configured P [] k = tt
  configured P (c ∷ cs) k = (k c (rw (eq_refl c) refl), configured P cs (λ a e. k a (ground arith)))

  names-IsApex :
      (rows : List ManagedApex)
      → All (λ r. out.etld_plus_one r.apex ≡ ok r.apex) rows
      → All IsApex (map (λ r. r.apex) rows)
  names-IsApex [] good = tt
  names-IsApex (r ∷ rows) good = (inr good.0, names-IsApex rows good.1)

  targets_of :
      (rows : List ManagedApexRow)
      → All (λ r. out.etld_plus_one r.apex ≡ ok r.apex) rows
      → All
          (λ r. out.etld_plus_one r.apex ≡ ok r.apex)
          (map {B = ManagedApex}
            (λ r. record { apex = r.apex; source = "db"; added_at = r.added_at })
            rows)
  targets_of [] good = tt
  targets_of (r ∷ rows) good = (good.0, targets_of rows good.1)

  -- the apexes that a handler looks hosts up in
  pub apexes-IsApex :
      (db : Db) (scans : Runner)
      → IsSound db scans
      → All IsApex (h.config.apexes ++ map (λ r. r.apex) (targets_apexes db))
  unfolding targets_apexes
  apexes-IsApex db scans sound =
      All-append IsApex h.config.apexes _ (configured IsApex h.config.apexes (λ c e. inl e)) (
        names-IsApex _ (
          targets_of _
            (All-order_by (λ r. out.etld_plus_one r.apex ≡ ok r.apex) _ db.managed_apexes sound.0)))
