-- ===== src/Store/Managed/Reading.antt =====
-- What a scan reads of the managed targets, and that reading changes nothing.
use certinv.Prelude.{String, List, Option, ◌≡◌, refl, sym, ap, ◌∙◌, inl, inr, Bool-cases}
use certinv.Result.{Result, ok, err, ok-injective}
use certinv.Store.Schema.{Db, CrtNameRow, ApexCrtNameRow, ZoneFileRow}
use certinv.Store.Table.{text_le, order_by}
use certinv.Store.Exec.{Conn, Driver, Action, continue, ◌>>=◌, pure, query, statement}
use certinv.Store.Exec.Laws.{>>=-eq-ok, statement-eq-ok}
use certinv.Store.Managed.{
  ManagedApex, ManagedManualHost, ManagedTargets, targets_apexes, targets_hosts, discovery_of,
  managed_targets, managed_discovery,
}

-- the action leaves the database as it is, also where it fails
record Reads {A : Type 0} (m : Action A) : Type 0 where
  at : (c : Conn) → (m c).1.db ≡ c.db

continue-Reads :
    {A B : Type 0} (x : Result A) (f : A → Action B)
    → ((a : A) → Reads (f a))
    → Reads (continue x f)
continue-Reads (ok a) f h = record { at = (h a).at }
continue-Reads (err e) f h = record { at = λ c. refl }

>>=-Reads :
    {A B : Type 0} (m : Action A) (f : A → Action B)
    → Reads m
    → ((a : A) → Reads (f a))
    → Reads (m >>= f)
>>=-Reads m f hm hf = record { at = λ c. (continue-Reads (m c).0 f hf).at (m c).1 ∙ hm.at c }

pure-Reads : {A : Type 0} (a : A) → Reads (pure a)
pure-Reads a = record { at = λ c. refl }

module _ (driver : Driver) where
  query-Reads : {A : Type 0} (text : String) (f : Db → A) → Reads (query driver text f)
  unfolding statement
  query-Reads text f = record {
    at =
        λ c. elim (Bool-cases (driver c.calls)) [ inl bad ↦ rw bad refl | inr good ↦ rw good refl ];
  }

  pub managed_discovery-db : (c : Conn) → (managed_discovery driver c).1.db ≡ c.db
  unfolding managed_discovery
  managed_discovery-db =
      let apexes = λ (db : Db). order_by (λ a b. text_le a.apex b.apex) db.managed_apex_crtname in
      let files = λ (db : Db). order_by (λ a b. text_le a.path b.path) db.managed_zone_files in
      let last =
        λ (row : Option CrtNameRow) (settings : List ApexCrtNameRow) (found : List ZoneFileRow).
          pure (discovery_of row settings found) in
      let second = λ (row : Option CrtNameRow) (settings : List ApexCrtNameRow).
        query driver "select managed zone files" files >>= last row settings in
      let first = λ (row : Option CrtNameRow).
        query driver "select managed apex crtname" apexes >>= second row in
      (>>=-Reads (query driver "select managed crtname" (λ db. db.managed_crtname)) first
        (query-Reads _ _)
        (λ row.
          >>=-Reads (query driver "select managed apex crtname" apexes) (second row)
            (query-Reads _ _)
            (λ settings.
              >>=-Reads (query driver "select managed zone files" files) (last row settings)
                (query-Reads _ _) (λ found. pure-Reads _)))).at

  pub managed_targets-db : (c : Conn) → (managed_targets driver c).1.db ≡ c.db
  unfolding managed_targets
  managed_targets-db =
      let hosts = query driver "select managed manual hosts" targets_hosts in
      let last = λ (apexes : List ManagedApex) (found : List ManagedManualHost).
        pure {A = ManagedTargets} (record { apexes = apexes; manual_hosts = found }) in
      (>>=-Reads (query driver "select managed apexes" targets_apexes)
        (λ (apexes : List ManagedApex). hosts >>= last apexes) (query-Reads _ _)
        (λ apexes. >>=-Reads hosts (last apexes) (query-Reads _ _) (λ found. pure-Reads _))).at

  -- the apexes that a successful reading returns
  pub managed_targets-eq-ok :
      (c : Conn) (t : ManagedTargets)
      → (managed_targets driver c).0 ≡ ok t
      → (t.apexes ≡ targets_apexes c.db) × ((managed_targets driver c).1.db ≡ c.db)
  unfolding managed_targets
  managed_targets-eq-ok c t h =
      let q = query driver "select managed apexes" targets_apexes in
      let p = query driver "select managed manual hosts" targets_hosts in
      let last = λ (apexes : List ManagedApex) (hosts : List ManagedManualHost).
        pure {A = ManagedTargets} (record { apexes = apexes; manual_hosts = hosts }) in
      let (apexes, e, s) = >>=-eq-ok q (λ (apexes : List ManagedApex). p >>= last apexes) c h in
      let (hosts, e₂, s₂) = >>=-eq-ok p (last apexes) (q c).1 (sym (ap (λ r. r.0) s) ∙ h) in
      let (same, kept) =
        statement-eq-ok driver "select managed apexes" (λ db. (targets_apexes db, db)) c apexes e in
      let whole = s ∙ s₂ in
      (
        ap (λ (x : ManagedTargets). x.apexes) (sym (ok-injective (sym (ap (λ r. r.0) whole) ∙ h)))
            ∙ sym same,
        managed_targets-db c,
      )
