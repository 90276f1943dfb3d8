-- ===== src/Ui/Pages/Reading.antt =====
-- The pages, the lookup of names and the export only read: what holds of the database and of the runner
-- of scans before such a request holds after it.
use certinv.Prelude.{String}
use certinv.Result.{Error, Result, ok, err}
use certinv.Store.Schema.{Db}
use certinv.Store.Managed.Keeping.{
  managed_targets-Keeps, managed_discovery-Keeps, suppressed_hosts-Keeps, inventory_snapshot-Keeps,
  unacknowledged_events-Keeps,
}
use certinv.Cmd.SerialScan.{Runner}
use certinv.Ui.{Outside, Handler, Request, Response, Message}
use certinv.Ui.Stage.{Stage}
use certinv.Ui.Lookups.{effective_apexes, registered_manual_hostnames}
use certinv.Ui.Pages.{target_rows, source_rows, page_data, inventory, status}
use certinv.Ui.Pages.Lookup.{sources_error, or_sources_error, attempt, crt_name_lookup}
use certinv.Ui.Pages.Export.{export_csv}
use certinv.Ui.Yields.{Holds, >>=-Yields, answer-Yields, stop-Yields, try-Holds, now-Holds}

module _ (out : Outside) (h : Handler) {P : Db → Runner → Type 0} where
  pub effective_apexes-Holds : (failed : Error → Response) → Holds P (effective_apexes out h failed)
  unfolding effective_apexes
  effective_apexes-Holds failed =
      >>=-Yields (try-Holds _ _ (λ r. managed_targets-Keeps _ out.driver))
        (λ managed _. answer-Yields tt)

  registered-Holds :
      (failed : Error → Response) → Holds P (registered_manual_hostnames out h failed)
  unfolding registered_manual_hostnames
  registered-Holds failed =
      >>=-Yields (try-Holds _ _ (λ r. managed_targets-Keeps _ out.driver))
        (λ managed _. answer-Yields tt)

  target_rows-Holds : Holds P (target_rows out h)
  unfolding target_rows
  target_rows-Holds =
      >>=-Yields (try-Holds _ _ (λ r. managed_discovery-Keeps _ out.driver)) (λ discovery _.
        >>=-Yields (try-Holds _ _ (λ r. managed_targets-Keeps _ out.driver))
          (λ managed _. answer-Yields tt))

  source_rows-Holds : Holds P (source_rows out h)
  unfolding source_rows
  source_rows-Holds =
      >>=-Yields (try-Holds _ _ (λ r. managed_discovery-Keeps _ out.driver))
        (λ managed _. answer-Yields tt)

  page_data-Holds :
      (tab notice : String) (problem : Message) → Holds P (page_data out h tab notice problem)
  unfolding page_data
  page_data-Holds tab notice problem =
      >>=-Yields (try-Holds _ _ (λ r. inventory_snapshot-Keeps _ out.driver)) (λ rows _.
        >>=-Yields (try-Holds _ _ (λ r. unacknowledged_events-Keeps _ out.driver)) (λ events _.
          >>=-Yields (try-Holds _ _ (λ r. suppressed_hosts-Keeps _ out.driver)) (λ suppressed _.
            >>=-Yields (now-Holds out) (λ at _.
              >>=-Yields target_rows-Holds
                (λ targets _. >>=-Yields source_rows-Holds (λ sources _. answer-Yields tt))))))

  pub inventory-Holds : (r : Request) → Holds P (inventory out h r)
  unfolding inventory
  inventory-Holds r = >>=-Yields (page_data-Holds _ _ _) (λ shown _. answer-Yields tt)

  pub export_csv-Holds : (r : Request) → Holds P (export_csv out h r)
  unfolding export_csv
  export_csv-Holds r =
      >>=-Yields (try-Holds _ _ (λ r. inventory_snapshot-Keeps _ out.driver))
        (λ rows _. answer-Yields tt)

  pub status-Holds : (r : Request) → Holds P (status out h r)
  unfolding status
  status-Holds r = record { at = λ s p. (p, tt) }

  or_sources_error-Holds :
      {A : Type 0} (problem : String) (x : Result A) → Holds P (or_sources_error out h problem x)
  unfolding or_sources_error sources_error
  or_sources_error-Holds problem (ok a) = answer-Yields tt
  or_sources_error-Holds problem (err e) =
      >>=-Yields (page_data-Holds _ _ _) (λ shown _. stop-Yields)

  attempt-Holds :
      {A : Type 0} (m : (Error → Response) → Stage A)
      → ((failed : Error → Response) → Holds P (m failed))
      → Holds P (attempt out h m)
  unfolding attempt
  attempt-Holds m k = record { at = λ s p. (((k _).at s p).0, tt) }

  pub crt_name_lookup-Holds : (r : Request) → Holds P (crt_name_lookup out h r)
  unfolding crt_name_lookup
  crt_name_lookup-Holds r = >>=-Yields (attempt-Holds _ effective_apexes-Holds) (λ loaded _.
      >>=-Yields (or_sources_error-Holds _ loaded) (λ apexes _.
        >>=-Yields (or_sources_error-Holds _ _) (λ _ _.
          >>=-Yields (or_sources_error-Holds _ _) (λ form _.
            >>=-Yields (or_sources_error-Holds _ _) (λ apex _.
              >>=-Yields (or_sources_error-Holds _ _) (λ _ _.
                >>=-Yields (or_sources_error-Holds _ _) (λ _ _.
                  >>=-Yields (or_sources_error-Holds _ _) (λ hosts _.
                    >>=-Yields (attempt-Holds _ registered-Holds) (λ known _.
                      >>=-Yields (or_sources_error-Holds _ known) (λ registered _.
                        >>=-Yields (page_data-Holds _ _ _) (λ shown _. answer-Yields tt)))))))))))
