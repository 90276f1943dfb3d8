-- ===== src/Ui/Pages/Export.antt =====
-- The table that is exported.
use certinv.Prelude.{pos, String, Bool, true, false, some, List, [], ◌∷◌, map, ◌==◌, if◌then◌else◌}
use certinv.Text.{trim_space}
use certinv.Store.Snapshots.{InventoryRow, inventory_snapshot}
use certinv.Ui.{
  Outside, Handler, Request, Response, csv, Cell, words, number, moment, truth, joined,
}
use certinv.Ui.Stage.{Stage, ◌>>=◌, answer, try}
use certinv.Ui.Pages.{load_failed}

-- `fallback`
unfoldable pub fallback : String → String → String
fallback value default_value = if trim_space value == "" then default_value else value

-- `chainLabel`
abbrev chain_label : Bool → String
chain_label true = "Complete"
chain_label false = "Incomplete"

unfoldable pub csv_header : List Cell
csv_header = map words (
    "host" ∷ "port" ∷ "apex" ∷ "source" ∷ "host_status" ∷ "cert_state" ∷ "automation"
    ∷ "key_algorithm" ∷ "chain" ∷ "not_before" ∷ "not_after" ∷ "issuer_cn" ∷ "issuer_org"
    ∷ "subject_cn" ∷ "fingerprint" ∷ "san" ∷ "hostname_match" ∷ "first_seen_at" ∷ "last_resolved_at"
    ∷ "last_probed_at" ∷ "last_seen_at" ∷ "observed_at" ∷ "http_status" ∷ [])

unfoldable pub csv_row : InventoryRow → List Cell
csv_row row =
    words row.hostname
    ∷ number row.port
    ∷ words row.apex
    ∷ words row.source
    ∷ words row.host_status
    ∷ words row.cert_state
    ∷ words (fallback row.automation "unknown")
    ∷ words row.key_algorithm
    ∷ words (chain_label row.chain_complete)
    ∷ moment row.not_before
    ∷ moment row.not_after
    ∷ words row.issuer_cn
    ∷ words row.issuer_org
    ∷ words row.subject_cn
    ∷ words row.fingerprint
    ∷ joined row.san_names
    ∷ truth row.hostname_match
    ∷ moment (some row.first_seen_at)
    ∷ moment row.last_resolved_at
    ∷ moment row.last_probed_at
    ∷ moment row.last_seen_at
    ∷ moment row.observed_at
    ∷ number (pos row.http_status)
    ∷ []

module _ (out : Outside) (h : Handler) where
  unfoldable pub export_csv : Request → Stage Response
  export_csv r = do
    rows ← try load_failed (inventory_snapshot out.driver)
    answer (csv (csv_header ∷ map csv_row rows))
