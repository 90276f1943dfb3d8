-- ===== src/Cmd/Check.antt =====
-- `scopedCheckTarget` and the port test of `runCheck`, and `withOptionalBasicAuth`.
use certinv.Prelude.{
  String, Bool, true, false, ◌&&◌, Option, none, some, List, ◌==◌, eq_iff, ◌≡◌, ◌≢◌, ◌↔◌, arith,
  if◌then◌else◌,
}
use certinv.Config.{ExporterAuth}
use certinv.Discover.{normalize_hostname, apex_for}
use certinv.Result.{message, about, Result, ok, err}
use certinv.Text.{contains}

abbrev in_apex : String → Option String → Result (String × String)
in_apex hostname none = err (about "check target is outside configured apexes" hostname)
in_apex hostname (some apex) = ok (hostname, apex)

unfoldable pub scoped_check_target : String → List String → Result (String × String)
scoped_check_target raw apexes =
    let hostname = normalize_hostname raw in
    if hostname == ""
    then err (message "check target FQDN is required")
    else if contains hostname ":"
    then err (message "check target must be an FQDN without port; use --port for non-443 TLS")
    else in_apex hostname (apex_for hostname apexes)

-- A target that `check` accepts is the normalized argument: it is not empty, holds no colon, and
-- lies within the apex that is returned with it. An argument is refused exactly where one of these
-- fails.
pub scoped_check_target_exact :
    (raw : String) (apexes : List String) (hostname apex : String)
    → (scoped_check_target raw apexes ≡ ok (hostname, apex)) ↔ (
        (hostname ≡ normalize_hostname raw)
        × (hostname ≢ "")
        × (contains hostname ":" ≡ false)
        × (apex_for hostname apexes ≡ some apex))
unfolding scoped_check_target
scoped_check_target_exact raw apexes hostname apex = (
  λ e. ground (arith, eq_iff (normalize_hostname raw) ""),
  λ h. ground (arith, eq_iff (normalize_hostname raw) ""),
)

-- the credentials of a request, if it carries any
abbrev pub Credentials : Type 0
Credentials = Option (String × String)

-- whether the request is passed on; `subtle.ConstantTimeCompare` is equality
unfoldable pub authorized : ExporterAuth → Credentials → Bool
authorized auth credentials =
    if auth.username == "" && auth.password == ""
    then true
    else elim credentials [ none ↦ false | some (u, p) ↦ u == auth.username && p == auth.password ]
