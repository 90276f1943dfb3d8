-- ===== src/Lib.antt =====
-- certinv: an inventory of the TLS certificates that the hosts of configured domains present. A scan
-- finds host names within the configured apexes, resolves and probes each host, stores its
-- certificate, evaluates the certificate's state, and notifies of what changed. A web interface shows
-- the inventory and manages apexes, hosts and sources, and an exporter gives metrics.
--
-- Which module is about which code:
--   Prelude, Text, Result: shared helpers. Text has the functions of Go's `strings`, `unicode` and
--     `strconv` that the program uses, on ASCII; Result has errors and results.
--   Clock: `time.Time` and `time.Duration`, and the text of a timestamp column
--     (`formatTime`, internal/store/sqlite/sqlite.go).
--   Config: internal/config/config.go. Loading has `Load` and `Validate`; Checked and ManualHosts have the
--     proofs.
--   Cert: internal/cert/cert.go. Evaluate: internal/evaluate/evaluate.go. Report:
--     internal/report/automation.go. Notify: internal/notify/notify.go.
--   Discover: internal/discover/discover.go; its children Manual, CrtName and ZoneFile: the packages
--     manual, crtname and zonefile below internal/discover.
--   Store: internal/store/store.go and internal/store/sqlite/sqlite.go. Schema has the tables, Table
--     the SQL statements on a list of rows, Exec the actions on the database; Hosts, Certificates,
--     Events, Managed and Snapshots have the methods. A method's name is that of the Go method in snake case
--     (`record_event` for `RecordEvent`).
--   Core: internal/core/core.go. Discovery has `discover` and the effective apexes, sources and hosts;
--     Hosts has `processHost`; Notifying has `notifyEvent` and `retryPendingEvents`; Run has `run`, and
--     Scheduler internal/core/scheduler.go. The
--     modules Scope, Sources, Probing, Frame, Owned, Suppressed and Delivery below them have the proofs.
--   Ui: internal/ui/ui.go. Stage has the steps of a handler, Forms and Lookups the checks of forms,
--     Targets, Hosts, Events and Pages the handlers, and Routes `Register`. A handler has the name of
--     the Go method without `serve`. Yields, Checks, Sound, Reading and Scope have the proofs.
--   Exporter: internal/exporter/exporter.go.
--   Cmd: cmd/certinv/main.go. Check has `scopedCheckTarget` and the test of credentials, Serve
--     the mux behind it, SerialScan has `serialScanRunner`.
--   Tests: the theorems at concrete inputs.
--
-- How the state corresponds: `Store.Schema.Db` has one list of rows for each table, in the order of
-- the row ids. `Store.Exec.Conn` adds the number of calls made to the SQL driver. `Core.World` is what
-- a scan changes: the connection, the number of calls made to the outside, and, for statements about
-- them, the targets probed, the notifications sent and the scans recorded.
--
-- `Ui.Site` is what a request to the web interface changes: the connection, the number of times that
-- the clock was asked, and the runner of scans.
--
-- A name is settled where it is not empty and ends neither with a dot nor with a blank; normalizing a
-- settled name leaves it, and the statements about apexes ask for settled ones (the configuration's are
-- registrable domains). The sources that a caller of `Runner` adds are given by a hypothesis.
--
-- What is a parameter: the SQL driver's failures (any call may fail; a statement that fails changes
-- nothing; a transaction that does not commit is rolled back, as SQLite documents), crypto/x509 and
-- SHA-256, `float64`, `time.Parse`, the request to crt.name with its JSON, the reading of zone files,
-- the resolver, the prober, the requests of the notifiers, the environment, the
-- library of public suffixes, the YAML decoder, the file system, and the clock. A
-- parameter of a scan answers by the number of the call, so that answers may differ from call to call.
--
-- Bounds: an `int64` of nanoseconds is an integer that wraps or saturates as Go's does. Ids are
-- natural numbers. Every loop is a recursion on a list, a text or the number of ticks, so there is no
-- fuel.
--
-- What is not modelled: the workers of a scan run one after another, in one order, while in Go they
-- interleave; a context that ends is the number of hosts that are handed out before. The logger and the
-- printed output are left out. Text outside ASCII is not treated as Go treats Unicode. The parts not
-- modelled are `Open` and `migrate`, the prober, the resolver, the Prometheus
-- client, and the HTML template of the web interface. The mux of net/http is taken by its
-- patterns, without the redirects by which it cleans paths.
pub mod Prelude
pub mod Text
pub mod Clock
pub mod Config
pub mod Cert
pub mod Evaluate
pub mod Report
pub mod Result
pub mod Discover
pub mod Store
pub mod Notify
pub mod Core
pub mod Cmd
pub mod Exporter
pub mod Ui
pub mod Tests
