-- ===== src/Core/Scheduler.antt =====
-- internal/core/scheduler.go: one scan at once, and one at each tick until the context is done. The
-- ticks that come before are counted; the ticker of Go drops ticks that come while a scan runs.
use certinv.Prelude.{ℕ, zero, suc, pos, leb_ℤ, Option, none, some, if◌then◌else◌}
use certinv.Clock.{Duration}
use certinv.Result.{message, Result, ok, err}

-- `run`, which drops the error of a scan
abbrev pub run_once : {S : Type 0} → (S → Result (Unit {0}) × S) → S → S
run_once scan s = (scan s).1

unfoldable pub at_ticks : {S : Type 0} → (S → Result (Unit {0}) × S) → ℕ → S → S
at_ticks scan zero s = s
at_ticks scan (suc ticks) s = at_ticks scan ticks (run_once scan s)

abbrev pub with_function :
    {S : Type 0} → Option (S → Result (Unit {0}) × S) → ℕ → S → Result (Unit {0}) × S
with_function none ticks s = (err (message "run function is required"), s)
with_function (some scan) ticks s = (ok tt, at_ticks scan ticks (run_once scan s))

-- `Scheduler.Run`
unfoldable pub schedule :
    {S : Type 0} → Duration → Option (S → Result (Unit {0}) × S) → ℕ → S → Result (Unit {0}) × S
schedule interval scan ticks s =
    if leb_ℤ interval (pos 0)
    then (err (message "schedule interval must be positive"), s)
    else with_function scan ticks s
