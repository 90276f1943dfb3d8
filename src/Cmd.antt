-- ===== src/Cmd.antt =====
-- cmd/certinv/main.go: the target of `check`, basic authentication, and the runner that lets one
-- scan run at a time.
pub mod SerialScan
pub mod Check
pub mod Serve
