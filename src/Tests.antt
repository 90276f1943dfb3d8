-- ===== src/Tests.antt =====
-- The theorems at concrete inputs.
mod Data
mod Certificates
mod Events
mod Names
mod Scan
mod Web
mod Server
