-- ===== src/Api.antt =====
-- The payloads of the Mailu API (pkg/mailu/client.go), a module for each struct.
pub mod Domain
pub mod Alias
pub mod Dates
pub mod User
