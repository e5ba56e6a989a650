-- ===== src/Controller/Flow/Kinds.antt =====
-- The three reconcilers as instances of the common one, a module for each.
pub mod Domain
pub mod Alias
pub mod User
