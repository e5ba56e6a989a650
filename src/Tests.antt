-- ===== src/Tests.antt =====
-- Runs of the model on concrete data, and the theorems at inputs that meet their hypotheses.
mod World
mod Payloads
mod Clients
mod Domains
mod Aliases
mod Users
mod Server
mod Starts
mod Memories
mod Tokens
