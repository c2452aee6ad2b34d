-- ===== src/Examples.antt =====
-- Each theorem that has conditions, at a small input that meets them.
mod Circuits
mod Buckets
mod Entries
mod Scopes
mod Ledgers
mod Routes
mod Requests
mod Turns
mod Figures
mod Hashes
mod Callers
mod Attempted
mod Batches
mod Looped
