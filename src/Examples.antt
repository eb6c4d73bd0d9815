-- ===== src/Examples.antt =====
-- The theorems at concrete values.
mod Data
mod Selections
mod Bookkeeping
mod Requests
mod Connections
mod Handlers
mod Changes
