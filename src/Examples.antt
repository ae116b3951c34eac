-- ===== src/Examples.antt =====
-- The theorems at concrete inputs.
mod Data
mod Runs
mod Programs
mod Executions
mod Store
mod Queues
mod Codecs
mod Documents
mod Stores
