-- ===== src/Examples.antt =====
-- The theorems at concrete inputs, and the inputs: a client's script of calls, statuses and a plan.
mod Script
mod Storing
mod Executing
mod Running
mod Planning
mod Publishing
mod Configuring
mod Digesting
mod Moving
mod Locating
mod Correcting
mod Diagnosing
mod Indexing
