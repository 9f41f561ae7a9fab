-- ===== src/Examples.antt =====
-- The theorems at concrete inputs.
mod Worker
mod Indexes
mod Manager
mod Cluster
mod Storage
mod Alarms
mod Templates
mod Access
mod Chunks
