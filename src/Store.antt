-- ===== src/Store.antt =====
-- The database of internal/store/store.go: a bucket per kind of record.
pub mod Bucket
pub mod Keys
pub mod Db
pub mod Archives
pub mod Settings
pub mod Nodes
pub mod Accounts
pub mod Reports
pub mod Alarms
pub mod Aggregation
pub mod AlarmSteps
pub mod AlarmWalk
pub mod AlarmView
pub mod AlarmLists
