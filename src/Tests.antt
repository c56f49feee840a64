-- ===== src/Tests.antt =====
-- Runs on concrete inputs, and the theorems at inputs where their hypotheses hold.
mod Ascii
mod OperationStatus
mod SyncQueue
mod WatchState
mod SelectiveQueue
mod RuleBuilder
mod Pattern
mod Bencode
mod RuleFetchQueue
