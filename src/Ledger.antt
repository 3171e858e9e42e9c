-- ===== src/Ledger.antt =====
-- internal/adapter/memory/ledger.go, with internal/port/ledger.go: the append-only ledger in memory.
pub mod State
pub mod Append
pub mod Appended
pub mod Integrity
pub mod Reads
pub mod Log
pub mod Indexed
pub mod Copied
pub mod Port
pub mod Streams
pub mod Memory
pub mod Views
