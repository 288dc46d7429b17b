-- ===== src/Sync.antt =====
-- The sync engine, internal/server/sync.go: the operations of an outbox batch, what is accepted as one
-- (Validate), and how a batch is applied to the tables of the database (Apply).
pub mod Wire
pub mod Validate
pub mod Apply
pub mod Tests
