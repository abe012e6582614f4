-- ===== src/AsyncLog.antt =====
-- lib/AsyncOperationLogger.{h,cpp}: the write-ahead log of pending enqueues and dequeues.
--   Format   the bytes of a log record
--   Replay   what one record read back does to the pending and the lost set
--   Extract  the loops that read a log file
--   Logger   the logger's state, and the operations that append records
--   Recover  the pass over both files at start-up
--   Clean    the pass of the cleaner threads
pub mod Format
pub mod Replay
pub mod Extract
pub mod Logger
pub mod Recover
pub mod Clean
mod EnqueueTests
mod Tests
