-- ===== src/PidTracker.antt =====
-- lib/PidTracker.{h,cpp}: which persistence ids have been enqueued. Each of its parts has a mutex
-- that its operations hold throughout, so an operation is one step of the parts that it uses.
pub mod Record
pub mod Duplicates
pub mod Smart
pub mod Wait
mod Tests
