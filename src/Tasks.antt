-- ===== src/Tasks.antt =====
-- The asynchronous order tasks: barbican/tasks and barbican/queue.
pub mod Orders
pub mod FollowOn
pub mod BaseTask
pub mod Certificates
pub mod OrderTasks
pub mod Server
pub mod Scheduler
pub mod OrderUpdate
pub mod Lifecycle
pub mod Samples
mod Tests
