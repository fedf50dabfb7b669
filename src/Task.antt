-- ===== src/Task.antt =====
-- runtime/src/task: the state word of a task, and the tasks that run by it.
pub mod State
pub mod View
pub mod Transitions
pub mod Spec
pub mod Loop
pub mod Refinement
pub mod Cell
pub mod Harness
pub mod Handles
pub mod Words
pub mod Ownership
pub mod Tests
