-- ===== src/Event.antt =====
-- include/event.cpp: events on their queues, and the loop that runs them.
pub mod Queues
pub mod Setup
pub mod Add
pub mod Timer
pub mod Loop
pub mod Invariant
pub mod Enqueue
pub mod Dequeue
pub mod Backend
pub mod Delete
pub mod Activate
pub mod Due
pub mod Expiry
pub mod Room
pub mod Register
pub mod Schedule
pub mod Outcome
pub mod Addition
pub mod Count
pub mod Waiting
pub mod Calls
pub mod Priorities
pub mod Deactivate
pub mod Lifecycle
pub mod Creation
pub mod Current
pub mod Samples
mod Tests
