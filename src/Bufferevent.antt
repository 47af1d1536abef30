-- ===== src/Bufferevent.antt =====
-- include/evbuffer.cpp and include/evbuffer.hpp: a bufferevent keeps an input and an output queue for a
-- descriptor, fills and drains them when its two events run, and calls the client.
pub mod State
pub mod Events
pub mod Setup
pub mod Io
pub mod Callbacks
pub mod Bytes
pub mod Pressure
pub mod Draining
pub mod Settling
pub mod Filling
pub mod Reading
pub mod Watermarks
pub mod Writing
pub mod Switching
pub mod Enabling
pub mod Reverting
pub mod Samples
mod Tests
