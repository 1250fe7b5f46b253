-- ===== src/Tests.antt =====
-- Runs of the definitions on concrete inputs, and the theorems applied to such inputs.
pub mod Data
pub mod Datagrams
pub mod Listening
pub mod Limits
pub mod Messages
pub mod Threads
pub mod Processes
pub mod Services
pub mod Texts
pub mod Programs
pub mod Microcontroller
pub mod Sessions
pub mod LongQueries
