-- ===== src/Builtins.antt =====
-- src/pn_builtins.h: the system calls of the sandboxed program.
mod Tests
mod ThreadTests
pub mod Search
pub mod Mapping
pub mod Futex
pub mod Threads
pub mod Query
