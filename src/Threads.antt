-- ===== src/Threads.antt =====
-- kern/hoo: what every thread of the system owns.
pub mod Tid
pub mod Fmngr
mod Tests
